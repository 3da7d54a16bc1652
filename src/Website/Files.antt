-- ===== src/Website/Files.antt =====
-- `WebsiteService` of src/app/website/service.py: projects and their files. A `SiteFileError` is a
-- value, since the tool handlers catch it.
pub mod Statements
unfoldable pub use model_lib.Website.Files.Statements.{
  find_project, project_by_id, add_project, is_at, find_file, count_files, sum_sizes, size_of,
  one_if_none, replace_file, put_file, set_files, remove_file,
}
use model_lib.Base.{
  ℕ, suc, ◌+◌, ◌-◌, Bool, true, false, not, ◌&&◌, Option, none, some, List, [], ◌∷◌, ltb, ◌==◌,
  if◌then◌else◌, length,
}
use model_lib.Base.Text.{Text, codes, text_eq, text_mem}
use model_lib.Tables.{Project, SiteFile, Db}
use model_lib.Session.{ok, Action, pure, gets, modify, ◌>>=◌, ◌>>◌}
use model_lib.Audit.{check_user}
use model_lib.Website.Paths.{normalize_site_path}

-- the codes of `SiteFileError`
pub data SiteError : Type 0 where
  project_unresolved invalid_path invalid_content_type file_too_large project_too_large
        too_many_files :
      SiteError

pub data SiteResult (A : Type 0) : Type 0 where
  done : A → SiteResult A
  failed : SiteError → SiteResult A

-- the limits of `Settings`
pub record Limits : Type 0 where
  pub preview_max_file_bytes : ℕ
  pub preview_max_project_bytes : ℕ
  pub preview_max_files : ℕ

pub record WriteResult : Type 0 where
  pub path : Text
  pub bytes_written : ℕ
  pub file_count : ℕ
  pub project_bytes : ℕ

pub record ProjectStats : Type 0 where
  pub file_count : ℕ
  pub project_bytes : ℕ

pub record FileContent : Type 0 where
  pub path : Text
  pub content : List ℕ
  pub content_type : Text
  pub size : ℕ

-- `PREVIEW_CONTENT_TYPE_ALLOWLIST`
unfoldable pub preview_content_types : List Text
preview_content_types =
    codes "text/html"
    ∷ codes "text/css"
    ∷ codes "text/javascript"
    ∷ codes "application/json"
    ∷ codes "image/png"
    ∷ codes "image/jpeg"
    ∷ codes "image/svg+xml"
    ∷ codes "image/gif"
    ∷ codes "image/webp"
    ∷ codes "font/woff2"
    ∷ codes "text/plain"
    ∷ []

-- `resolve_project`
unfoldable pub resolve_project : (user_id : ℕ) → (external : Text) → Action Project
unfolding find_project add_project check_user
resolve_project user_id external s = elim (find_project user_id external s.current.projects) [
  | some p ↦ (ok p, s)
  | none ↦
      (check_user user_id
          >> modify (add_project user_id external)
          >> pure (record {
            id = s.current.next_id;
            user_id = user_id;
            external_project_id = external;
          }))
        s
]

-- `_project_stats`
unfoldable pub project_stats : (project_id : ℕ) → List SiteFile → ProjectStats
unfolding count_files sum_sizes
project_stats project_id files = record {
  file_count = count_files project_id files;
  project_bytes = sum_sizes project_id files;
}

-- the write, and the aggregates read again
unfoldable pub store_file :
    (project_id : ℕ)
    → (path : Text) → (content : List ℕ) → (content_type : Text) → Action (SiteResult WriteResult)
unfolding put_file find_file project_stats
store_file project_id path content content_type = do
  existing ← gets (λ db. find_file project_id path db.site_files)
  modify (set_files (put_file existing project_id path content content_type))
  post ← gets (λ db. project_stats project_id db.site_files)
  pure (
      done (record {
        path = path;
        bytes_written = length content;
        file_count = post.file_count;
        project_bytes = post.project_bytes;
      }))

-- what the write would make of the aggregates, against the limits
unfoldable pub over_limit : Limits → Option SiteFile → ProjectStats → (size : ℕ) → Option SiteError
over_limit limits existing stats size =
    if ltb limits.preview_max_project_bytes (stats.project_bytes + size - size_of existing)
    then some project_too_large
    else if ltb limits.preview_max_files (stats.file_count + one_if_none existing)
    then some too_many_files
    else none

unfoldable pub store_unless :
    Option SiteError
    → (project_id : ℕ) → (path : Text) → (content : List ℕ) → (content_type : Text)
    → Action (SiteResult WriteResult)
unfolding store_file
store_unless (some e) project_id path content content_type = pure (failed e)
store_unless none project_id path content content_type =
    store_file project_id path content content_type

-- behind the tests on the file alone
unfoldable pub write_normalized :
    Limits
    → (project_id : ℕ) → (path : Text) → (content : List ℕ) → (content_type : Text)
    → Action (SiteResult WriteResult)
unfolding over_limit find_file project_stats store_unless
write_normalized limits project_id path content content_type s =
    store_unless
      (over_limit limits (find_file project_id path s.current.site_files)
        (project_stats project_id s.current.site_files) (length content))
      project_id path content content_type s

-- with the path that `normalize_site_path` gave
unfoldable pub write_at :
    Limits
    → (project_id : ℕ) → (content : List ℕ) → (content_type : Text) → Option Text
    → Action (SiteResult WriteResult)
unfolding write_normalized
write_at limits project_id content content_type none = pure (failed invalid_path)
write_at limits project_id content content_type (some path) =
    if ltb limits.preview_max_file_bytes (length content)
    then pure (failed file_too_large)
    else write_normalized limits project_id path content content_type

-- `write_file`
unfoldable pub write_file :
    Limits
    → Project
    → (path : Text) → (content : List ℕ) → (content_type : Text) → Action (SiteResult WriteResult)
unfolding preview_content_types normalize_site_path write_at text_mem
write_file limits project path content content_type =
    if not (text_mem content_type preview_content_types)
    then pure (failed invalid_content_type)
    else write_at limits project.id content content_type (normalize_site_path path)

abbrev pub content_of : SiteFile → FileContent
content_of file = record {
  path = file.path;
  content = file.content;
  content_type = file.content_type;
  size = file.size;
}

-- `read_file`
unfoldable pub read_file : (project_id : ℕ) → (path : Text) → Db → Option FileContent
unfolding normalize_site_path find_file
read_file project_id path db = elim (normalize_site_path path) [
  | none ↦ none
  | some normalized ↦ elim (find_file project_id normalized db.site_files) [
    | none ↦ none
    | some file ↦ some (content_of file)
  ]
]

-- with the path that `normalize_site_path` gave
unfoldable pub delete_at :
    (project_id : ℕ) → Option Text → Action (SiteResult (Bool × ProjectStats))
unfolding find_file remove_file project_stats
delete_at project_id none = pure (failed invalid_path)
delete_at project_id (some path) = do
  existing ← gets (λ db. find_file project_id path db.site_files)
  modify (set_files (remove_file project_id path))
  stats ← gets (λ db. project_stats project_id db.site_files)
  pure (done (elim existing [ none ↦ false | some _ ↦ true ], stats))

-- `delete_file`
unfoldable pub delete_file : Project → (path : Text) → Action (SiteResult (Bool × ProjectStats))
unfolding normalize_site_path delete_at
delete_file project path = delete_at project.id (normalize_site_path path)
