-- ===== src/Website/Tools.antt =====
-- src/app/website/tools.py: the `site.*` tools that the model calls, for the user and the project of
-- its chat session. The arguments are those that src/app/chat/tools.py validated.
use model_lib.Base.{
  ℕ, ◌-◌, ◌/◌, Bool, false, ◌||◌, ◌==◌, Option, none, some, List, [], ◌∷◌, ◌++◌, if◌then◌else◌,
}
use model_lib.Base.Text.{Text, codes, text_eq, is_empty, starts_with}
use model_lib.Errors.{AppError}
use model_lib.Json.{Runtime}
use model_lib.Tables.{Project, SiteFile, AuditPayload}
use model_lib.Session.{Result, ok, err, Action, pure, raise, ◌>>=◌, ◌>>◌}
use model_lib.Audit.{AuditEvent, record_event}
use model_lib.Website.Files.{
  SiteError, SiteResult, done, failed, Limits, WriteResult, ProjectStats, FileContent, find_project,
  resolve_project, write_file, read_file, delete_file, project_stats,
}
use model_lib.Codec.{Codec}
use model_lib.Website.SignedUrl.{PreviewSettings, build_token}

pub data Encoding : Type 0 where
  utf8 base64 : Encoding

-- the tools, with `SiteWriteFileArgs`, `SitePreviewArgs`, `SiteReadArgs` and `SiteDeleteArgs`
pub data SiteCall : Type 0 where
  site_write_file : (path content content_type : Text) → Encoding → SiteCall
  site_preview : (entry : Option Text) → SiteCall
  site_list : SiteCall
  site_read site_delete : (path : Text) → SiteCall

-- the codes of an error that the model is told
pub data ToolError : Type 0 where
  invalid_encoding project_not_found file_not_found preview_unavailable : ToolError
  site_error : SiteError → ToolError

pub data ToolExecution : Type 0 where
  tool_failed : ToolError → ToolExecution
  written : WriteResult → ToolExecution
  preview : (url : Text) → (expires_at : ℕ) → ToolExecution
  listed : List SiteFile → ProjectStats → ToolExecution
  contents : (path content : Text) → Encoding → (content_type : Text) → (size : ℕ) → ToolExecution
  removed : (path : Text) → (deleted : Bool) → ProjectStats → ToolExecution

pub record SiteSettings : Type 0 where
  pub limits : Limits
  pub preview_settings : PreviewSettings
  -- `normalized_service_domain()`
  pub domain : Text
  pub codec : Codec
  -- ORDER BY path ASC, in the collation of the database
  pub sort_by_path : List SiteFile → List SiteFile

-- `int(time.time())`, from the microseconds since `datetime.min`
unfoldable pub unix_time : ℕ → ℕ
unix_time now = now / 1000000 - 62135596800

-- `_decode_content`; a text with no UTF-8 form raises outside the handlers' `except`
unfoldable pub decode_content : Codec → Text → Encoding → Result (Option (List ℕ))
decode_content codec content utf8 = elim (codec.encode content) [
  | some bytes ↦ ok (some bytes)
  | none ↦ err AppError.unhandled
]
decode_content codec content base64 = ok (codec.b64decode content)

unfoldable pub site_event : (user_id session_id : ℕ) → AuditPayload → AuditEvent
site_event user_id session_id payload = record {
  user_id = user_id;
  session_id = some session_id;
  payload = payload;
}

-- the audit row and the answer of a write
unfoldable pub after_write :
    (user_id session_id : ℕ) → Project → SiteResult WriteResult → Action ToolExecution
unfolding site_event
after_write user_id session_id project (failed e) = pure (tool_failed (site_error e))
after_write user_id session_id project (done r) =
    record_event (
      site_event user_id session_id
        (AuditPayload.site_file_written project.id r.path r.bytes_written))
    >> pure (written r)

-- `_write_file`, once the content is decoded
unfoldable pub write_content :
    SiteSettings
    → (user_id : ℕ) → (external : Text) → (session_id : ℕ) → (path : Text) → (content : List ℕ)
    → (content_type : Text) → Action ToolExecution
unfolding resolve_project write_file after_write
write_content settings user_id external session_id path content content_type = do
  project ← resolve_project user_id external
  r ← write_file settings.limits project path content content_type
  after_write user_id session_id project r

unfoldable pub write_decoded :
    SiteSettings
    → (user_id : ℕ) → (external : Text) → (session_id : ℕ) → (path content_type : Text)
    → Result (Option (List ℕ))
    → Action ToolExecution
unfolding write_content
write_decoded settings user_id external session_id path content_type (err e) = raise e
write_decoded settings user_id external session_id path content_type (ok none) =
    pure (tool_failed invalid_encoding)
write_decoded settings user_id external session_id path content_type (ok (some content)) =
    write_content settings user_id external session_id path content content_type

-- `str(entry_raw) if entry_raw else _DEFAULT_ENTRY`
unfoldable pub entry_or_default : Option Text → Text
unfolding is_empty
entry_or_default none = codes "index.html"
entry_or_default (some entry) = if is_empty entry then codes "index.html" else entry

-- the URL of a preview: absolute where the domain of the service is known
unfoldable pub preview_url : (domain project_text token entry : Text) → Text
unfolding is_empty
preview_url domain project_text token entry =
    let path = codes "/v1/preview/" ++ (project_text ++ (b'/' ∷ (token ++ (b'/' ∷ entry)))) in
    if is_empty domain then path else codes "https://" ++ (domain ++ path)

-- `_preview`, for a project that is there
unfoldable pub sign_preview :
    SiteSettings → Runtime → (user_id : ℕ) → Option Text → Project → (now : ℕ) → ToolExecution
unfolding build_token unix_time entry_or_default preview_url
sign_preview settings py user_id entry project now =
    elim (build_token settings.codec py settings.preview_settings project.id user_id
      (unix_time now)) [
        | none ↦ tool_failed preview_unavailable
        | some signed ↦
            preview
              (preview_url settings.domain (py.uuid_text project.id) signed.token
                (entry_or_default entry))
              signed.expires_at
      ]

-- the rows of a project
unfoldable pub files_of : (project_id : ℕ) → List SiteFile → List SiteFile
files_of project_id [] = []
files_of project_id (file ∷ files) =
    let rest = files_of project_id files in
    if file.project_id == project_id then file ∷ rest else rest

-- text is answered as it is, all else as base64
unfoldable pub is_text_type : Text → Bool
unfolding starts_with text_eq
is_text_type content_type =
    starts_with content_type (codes "text/") || text_eq content_type (codes "application/json")

unfoldable pub show_file : Codec → FileContent → ToolExecution
unfolding is_text_type
show_file codec file =
    let encoded =
      contents file.path (codec.b64encode file.content) base64 file.content_type file.size in
    if is_text_type file.content_type
    then elim (codec.decode file.content) [
      | none ↦ encoded
      | some text ↦ contents file.path text utf8 file.content_type file.size
    ]
    else encoded

-- the audit row and the answer of a delete
unfoldable pub after_delete :
    (user_id session_id : ℕ)
    → Project
    → (path : Text) → SiteResult (Bool × ProjectStats)
    → Action ToolExecution
unfolding site_event
after_delete user_id session_id project path (failed e) = pure (tool_failed (site_error e))
after_delete user_id session_id project path (done (deleted, stats)) =
    record_event
      (site_event user_id session_id (AuditPayload.site_file_deleted project.id path deleted))
    >> pure (removed path deleted stats)

abbrev pub no_stats : ProjectStats
no_stats = record { file_count = 0; project_bytes = 0 }

-- the project of the session, or the answer where there is none
unfoldable pub with_project :
    (user_id : ℕ)
    → (external : Text) → (absent : ToolExecution) → (Project → Action ToolExecution)
    → Action ToolExecution
unfolding find_project
with_project user_id external absent k s = elim (find_project user_id external s.current.projects) [
  | none ↦ (ok absent, s)
  | some project ↦ k project s
]

unfoldable pub preview_project :
    SiteSettings → Runtime → (user_id : ℕ) → Option Text → Project → Action ToolExecution
unfolding sign_preview
preview_project settings py user_id entry project s =
    (ok (sign_preview settings py user_id entry project s.now), s)

unfoldable pub list_project : SiteSettings → Project → Action ToolExecution
unfolding files_of project_stats
list_project settings project s = (
  ok (
      listed (settings.sort_by_path (files_of project.id s.current.site_files))
        (project_stats project.id s.current.site_files)),
  s,
)

unfoldable pub read_project : SiteSettings → (path : Text) → Project → Action ToolExecution
unfolding read_file show_file
read_project settings path project s = (
  ok (elim (read_file project.id path s.current) [
    | none ↦ tool_failed file_not_found
    | some file ↦ show_file settings.codec file
  ]),
  s,
)

unfoldable pub delete_in_project :
    (user_id session_id : ℕ) → (path : Text) → Project → Action ToolExecution
unfolding delete_file after_delete
delete_in_project user_id session_id path project = do
  r ← delete_file project path
  after_delete user_id session_id project path r

-- `execute`: the user and the project are those of the chat session
unfoldable pub execute :
    SiteSettings
    → Runtime
    → (user_id : ℕ) → (external : Text) → (session_id : ℕ) → SiteCall
    → Action ToolExecution
unfolding decode_content write_decoded with_project preview_project list_project read_project
    delete_in_project
execute settings py user_id external session_id
      (site_write_file path content content_type encoding) =
    write_decoded settings user_id external session_id path content_type
      (decode_content settings.codec content encoding)
execute settings py user_id external session_id (site_preview entry) =
    with_project user_id external (tool_failed project_not_found)
      (preview_project settings py user_id entry)
execute settings py user_id external session_id site_list =
    with_project user_id external (listed [] no_stats) (list_project settings)
execute settings py user_id external session_id (site_read path) =
    with_project user_id external (tool_failed file_not_found) (read_project settings path)
execute settings py user_id external session_id (site_delete path) =
    with_project user_id external (removed path false no_stats)
      (delete_in_project user_id session_id path)
