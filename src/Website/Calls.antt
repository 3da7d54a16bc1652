-- ===== src/Website/Calls.antt =====
-- The `site.*` tools of src/app/website/tools.py on the stored files: limits, isolation of projects,
-- and what a read gives back.
use model_lib.Base.{
  ℕ, ◌≡◌, refl, sym, Bool, not, Option, none, some, List, arith, Option-cases, inl, inr, length,
}
use mathlib.Core.Path.{subst}
use model_lib.Base.Text.{Text, text_mem}
use model_lib.Json.{Runtime}
use model_lib.Tables.{Project, SiteFile, Db}
use model_lib.Session.{Session, Result, ok, err, Action, Ensures, ◌>>=◌}
use model_lib.Session.Keeps.{Keeps, Keeps-pure, Keeps-if, Keeps-bind, continue}
use model_lib.Audit.{AuditEvent, record_event, check_user, check_session}
use model_lib.Website.Paths.{normalize_site_path, IsCanonical}
use model_lib.Website.Canonical.{normalize-IsCanonical}
use model_lib.Website.Files.{
  SiteError, SiteResult, done, failed, Limits, WriteResult, ProjectStats, find_project,
  resolve_project, add_project, find_file, project_stats, put_file, store_file, over_limit,
  store_unless, write_normalized, write_at, write_file, delete_at, preview_content_types,
  remove_file, delete_file,
}
use model_lib.Website.Tools.{
  SiteSettings, SiteCall, ToolExecution, site_write_file, site_preview, site_list, site_read,
  site_delete, decode_content, after_write, write_content, write_decoded, with_project,
  preview_project, list_project, read_project, after_delete, delete_in_project, execute,
}

-- what a predicate of the files has to allow for an action to keep it
module _ (P : List SiteFile → Type 0) where
  record-Keeps : (event : AuditEvent) → Keeps (λ db. P db.site_files) (record_event event)
  unfolding record_event check_user check_session
  record-Keeps event = record { at = λ s h. ground arith; stays = λ s. ground arith }

  resolve-Keeps :
      (user_id : ℕ) (external : Text)
      → Keeps (λ db. P db.site_files) (resolve_project user_id external)
  unfolding resolve_project check_user add_project
  resolve-Keeps user_id external = record { at = λ s h. ground arith; stays = λ s. ground arith }

  after_write-Keeps :
      (user_id session_id : ℕ) (project : Project) (r : SiteResult WriteResult)
      → Keeps (λ db. P db.site_files) (after_write user_id session_id project r)
  unfolding after_write
  after_write-Keeps user_id session_id project (failed e) = Keeps-pure _
  after_write-Keeps user_id session_id project (done r) =
      Keeps-bind _ _ (record-Keeps _) (λ _. Keeps-pure _)

  after_delete-Keeps :
      (user_id session_id : ℕ) (project : Project) (path : Text)
      (r : SiteResult (Bool × ProjectStats))
      → Keeps (λ db. P db.site_files) (after_delete user_id session_id project path r)
  unfolding after_delete
  after_delete-Keeps user_id session_id project path (failed e) = Keeps-pure _
  after_delete-Keeps user_id session_id project path (done (deleted, stats)) =
      Keeps-bind _ _ (record-Keeps _) (λ _. Keeps-pure _)

  -- the files of one project
  module _ (limits : Limits) (p : ℕ) where
    -- allowed are the writes behind the tests, and the deletes
    abbrev pub Allows : Type 0
    Allows =
        (path : Text) (content : List ℕ) (content_type : Text) (files : List SiteFile)
        → IsCanonical path
        → over_limit limits (find_file p path files) (project_stats p files) (length content) ≡ none
        → P files
        → P (put_file (find_file p path files) p path content content_type files)

    abbrev pub AllowsDelete : Type 0
    AllowsDelete = (path : Text) (files : List SiteFile) → P files → P (remove_file p path files)

    store_unless-Keeps :
        Allows
        → (path : Text) (content : List ℕ) (content_type : Text) (files : List SiteFile)
        → (o : Option SiteError) → IsCanonical path
        → over_limit limits (find_file p path files) (project_stats p files) (length content) ≡ o
        → (s : Session) → s.current.site_files ≡ files
        → P files
        → Ensures (λ t. P t.current.site_files) (store_unless o p path content content_type s)
    unfolding store_unless store_file
    store_unless-Keeps k path content content_type files (some e) c o s f h = rw f h
    store_unless-Keeps k path content content_type files none c o s f h =
        rw f (k path content content_type files c o h)

    stays-store :
        (path : Text) (content : List ℕ) (content_type : Text) (o : Option SiteError) (s : Session)
        → (store_unless o p path content content_type s).1.committed ≡ s.committed
    unfolding store_unless store_file
    stays-store path content content_type (some e) s = refl
    stays-store path content content_type none s = refl

    write_at-Keeps :
        Allows
        → (content : List ℕ) (content_type : Text) (o : Option Text)
        → ((n : Text) → o ≡ some n → IsCanonical n)
        → Keeps (λ db. P db.site_files) (write_at limits p content content_type o)
    unfolding write_at write_normalized
    write_at-Keeps k content content_type none c = Keeps-pure _
    write_at-Keeps k content content_type (some n) c = Keeps-if _ _ _ (Keeps-pure _) (record {
      at = λ s h.
          store_unless-Keeps k n content content_type s.current.site_files _ (c n refl) refl s refl
            h;
      stays = λ s. stays-store n content content_type _ s;
    })

    pub write-Keeps :
        Allows
        → (project : Project) (path : Text) (content : List ℕ) (content_type : Text)
        → project.id ≡ p
        → Keeps (λ db. P db.site_files) (write_file limits project path content content_type)
    unfolding write_file
    write-Keeps k project path content content_type e =
        let at_p =
          write_at-Keeps k content content_type (normalize_site_path path)
            (λ n a. normalize-IsCanonical path n a) in
        Keeps-if (not (text_mem content_type preview_content_types)) _ _ (Keeps-pure _) (
          subst
            (λ i.
              Keeps (λ db. P db.site_files)
                (write_at limits i content content_type (normalize_site_path path)))
            (sym e) at_p)

    delete_at-Keeps :
        AllowsDelete → (o : Option Text) → Keeps (λ db. P db.site_files) (delete_at p o)
    unfolding delete_at
    delete_at-Keeps k none = Keeps-pure _
    delete_at-Keeps k (some n) = record {
      at = λ s h. k n s.current.site_files h;
      stays = λ s. refl;
    }

    pub delete-Keeps :
        AllowsDelete
        → (project : Project) (path : Text) → project.id ≡ p
        → Keeps (λ db. P db.site_files) (delete_file project path)
    unfolding delete_file
    delete-Keeps k project path e = rw e (delete_at-Keeps k (normalize_site_path path))

-- What an action that depends on the session ensures of the sessions that it leaves.
abbrev pub EnsuresOf : {A : Type 0} → (A → Session → Type 0) → Result A × Session → Type 0
EnsuresOf Q (ok a, s) = Q a s
EnsuresOf Q (err e, s) = Unit

module _ {A B : Type 0} where
  pub continue-Ensures :
      (Q : A → Session → Type 0) (R : Session → Type 0) (x : Result A × Session) (f : A → Action B)
      → EnsuresOf Q x
      → ((a : A) (s : Session) → Q a s → Ensures R (f a s))
      → Ensures R (continue x f)
  unfolding continue
  continue-Ensures Q R (ok a, s) f h k = k a s h
  continue-Ensures Q R (err e, s) f h k = tt

-- the project that a call of the user works on: the one that is there, or the one that it makes
abbrev pub session_project : (user_id : ℕ) → (external : Text) → Db → ℕ
session_project user_id external db = elim (find_project user_id external db.projects) [
  | none ↦ db.next_id
  | some project ↦ project.id
]

resolve_lem :
    (user_id : ℕ) (external : Text) (s : Session)
    → EnsuresOf
        (λ project t.
          (project.id ≡ session_project user_id external s.current)
          × (t.current.site_files ≡ s.current.site_files))
        (resolve_project user_id external s)
unfolding resolve_project check_user add_project
resolve_lem user_id external s =
    elim (Option-cases (find_project user_id external s.current.projects)) [
      | inr (p, e) ↦ ground arith
      | inl e ↦ elim (Option-cases (s.current.users user_id)) [
        | inl u ↦ ground arith
        | inr (u, d) ↦ ground arith
      ]
    ]

-- A call keeps what the writes and the deletes in its project keep.
module _ (settings : SiteSettings) (py : Runtime) (user_id : ℕ) (external : Text) (session_id : ℕ)
    (P : List SiteFile → Type 0) (s : Session)
    (k : Allows P settings.limits (session_project user_id external s.current))
    (d : AllowsDelete P settings.limits (session_project user_id external s.current))
    (h : P s.current.site_files) where
  write_content-Ensures :
      (path : Text) (content : List ℕ) (content_type : Text)
      → Ensures
          (λ t. P t.current.site_files)
          (write_content settings user_id external session_id path content content_type s)
  unfolding write_content continue
  write_content-Ensures path content content_type =
      continue-Ensures _ (λ t. P t.current.site_files) (resolve_project user_id external s)
        (λ project.
          write_file settings.limits project path content content_type
          >>= after_write user_id session_id project)
        (resolve_lem user_id external s)
        λ project t (same, files).
          (Keeps-bind (write_file settings.limits project path content content_type)
              (after_write user_id session_id project)
              (write-Keeps P settings.limits _ k project path content content_type same)
              (after_write-Keeps P user_id session_id project)).at
            t (rw files h)

  write_decoded-Ensures :
      (path content_type : Text) (x : Result (Option (List ℕ)))
      → Ensures
          (λ t. P t.current.site_files)
          (write_decoded settings user_id external session_id path content_type x s)
  unfolding write_decoded
  write_decoded-Ensures path content_type (err e) = tt
  write_decoded-Ensures path content_type (ok none) = h
  write_decoded-Ensures path content_type (ok (some content)) =
      write_content-Ensures path content content_type

  with_project-Ensures :
      (absent : ToolExecution) (f : Project → Action ToolExecution)
      → ((project : Project)
          → project.id ≡ session_project user_id external s.current
          → Ensures (λ t. P t.current.site_files) (f project s))
      → (o : Option Project) → find_project user_id external s.current.projects ≡ o
      → Ensures {A = ToolExecution}
          (λ t. P t.current.site_files)
          (elim o [ none ↦ (ok absent, s) | some project ↦ f project s ])
  with_project-Ensures absent f g none e = h
  with_project-Ensures absent f g (some project) e = g project (ground arith)

  pub execute-Ensures :
      (call : SiteCall)
      → Ensures
          (λ t. P t.current.site_files)
          (execute settings py user_id external session_id call s)
  unfolding execute with_project preview_project list_project read_project delete_in_project
  execute-Ensures (site_write_file path content content_type encoding) =
      write_decoded-Ensures path content_type (decode_content settings.codec content encoding)
  execute-Ensures (site_preview entry) =
      with_project-Ensures _ (preview_project settings py user_id entry) (λ project e. h) _ refl
  execute-Ensures site_list = with_project-Ensures _ (list_project settings) (λ project e. h) _ refl
  execute-Ensures (site_read path) =
      with_project-Ensures _ (read_project settings path) (λ project e. h) _ refl
  execute-Ensures (site_delete path) =
      with_project-Ensures _ (delete_in_project user_id session_id path)
        (λ project e.
          (Keeps-bind (delete_file project path) (after_delete user_id session_id project path)
              (delete-Keeps P settings.limits _ d project path e)
              (after_delete-Keeps P user_id session_id project path)).at
            s h)
        _ refl
