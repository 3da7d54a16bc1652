-- ===== src/Website/Sites.antt =====
-- The `site.*` tools on the sites of all users: src/app/website/tools.py and service.py.
use model_lib.Base.{
  ℕ, ◌≡◌, ◌≢◌, refl, sym, ◌∙◌, Bool, false, ◌&&◌, Option, List, arith, ◌==◌, ==_iff, Bool-cases,
  Option-cases, inl, inr,
}
use mathlib.Core.Path.{subst}
use model_lib.Base.Text.{Text, text_eq}
use model_lib.Json.{Runtime}
use model_lib.Tables.{SiteFile, Db}
use model_lib.Session.{Session, ok, Ensures}
use model_lib.Website.Paths.{normalize_site_path}
use model_lib.Website.Files.{Limits, find_file, read_file}
use model_lib.Website.Rows.{find-put, find-remove}
use model_lib.Website.Quota.{IsTidy, put-IsTidy, remove-IsTidy}
use model_lib.Website.Tools.{SiteSettings, SiteCall, ToolExecution, execute}
use model_lib.Website.Calls.{session_project, execute-Ensures}

-- From tidy files, a call of a site tool that did not raise leaves the stored files tidy: one
-- row for each path, paths in normal form, true sizes, and no project over its limits in files
-- and in bytes.
pub execute-IsTidy :
    (settings : SiteSettings) (py : Runtime) (user_id : ℕ) (external : Text) (session_id : ℕ)
    (call : SiteCall) (s s' : Session) (out : ToolExecution)
    → IsTidy settings.limits s.current.site_files
    → execute settings py user_id external session_id call s ≡ (ok out, s')
    → IsTidy settings.limits s'.current.site_files
execute-IsTidy settings py user_id external session_id call s s' out h e =
    let p = session_project user_id external s.current in
    subst (Ensures (λ t. IsTidy settings.limits t.current.site_files)) e (
      execute-Ensures settings py user_id external session_id (IsTidy settings.limits) s
        (λ path content content_type files c o t.
          put-IsTidy settings.limits p path content content_type files c o t)
        (λ path files t. remove-IsTidy settings.limits p path files t) h call)

-- the files of another project, with one row for each path
abbrev pub Reads : (q : ℕ) → Text → Option SiteFile → Limits → List SiteFile → Type 0
Reads q path v limits files = IsTidy limits files × (find_file q path files ≡ v)

elsewhere : (p q : ℕ) (b : Bool) → q ≢ p → ((p == q) && b) ≡ false
elsewhere p q b n = elim (Bool-cases (p == q)) [
  | inl e ↦ absurd (n (sym ((==_iff p q).0 e)))
  | inr e ↦ ground arith
]

read_by_find :
    (q : ℕ) (path : Text) (a b : Db)
    → ((n : Text) → find_file q n a.site_files ≡ find_file q n b.site_files)
    → read_file q path a ≡ read_file q path b
unfolding read_file
read_by_find q path a b h = elim (Option-cases (normalize_site_path path)) [
  | inl e ↦ ground arith
  | inr (n, e) ↦ ground (arith, h n)
]

-- From tidy files, a call of a site tool that did not raise leaves every file of every other
-- project as it was: the call reaches only the project of the user and the chat session that it
-- is made for, the one that it makes if there is none.
pub execute_elsewhere :
    (settings : SiteSettings) (py : Runtime) (user_id : ℕ) (external : Text) (session_id : ℕ)
    (call : SiteCall) (s s' : Session) (out : ToolExecution) (q : ℕ) (path : Text)
    → IsTidy settings.limits s.current.site_files
    → q ≢ session_project user_id external s.current
    → execute settings py user_id external session_id call s ≡ (ok out, s')
    → read_file q path s'.current ≡ read_file q path s.current
execute_elsewhere settings py user_id external session_id call s s' out q path h ne e =
    let p = session_project user_id external s.current in
    read_by_find q path s'.current s.current λ n.
      (subst
        (Ensures (λ t.
          Reads q n (find_file q n s.current.site_files) settings.limits t.current.site_files))
        e
        (execute-Ensures settings py user_id external session_id
          (Reads q n (find_file q n s.current.site_files) settings.limits) s
          (λ w content content_type files c o (t, r). (
            put-IsTidy settings.limits p w content content_type files c o t,
            find-put p w content content_type q n files ∙ rw (elsewhere p q (text_eq w n) ne) r,
          ))
          (λ w files (t, r). (
            remove-IsTidy settings.limits p w files t,
            find-remove p w q n files t.unique ∙ rw (elsewhere p q (text_eq w n) ne) r,
          ))
          (h, refl) call)).1
