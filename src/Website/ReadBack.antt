-- ===== src/Website/ReadBack.antt =====
-- What a write of src/app/website/service.py reports, and what is read behind it.
use model_lib.Base.{
  ℕ, ◌≤◌, ◌≡◌, refl, ap, ◌∙◌, ◌&&◌, Option, none, some, List, arith, ltb, ◌==◌, ==_iff,
  if◌then◌else◌, Bool-cases, Option-cases, inl, inr, length,
}
use mathlib.Core.Path.{subst}
use model_lib.Base.Text.{Text, text_eq, text_eq_refl, text_mem}
use model_lib.Tables.{Project}
use model_lib.Session.{Session, Result, ok, err}
use model_lib.Website.Paths.{normalize_site_path}
use model_lib.Website.Files.{
  SiteError, SiteResult, done, failed, Limits, WriteResult, FileContent, find_file, count_files,
  sum_sizes, project_stats, put_file, over_limit, store_file, store_unless, write_normalized,
  write_at, write_file, read_file, preview_content_types,
}
use model_lib.Website.Rows.{find-put, count-put, sum-put}
use model_lib.Website.Quota.{within_limits}

module _ (limits : Limits) (project : Project) (raw : Text) (content : List ℕ) (content_type : Text)
    (s : Session) where
  -- what a write leaves: nothing new where it failed, else the row behind all tests
  pub record IsStored (r : WriteResult) (s' : Session) : Type 0 where
    pub normal : normalize_site_path raw ≡ some r.path
    pub written : r.bytes_written ≡ length content
    pub file_size : length content ≤ limits.preview_max_file_bytes
    pub files :
        s'.current.site_files
        ≡ put_file
            (find_file project.id r.path s.current.site_files)
            project.id
            r.path
            content
            content_type
            s.current.site_files
    pub count : r.file_count ≡ count_files project.id s'.current.site_files
    pub bytes : r.project_bytes ≡ sum_sizes project.id s'.current.site_files
    pub allowed :
        over_limit limits
          (find_file project.id r.path s.current.site_files)
          (project_stats project.id s.current.site_files)
          (length content)
        ≡ none

  abbrev pub Outcome : Result (SiteResult WriteResult) × Session → Type 0
  Outcome (ok (done r), s') = IsStored r s'
  Outcome (ok (failed e), s') = s' ≡ s
  Outcome (err e, s') = Unit

  store_unless-Outcome :
      (path : Text) (o : Option SiteError)
      → normalize_site_path raw ≡ some path
      → length content ≤ limits.preview_max_file_bytes
      → over_limit limits
          (find_file project.id path s.current.site_files)
          (project_stats project.id s.current.site_files)
          (length content)
        ≡ o
      → Outcome (store_unless o project.id path content content_type s)
  unfolding store_unless store_file project_stats
  store_unless-Outcome path (some e) n l o = refl
  store_unless-Outcome path none n l o = record {
    normal = n;
    written = refl;
    file_size = l;
    files = refl;
    count = refl;
    bytes = refl;
    allowed = o;
  }

  write_at-Outcome :
      (o : Option Text)
      → normalize_site_path raw ≡ o
      → Outcome (write_at limits project.id content content_type o s)
  unfolding write_at write_normalized
  write_at-Outcome none n = refl
  write_at-Outcome (some path) n =
      elim (Bool-cases (ltb limits.preview_max_file_bytes (length content))) [
        | inl e ↦ rw (e, Outcome) refl
        | inr e ↦ rw e (store_unless-Outcome path _ n (ground arith) refl)
      ]

  write-Outcome : Outcome (write_file limits project raw content content_type s)
  unfolding write_file
  write-Outcome = elim (Bool-cases (text_mem content_type preview_content_types)) [
    | inl e ↦ rw e (write_at-Outcome (normalize_site_path raw) refl)
    | inr e ↦ rw e refl
  ]

  abbrev new_content : Text → FileContent
  new_content path = record {
    path = path;
    content = content;
    content_type = content_type;
    size = length content;
  }

  read_by_find :
      (r : WriteResult) (s' : Session) (q : ℕ) (path : Text)
      → IsStored r s'
      → read_file q path s'.current ≡ (elim (normalize_site_path path) [
        | none ↦ none
        | some n ↦
            if (project.id == q) && text_eq r.path n
            then some (new_content r.path)
            else read_file q path s.current
      ])
  unfolding read_file
  read_by_find r s' q path w = elim (Option-cases (normalize_site_path path)) [
    | inl n ↦ ground arith
    | inr (n, m) ↦
        ground
          (arith, w.files, find-put project.id r.path content content_type q n s.current.site_files)
  ]

  -- A write that was answered is stored under the normal form of the path that was asked for:
  -- the content and the content type that were written are read back under that path and under
  -- every other spelling of it, and every other path of every project is read as before.
  pub read-write :
      (r : WriteResult) (s' : Session) (q : ℕ) (path : Text)
      → write_file limits project raw content content_type s ≡ (ok (done r), s')
      → (normalize_site_path raw ≡ some r.path)
        × (read_file project.id raw s'.current ≡ some (new_content r.path))
        × (read_file q path s'.current ≡ (elim (normalize_site_path path) [
          | none ↦ none
          | some n ↦
              if (project.id == q) && text_eq r.path n
              then some (new_content r.path)
              else read_file q path s.current
        ]))
  read-write r s' q path e =
      let w : IsStored r s' = subst Outcome e write-Outcome in
      (
        w.normal,
        ground (
          arith,
          w.normal,
          read_by_find r s' project.id raw w,
          ==_iff project.id project.id,
          text_eq_refl r.path,
        ),
        read_by_find r s' q path w,
      )

  -- A write that was answered is within every limit, and reports the files and the bytes that
  -- the project then has.
  pub write_bounds :
      (r : WriteResult) (s' : Session)
      → write_file limits project raw content content_type s ≡ (ok (done r), s')
      → (r.bytes_written ≤ limits.preview_max_file_bytes)
        × (r.file_count ≤ limits.preview_max_files)
        × (r.project_bytes ≤ limits.preview_max_project_bytes)
        × (r.file_count ≡ count_files project.id s'.current.site_files)
        × (r.project_bytes ≡ sum_sizes project.id s'.current.site_files)
  unfolding project_stats
  write_bounds r s' e =
      let w : IsStored r s' = subst Outcome e write-Outcome in
      let files = s.current.site_files in
      let existing = find_file project.id r.path files in
      let (bytes, count) =
        within_limits limits project.id r.path existing (project_stats project.id files)
          (length content) w.allowed in
      let counted =
        w.count
        ∙ ap (count_files project.id) w.files
        ∙ count-put project.id r.path content content_type project.id files in
      let summed = sum-put project.id r.path content content_type project.id files in
      let total = w.bytes ∙ ap (sum_sizes project.id) w.files in
      (
        omega (arith, w.written, w.file_size),
        ground (arith, ==_iff project.id project.id),
        ground (arith, ==_iff project.id project.id),
        w.count,
        w.bytes,
      )
