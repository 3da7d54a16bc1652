-- ===== src/Website/Rows.antt =====
-- What the statements on `site_files` make of a lookup and of a project's aggregates.
use model_lib.Base.{
  ℕ, ◌+◌, ◌≤◌, ◌≡◌, refl, ◌&&◌, none, some, List, [], ◌∷◌, arith, ◌==◌, if◌then◌else◌, Option-cases,
  inl, inr, length,
}
use model_lib.Base.Text.{Text, text_eq, text_eq_iff}
use model_lib.Tables.{SiteFile}
use model_lib.Website.Files.{
  find_file, count_files, sum_sizes, size_of, one_if_none, replace_file, put_file, remove_file,
}

module _ (p : ℕ) (path : Text) (content : List ℕ) (content_type : Text) where
  abbrev pub new_file : SiteFile
  new_file = record {
    project_id = p;
    path = path;
    content = content;
    content_type = content_type;
    size = length content;
  }

  find-replace :
      (q : ℕ) (r : Text) (files : List SiteFile) (f : SiteFile)
      → find_file p path files ≡ some f
      → find_file q r (replace_file p path content content_type files)
        ≡ (if (p == q) && text_eq path r then some new_file else find_file q r files)
  unfolding find_file replace_file
  find-replace q r [] f e = absurd (ground arith)
  find-replace q r (file ∷ files) f e = ground (
    arith,
    text_eq_iff file.path path,
    text_eq_iff file.path r,
    text_eq_iff path r,
    find-replace q r files f,
  )

  -- after the write, a lookup finds the new row at its place, and elsewhere what was there
  pub find-put :
      (q : ℕ) (r : Text) (files : List SiteFile)
      → find_file q r (put_file (find_file p path files) p path content content_type files)
        ≡ (if (p == q) && text_eq path r then some new_file else find_file q r files)
  unfolding put_file
  find-put q r files = elim (Option-cases (find_file p path files)) [
    | inl e ↦ rw e (unfold find_file in ground arith)
    | inr (f, e) ↦ rw e (find-replace q r files f e)
  ]

  count-replace :
      (q : ℕ) (files : List SiteFile)
      → count_files q (replace_file p path content content_type files) ≡ count_files q files
  unfolding count_files replace_file
  count-replace q [] = refl
  count-replace q (file ∷ files) = ground (arith, count-replace q files)

  pub count-put :
      (q : ℕ) (files : List SiteFile)
      → count_files q (put_file (find_file p path files) p path content content_type files)
        ≡ count_files q files + (if p == q then one_if_none (find_file p path files) else 0)
  unfolding put_file
  count-put q files = elim (Option-cases (find_file p path files)) [
    | inl e ↦ rw e (unfold count_files in ground arith)
    | inr (f, e) ↦ rw e (ground (arith, count-replace q files))
  ]

  sum-replace :
      (q : ℕ) (files : List SiteFile) (f : SiteFile)
      → find_file p path files ≡ some f
      → sum_sizes q (replace_file p path content content_type files)
          + (if p == q then f.size else 0)
        ≡ sum_sizes q files + (if p == q then length content else 0)
  unfolding find_file sum_sizes replace_file
  sum-replace q [] f e = absurd (ground arith)
  sum-replace q (file ∷ files) f e = ground (arith, sum-replace q files f)

  pub sum-put :
      (q : ℕ) (files : List SiteFile)
      → sum_sizes q (put_file (find_file p path files) p path content content_type files)
          + (if p == q then size_of (find_file p path files) else 0)
        ≡ sum_sizes q files + (if p == q then length content else 0)
  unfolding put_file
  sum-put q files = elim (Option-cases (find_file p path files)) [
    | inl e ↦ rw e (unfold sum_sizes in ground arith)
    | inr (f, e) ↦ rw e (sum-replace q files f e)
  ]

size_of-le_sum :
    (p : ℕ) (path : Text) (files : List SiteFile)
    → size_of (find_file p path files) ≤ sum_sizes p files
unfolding find_file sum_sizes
size_of-le_sum p path [] = ground arith
size_of-le_sum p path (file ∷ files) = ground (arith, size_of-le_sum p path files)

-- Every (project_id, path) names one row: the constraint ux_site_files_project_path.
abbrev pub IsUnique : List SiteFile → Type 0
IsUnique [] = Unit
IsUnique (file ∷ files) = (find_file file.project_id file.path files ≡ none) × IsUnique files

module _ (p : ℕ) (path : Text) where
  -- after the delete, a lookup finds nothing at that place, and elsewhere what was there
  pub find-remove :
      (q : ℕ) (r : Text) (files : List SiteFile)
      → IsUnique files
      → find_file q r (remove_file p path files)
        ≡ (if (p == q) && text_eq path r then none else find_file q r files)
  unfolding find_file remove_file
  find-remove q r [] u = ground arith
  find-remove q r (file ∷ files) (u, us) = ground (
    arith,
    text_eq_iff file.path path,
    text_eq_iff file.path r,
    text_eq_iff path r,
    find-remove q r files us,
  )

  remove-absent :
      (q : ℕ) (r : Text) (files : List SiteFile)
      → find_file q r files ≡ none
      → find_file q r (remove_file p path files) ≡ none
  unfolding find_file remove_file
  remove-absent q r [] e = refl
  remove-absent q r (file ∷ files) e = ground (arith, remove-absent q r files)

  pub remove-IsUnique :
      (files : List SiteFile) → IsUnique files → IsUnique (remove_file p path files)
  unfolding remove_file
  remove-IsUnique [] u = tt
  remove-IsUnique (file ∷ files) (u, us) =
      ground (arith, remove-absent file.project_id file.path files u, remove-IsUnique files us)

  pub count-remove :
      (q : ℕ) (files : List SiteFile)
      → count_files q (remove_file p path files) ≤ count_files q files
  unfolding count_files remove_file
  count-remove q [] = omega arith
  count-remove q (file ∷ files) = ground (arith, count-remove q files)

  pub sum-remove :
      (q : ℕ) (files : List SiteFile) → sum_sizes q (remove_file p path files) ≤ sum_sizes q files
  unfolding sum_sizes remove_file
  sum-remove q [] = omega arith
  sum-remove q (file ∷ files) = ground (arith, sum-remove q files)

  replace-absent :
      (content : List ℕ) (content_type : Text) (q : ℕ) (r : Text) (files : List SiteFile)
      → find_file q r files ≡ none
      → find_file q r (replace_file p path content content_type files) ≡ none
  unfolding find_file replace_file
  replace-absent content content_type q r [] e = refl
  replace-absent content content_type q r (file ∷ files) e =
      ground (arith, replace-absent content content_type q r files)

  replace-IsUnique :
      (content : List ℕ) (content_type : Text) (files : List SiteFile)
      → IsUnique files
      → IsUnique (replace_file p path content content_type files)
  unfolding replace_file
  replace-IsUnique content content_type [] u = tt
  replace-IsUnique content content_type (file ∷ files) (u, us) = ground (
    arith,
    replace-absent content content_type file.project_id file.path files u,
    replace-IsUnique content content_type files us,
  )

  pub put-IsUnique :
      (content : List ℕ) (content_type : Text) (files : List SiteFile)
      → IsUnique files
      → IsUnique (put_file (find_file p path files) p path content content_type files)
  unfolding put_file
  put-IsUnique content content_type files u = elim (Option-cases (find_file p path files)) [
    | inl e ↦ rw e (e, u)
    | inr (f, e) ↦ rw e (replace-IsUnique content content_type files u)
  ]
