-- ===== src/Website/Quota.antt =====
-- What every write and delete keeps of the stored files: src/app/website/service.py.
use model_lib.Base.{
  ℕ, ◌+◌, ◌-◌, ◌≤◌, ◌≡◌, refl, Option, none, some, List, [], ◌∷◌, arith, ==_iff, length, All,
}
use model_lib.Base.Text.{Text}
use model_lib.Tables.{SiteFile}
use model_lib.Website.Paths.{IsCanonical}
use model_lib.Website.Files.{
  Limits, ProjectStats, find_file, count_files, sum_sizes, project_stats, size_of, one_if_none,
  replace_file, put_file, over_limit, remove_file,
}
use model_lib.Website.Rows.{
  IsUnique, new_file, put-IsUnique, count-put, sum-put, remove-IsUnique, count-remove, sum-remove,
}

-- The stored files: one row for each path, canonical paths, true sizes, and no project over its
-- limits.
pub record IsTidy (limits : Limits) (files : List SiteFile) : Type 0 where
  pub unique : IsUnique files
  pub canonical : All (λ file. IsCanonical file.path) files
  pub sized : All (λ file. file.size ≡ length file.content) files
  pub counted : (q : ℕ) → count_files q files ≤ limits.preview_max_files
  pub bounded : (q : ℕ) → sum_sizes q files ≤ limits.preview_max_project_bytes

module _ (P : SiteFile → Type 0) (p : ℕ) (path : Text) where
  module _ (content : List ℕ) (content_type : Text) where
    All-replace :
        ((file : SiteFile)
          → P file
          → P (record file {
            content = content;
            content_type = content_type;
            size = length content;
          }))
        → (files : List SiteFile) → All P files
        → All P (replace_file p path content content_type files)
    unfolding replace_file
    All-replace k [] h = tt
    All-replace k (file ∷ files) (h, hs) = ground (arith, k file h, All-replace k files hs)

    All-put :
        P (new_file p path content content_type)
        → ((file : SiteFile)
            → P file
            → P (record file {
              content = content;
              content_type = content_type;
              size = length content;
            }))
        → (existing : Option SiteFile) (files : List SiteFile) → All P files
        → All P (put_file existing p path content content_type files)
    unfolding put_file
    All-put n k none files h = (n, h)
    All-put n k (some file) files h = All-replace k files h

  All-remove : (files : List SiteFile) → All P files → All P (remove_file p path files)
  unfolding remove_file
  All-remove [] h = tt
  All-remove (file ∷ files) (h, hs) = ground (arith, All-remove files hs)

module _ (limits : Limits) (p : ℕ) (path : Text) where
  -- what the tests on the aggregates say
  pub within_limits :
      (existing : Option SiteFile) (stats : ProjectStats) (size : ℕ)
      → over_limit limits existing stats size ≡ none
      → (stats.project_bytes + size - size_of existing ≤ limits.preview_max_project_bytes)
        × (stats.file_count + one_if_none existing ≤ limits.preview_max_files)
  unfolding over_limit
  within_limits existing stats size h = ground arith

  pub put-IsTidy :
      (content : List ℕ) (content_type : Text) (files : List SiteFile)
      → IsCanonical path
      → over_limit limits (find_file p path files) (project_stats p files) (length content) ≡ none
      → IsTidy limits files
      → IsTidy limits (put_file (find_file p path files) p path content content_type files)
  unfolding project_stats
  put-IsTidy content content_type files c o t =
      let (bytes, count) =
        within_limits (find_file p path files) (project_stats p files) (length content) o in
      record {
        unique = put-IsUnique p path content content_type files t.unique;
        canonical =
            All-put (λ file. IsCanonical file.path) p path content content_type c (λ file h. h)
              (find_file p path files) files t.canonical;
        sized =
            All-put (λ file. file.size ≡ length file.content) p path content content_type refl
              (λ file h. refl) (find_file p path files) files t.sized;
        counted = λ q.
            ground (arith, ==_iff p q, t.counted q, count-put p path content content_type q files);
        bounded = λ q.
            ground (arith, ==_iff p q, t.bounded q, sum-put p path content content_type q files);
      }

  pub remove-IsTidy :
      (files : List SiteFile) → IsTidy limits files → IsTidy limits (remove_file p path files)
  remove-IsTidy files t = record {
    unique = remove-IsUnique p path files t.unique;
    canonical = All-remove (λ file. IsCanonical file.path) p path files t.canonical;
    sized = All-remove (λ file. file.size ≡ length file.content) p path files t.sized;
    counted = λ q. omega (arith, t.counted q, count-remove p path q files);
    bounded = λ q. omega (arith, t.bounded q, sum-remove p path q files);
  }
