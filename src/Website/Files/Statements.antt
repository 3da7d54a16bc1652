-- ===== src/Website/Files/Statements.antt =====
-- The statements of src/app/website/service.py on `projects` and `site_files`.
use model_lib.Base.{
  ℕ, suc, ◌+◌, Bool, ◌&&◌, Option, none, some, List, [], ◌∷◌, ◌==◌, if◌then◌else◌, length,
}
use model_lib.Base.Text.{Text, text_eq}
use model_lib.Tables.{Project, SiteFile, Db}

-- the row of (user_id, external_project_id)
unfoldable pub find_project : (user_id : ℕ) → (external : Text) → List Project → Option Project
unfolding text_eq
find_project user_id external [] = none
find_project user_id external (p ∷ projects) =
    let rest = find_project user_id external projects in
    if (p.user_id == user_id) && text_eq p.external_project_id external then some p else rest

-- `get_project_by_id`
unfoldable pub project_by_id : ℕ → List Project → Option Project
project_by_id id [] = none
project_by_id id (p ∷ projects) =
    let rest = project_by_id id projects in if p.id == id then some p else rest

-- the INSERT of `resolve_project`, when there is no conflict
unfoldable pub add_project : (user_id : ℕ) → (external : Text) → Db → Db
add_project user_id external db = record db {
  projects =
      (record { id = db.next_id; user_id = user_id; external_project_id = external }) ∷ db.projects;
  next_id = suc db.next_id;
}

-- the row of (project_id, path)
abbrev pub is_at : (project_id : ℕ) → Text → SiteFile → Bool
is_at project_id path file = (file.project_id == project_id) && text_eq file.path path

unfoldable pub find_file : (project_id : ℕ) → (path : Text) → List SiteFile → Option SiteFile
find_file project_id path [] = none
find_file project_id path (file ∷ files) =
    let rest = find_file project_id path files in
    if is_at project_id path file then some file else rest

-- `count(id)` and `coalesce(sum(size), 0)` over the files of the project
unfoldable pub count_files : (project_id : ℕ) → List SiteFile → ℕ
count_files project_id [] = 0
count_files project_id (file ∷ files) =
    (if file.project_id == project_id then 1 else 0) + count_files project_id files

unfoldable pub sum_sizes : (project_id : ℕ) → List SiteFile → ℕ
sum_sizes project_id [] = 0
sum_sizes project_id (file ∷ files) =
    (if file.project_id == project_id then file.size else 0) + sum_sizes project_id files

abbrev pub size_of : Option SiteFile → ℕ
size_of none = 0
size_of (some file) = file.size

abbrev pub one_if_none : Option SiteFile → ℕ
one_if_none none = 1
one_if_none (some file) = 0

-- the UPDATE of the row that was found
unfoldable pub replace_file :
    (project_id : ℕ)
    → (path : Text) → (content : List ℕ) → (content_type : Text) → List SiteFile
    → List SiteFile
replace_file project_id path content content_type [] = []
replace_file project_id path content content_type (file ∷ files) =
    let rest = replace_file project_id path content content_type files in
    if is_at project_id path file
    then record file { content = content; content_type = content_type; size = length content }
      ∷ files
    else file ∷ rest

-- the row is written over if it is there, else added
unfoldable pub put_file :
    Option SiteFile
    → (project_id : ℕ) → (path : Text) → (content : List ℕ) → (content_type : Text) → List SiteFile
    → List SiteFile
unfolding replace_file
put_file (some _) project_id path content content_type files =
    replace_file project_id path content content_type files
put_file none project_id path content content_type files =
    (record {
      project_id = project_id;
      path = path;
      content = content;
      content_type = content_type;
      size = length content;
    })
    ∷ files

abbrev pub set_files : (List SiteFile → List SiteFile) → Db → Db
set_files f db = record db { site_files = f db.site_files }

-- the DELETE of the row that was found
unfoldable pub remove_file : (project_id : ℕ) → (path : Text) → List SiteFile → List SiteFile
remove_file project_id path [] = []
remove_file project_id path (file ∷ files) =
    let rest = remove_file project_id path files in
    if is_at project_id path file then files else file ∷ rest
