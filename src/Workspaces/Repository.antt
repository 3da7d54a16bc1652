-- ===== src/Workspaces/Repository.antt =====
-- src/app/workspaces/repository.py: the statements on `workspace_projects` and `workspace_files`. A
-- method that commits does so here.
use model_lib.Base.{
  ℕ, suc, ◌+◌, Bool, true, false, ◌&&◌, ◌||◌, Option, none, some, List, [], ◌∷◌, ltb, leb, ◌==◌,
  if◌then◌else◌,
}
use model_lib.Base.Text.{Text}
use model_lib.Tables.{WorkspaceProject, WorkspaceFile, ChatSession, Db}
use model_lib.Session.{Action, pure, gets, clock, modify, commit, ◌>>=◌, ◌>>◌}
use model_lib.Audit.{check_user}
use model_lib.Paging.{Page, list_page}

-- the row of (id, user_id)
unfoldable pub find_workspace : (id user_id : ℕ) → List WorkspaceProject → Option WorkspaceProject
find_workspace id user_id [] = none
find_workspace id user_id (w ∷ rows) =
    let rest = find_workspace id user_id rows in
    if (w.id == id) && (w.user_id == user_id) then some w else rest

-- `create_workspace`
unfoldable pub create_workspace :
    (user_id : ℕ)
    → (name : Text) → (description instructions : Option Text) → Action WorkspaceProject
unfolding check_user
create_workspace user_id name description instructions = do
  check_user user_id
  now ← clock
  id ← gets (λ db. db.next_id)
  let row : WorkspaceProject = record {
    id = id;
    user_id = user_id;
    name = name;
    description = description;
    instructions = instructions;
    updated_at = now;
  }
  modify (λ db. record db {
    workspace_projects = row ∷ db.workspace_projects;
    next_id = suc db.next_id;
  })
  commit
  pure row

-- what a PATCH brings; the outer `none` leaves a field as it is
pub record WorkspacePatch : Type 0 where
  pub name : Option Text
  pub description : Option (Option Text)
  pub instructions : Option (Option Text)

abbrev pub or_old {ℓ} : {A : Type ℓ} → Option A → A → A
or_old none old = old
or_old (some new) old = new

unfoldable pub patch_workspace : (now : ℕ) → WorkspacePatch → WorkspaceProject → WorkspaceProject
patch_workspace now patch w = record w {
  name = or_old patch.name w.name;
  description = or_old patch.description w.description;
  instructions = or_old patch.instructions w.instructions;
  updated_at = now;
}

unfoldable pub patch_row :
    (now id : ℕ) → WorkspacePatch → List WorkspaceProject → List WorkspaceProject
unfolding patch_workspace
patch_row now id patch [] = []
patch_row now id patch (w ∷ rows) =
    (if w.id == id then patch_workspace now patch w else w) ∷ patch_row now id patch rows

-- `update_workspace`, of a row that was read
unfoldable pub update_workspace : WorkspaceProject → WorkspacePatch → Action WorkspaceProject
unfolding patch_row patch_workspace
update_workspace workspace patch = do
  now ← clock
  modify (λ db. record db {
    workspace_projects = patch_row now workspace.id patch db.workspace_projects;
  })
  commit
  pure (patch_workspace now patch workspace)

unfoldable pub remove_workspace : (id user_id : ℕ) → List WorkspaceProject → List WorkspaceProject
remove_workspace id user_id [] = []
remove_workspace id user_id (w ∷ rows) =
    let rest = remove_workspace id user_id rows in
    if (w.id == id) && (w.user_id == user_id) then rest else w ∷ rest

-- ON DELETE CASCADE of workspace_files.workspace_project_id
unfoldable pub drop_files_of : (workspace_id : ℕ) → List WorkspaceFile → List WorkspaceFile
drop_files_of workspace_id [] = []
drop_files_of workspace_id (file ∷ files) =
    let rest = drop_files_of workspace_id files in
    if file.workspace_project_id == workspace_id then rest else file ∷ rest

abbrev pub is_bound_to : ℕ → Option ℕ → Bool
is_bound_to w none = false
is_bound_to w (some v) = v == w

-- ON DELETE SET NULL of chat_sessions.workspace_project_id
unfoldable pub unbind : (workspace_id : ℕ) → Option ChatSession → Option ChatSession
unbind workspace_id none = none
unbind workspace_id (some chat) = some (
    if is_bound_to workspace_id chat.workspace_project_id
    then record chat { workspace_project_id = none }
    else chat)

unfoldable pub drop_workspace : (id user_id : ℕ) → Db → Db
unfolding remove_workspace drop_files_of unbind
drop_workspace id user_id db = record db {
  workspace_projects = remove_workspace id user_id db.workspace_projects;
  workspace_files = drop_files_of id db.workspace_files;
  chat_sessions = λ c. unbind id (db.chat_sessions c);
}

-- `delete_workspace`
unfoldable pub delete_workspace : (id user_id : ℕ) → Action Bool
unfolding find_workspace drop_workspace
delete_workspace id user_id s = elim (find_workspace id user_id s.current.workspace_projects) [
  | none ↦ (commit >> pure false) s
  | some w ↦ (modify (drop_workspace id user_id) >> commit >> pure true) s
]

-- ORDER BY created_at, id
unfoldable pub insert_file : WorkspaceFile → List WorkspaceFile → List WorkspaceFile
insert_file file [] = file ∷ []
insert_file file (f ∷ files) =
    let later = f ∷ insert_file file files in
    if ltb file.created_at f.created_at || ((file.created_at == f.created_at) && leb file.id f.id)
    then file ∷ f ∷ files
    else later

-- `list_files`
unfoldable pub list_files : (workspace_id : ℕ) → List WorkspaceFile → List WorkspaceFile
unfolding insert_file
list_files workspace_id [] = []
list_files workspace_id (file ∷ files) =
    let rest = list_files workspace_id files in
    if file.workspace_project_id == workspace_id then insert_file file rest else rest

-- `file_count`
unfoldable pub file_count : (workspace_id : ℕ) → List WorkspaceFile → ℕ
file_count workspace_id [] = 0
file_count workspace_id (file ∷ files) =
    (if file.workspace_project_id == workspace_id then 1 else 0) + file_count workspace_id files

-- `total_bytes`
unfoldable pub total_bytes : (workspace_id : ℕ) → List WorkspaceFile → ℕ
total_bytes workspace_id [] = 0
total_bytes workspace_id (file ∷ files) =
    (if file.workspace_project_id == workspace_id then file.size else 0)
    + total_bytes workspace_id files

-- `add_file`
unfoldable pub add_file :
    (workspace_id : ℕ)
    → (filename : Text) → (content : List ℕ) → (media_type : Text) → (size : ℕ)
    → (extracted_text : Option Text) → Action WorkspaceFile
add_file workspace_id filename content media_type size extracted_text = do
  now ← clock
  id ← gets (λ db. db.next_id)
  let row : WorkspaceFile = record {
    id = id;
    workspace_project_id = workspace_id;
    filename = filename;
    content = content;
    media_type = media_type;
    size = size;
    extracted_text = extracted_text;
    created_at = now;
  }
  modify (λ db. record db { workspace_files = row ∷ db.workspace_files; next_id = suc db.next_id })
  commit
  pure row

unfoldable pub has_file : (workspace_id file_id : ℕ) → List WorkspaceFile → Bool
has_file workspace_id file_id [] = false
has_file workspace_id file_id (file ∷ files) =
    ((file.id == file_id) && (file.workspace_project_id == workspace_id))
    || has_file workspace_id file_id files

unfoldable pub remove_row : (workspace_id file_id : ℕ) → List WorkspaceFile → List WorkspaceFile
remove_row workspace_id file_id [] = []
remove_row workspace_id file_id (file ∷ files) =
    let rest = remove_row workspace_id file_id files in
    if (file.id == file_id) && (file.workspace_project_id == workspace_id)
    then rest
    else file ∷ rest

-- `delete_file`
unfoldable pub delete_row : (workspace_id file_id : ℕ) → Action Bool
unfolding has_file remove_row
delete_row workspace_id file_id = do
  existed ← gets (λ db. has_file workspace_id file_id db.workspace_files)
  modify (λ db. record db { workspace_files = remove_row workspace_id file_id db.workspace_files })
  commit
  pure existed

pub record WorkspaceCursor : Type 0 where
  pub updated_at : ℕ
  pub id : ℕ

abbrev pub cursor_of : WorkspaceProject → WorkspaceCursor
cursor_of w = record { updated_at = w.updated_at; id = w.id }

-- (updated_at DESC, id DESC)
unfoldable pub is_newer : WorkspaceCursor → WorkspaceCursor → Bool
is_newer a b = ltb b.updated_at a.updated_at || ((b.updated_at == a.updated_at) && ltb b.id a.id)

unfoldable pub workspaces_of : (user_id : ℕ) → List WorkspaceProject → List WorkspaceProject
workspaces_of user_id [] = []
workspaces_of user_id (w ∷ rows) =
    let rest = workspaces_of user_id rows in if w.user_id == user_id then w ∷ rest else rest

-- `list_workspaces`, without the counts of a row
unfoldable pub list_workspaces :
    (user_id : ℕ)
    → Option WorkspaceCursor
    → (limit : ℕ) → List WorkspaceProject
    → Page cursor_of is_newer
unfolding list_page workspaces_of is_newer
list_workspaces user_id cursor limit rows =
    list_page cursor_of is_newer (workspaces_of user_id rows) cursor limit
