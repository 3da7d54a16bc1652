-- ===== src/Workspaces/Service.antt =====
-- src/app/workspaces/service.py and text_extract.py: workspaces of one user, with the limits on their
-- knowledge files. A workspace of another user is as good as none.
use model_lib.Base.{
  ℕ, ◌+◌, Bool, true, false, not, ◌&&◌, Option, none, some, List, [], ◌∷◌, ◌++◌, ltb, leb,
  if◌then◌else◌, length, map,
}
use model_lib.Base.Text.{Text, codes, text_mem, is_empty, strip}
use model_lib.Errors.{AppError}
use model_lib.Json.{Runtime}
use model_lib.Tables.{WorkspaceProject, WorkspaceFile}
use model_lib.Session.{Result, ok, err, Action, ⊤, pure, raise, raise_if, gets, ◌>>=◌, ◌>>◌}
use model_lib.Chat.Attachments.{
  AttachmentType, image, document, text, AttachmentSettings, allowed_types, decoded_len_from_base64,
  has_magic_bytes, is_allowed_pdf, decode_text,
}
use model_lib.Workspaces.Repository

-- `WorkspaceFileUploadRequest`
pub record UploadRequest : Type 0 where
  pub type : AttachmentType
  pub media_type : Text
  pub filename : Text
  -- base64
  pub content : Text

pub record WorkspaceSettings : Type 0 where
  pub workspace_file_max_count : ℕ
  pub workspace_file_max_bytes : ℕ
  pub workspace_files_total_bytes : ℕ
  pub attachments : AttachmentSettings
  -- the texts of the pages that pypdf extracts; `none` for an exception
  pub pages_of : List ℕ → Option (List Text)

pub record ExtractedFile : Type 0 where
  pub content : List ℕ
  pub extracted_text : Option Text
  pub size : ℕ

pub record WorkspaceFileView : Type 0 where
  pub file_id : ℕ
  pub filename : Text
  pub media_type : Text
  pub size : ℕ
  pub has_extracted_text : Bool
  pub created_at : ℕ

-- `_file_view`
unfoldable pub file_view : WorkspaceFile → WorkspaceFileView
unfolding is_empty
file_view f = record {
  file_id = f.id;
  filename = f.filename;
  media_type = f.media_type;
  size = f.size;
  has_extracted_text = elim f.extracted_text [ none ↦ false | some t ↦ not (is_empty t) ];
  created_at = f.created_at;
}

-- "\n\n".join(p for p in parts if p)
unfoldable pub join_pages : List Text → Text
unfolding is_empty
join_pages [] = []
join_pages (p ∷ pages) =
    let rest = join_pages pages in
    if is_empty p then rest else if is_empty rest then p else p ++ (codes "\n\n" ++ rest)

-- the checks of the decoded bytes, by class, and the text of what has one
unfoldable pub extract_text :
    WorkspaceSettings → Runtime → UploadRequest → List ℕ → Result (Option Text)
unfolding has_magic_bytes is_allowed_pdf decode_text join_pages strip
extract_text settings py req content = elim req.type [
  | image ↦
      if has_magic_bytes req.media_type content then ok none else err AppError.validation_error
  | document ↦
      if has_magic_bytes req.media_type content
        && is_allowed_pdf settings.attachments (settings.attachments.read_pdf content)
      then elim (settings.pages_of content) [
        | none ↦ err AppError.validation_error
        | some pages ↦ ok (some (strip (join_pages pages)))
      ]
      else err AppError.validation_error
  | text ↦ elim (decode_text settings.attachments.codec py req.media_type content) [
    | ok t ↦ ok (some t)
    | err e ↦ err e
  ]
]

-- the decoded bytes against the limit, and their text
unfoldable pub extract_bytes :
    WorkspaceSettings → Runtime → UploadRequest → Option (List ℕ) → Result ExtractedFile
unfolding extract_text
extract_bytes settings py req none = err AppError.validation_error
extract_bytes settings py req (some content) =
    if ltb settings.workspace_file_max_bytes (length content)
    then err AppError.payload_too_large
    else elim (extract_text settings py req content) [
      | err e ↦ err e
      | ok t ↦ ok (record { content = content; extracted_text = t; size = length content })
    ]

-- `validate_and_extract`
unfoldable pub validate_and_extract :
    WorkspaceSettings → Runtime → UploadRequest → Result ExtractedFile
unfolding allowed_types decoded_len_from_base64 extract_bytes text_mem
validate_and_extract settings py req =
    if not (text_mem req.media_type (allowed_types req.type))
    then err AppError.validation_error
    else if ltb settings.workspace_file_max_bytes (decoded_len_from_base64 req.content)
    then err AppError.payload_too_large
    else extract_bytes settings py req (settings.attachments.codec.b64decode req.content)

-- `_require_workspace`
unfoldable pub require_workspace : (workspace_id user_id : ℕ) → Action WorkspaceProject
unfolding Repository.find_workspace
require_workspace workspace_id user_id s =
    elim (Repository.find_workspace workspace_id user_id s.current.workspace_projects) [
      | none ↦ (err AppError.not_found, s)
      | some workspace ↦ (ok workspace, s)
    ]

-- `create`
unfoldable pub create :
    (user_id : ℕ)
    → (name : Text) → (description instructions : Option Text) → Action WorkspaceProject
unfolding Repository.create_workspace strip
create user_id name description instructions =
    Repository.create_workspace user_id (strip name) description instructions

-- `update`
unfoldable pub update :
    (workspace_id user_id : ℕ)
    → Repository.WorkspacePatch
    → Action (WorkspaceProject × List WorkspaceFileView)
unfolding require_workspace Repository.update_workspace Repository.list_files file_view strip
update workspace_id user_id patch = do
  workspace ← require_workspace workspace_id user_id
  updated ←
      Repository.update_workspace workspace
        (record patch { name = elim patch.name [ none ↦ none | some n ↦ some (strip n) ] })
  files ← gets (λ db. Repository.list_files workspace_id db.workspace_files)
  pure (updated, map file_view files)

-- `get_detail`
unfoldable pub get_detail :
    (workspace_id user_id : ℕ) → Action (WorkspaceProject × List WorkspaceFileView)
unfolding require_workspace Repository.list_files file_view
get_detail workspace_id user_id = do
  workspace ← require_workspace workspace_id user_id
  files ← gets (λ db. Repository.list_files workspace_id db.workspace_files)
  pure (workspace, map file_view files)

-- `delete`
unfoldable pub delete : (workspace_id user_id : ℕ) → Action ⊤
unfolding Repository.delete_workspace
delete workspace_id user_id = do
  deleted ← Repository.delete_workspace workspace_id user_id
  raise_if (not deleted) AppError.not_found

-- the file is added if the total allows it
unfoldable pub add_extracted :
    WorkspaceSettings
    → (workspace_id : ℕ) → UploadRequest
    → Result ExtractedFile
    → Action WorkspaceFileView
unfolding Repository.total_bytes Repository.add_file file_view
add_extracted settings workspace_id req (err e) = raise e
add_extracted settings workspace_id req (ok extracted) = do
  current_total ← gets (λ db. Repository.total_bytes workspace_id db.workspace_files)
  raise_if (ltb settings.workspace_files_total_bytes (current_total + extracted.size))
      AppError.validation_error
  row ←
      Repository.add_file workspace_id req.filename extracted.content req.media_type extracted.size
        extracted.extracted_text
  pure (file_view row)

-- `upload_file`
unfoldable pub upload_file :
    WorkspaceSettings
    → Runtime
    → (workspace_id user_id : ℕ) → UploadRequest
    → Action WorkspaceFileView
unfolding require_workspace Repository.file_count validate_and_extract add_extracted
upload_file settings py workspace_id user_id req = do
  require_workspace workspace_id user_id
  count ← gets (λ db. Repository.file_count workspace_id db.workspace_files)
  raise_if (leb settings.workspace_file_max_count count) AppError.validation_error
  add_extracted settings workspace_id req (validate_and_extract settings py req)

-- `list_files`
unfoldable pub list_files : (workspace_id user_id : ℕ) → Action (List WorkspaceFileView)
unfolding require_workspace Repository.list_files file_view
list_files workspace_id user_id = do
  require_workspace workspace_id user_id
  files ← gets (λ db. Repository.list_files workspace_id db.workspace_files)
  pure (map file_view files)

-- `delete_file`
unfoldable pub delete_file : (workspace_id user_id file_id : ℕ) → Action ⊤
unfolding require_workspace Repository.delete_row
delete_file workspace_id user_id file_id = do
  require_workspace workspace_id user_id
  deleted ← Repository.delete_row workspace_id file_id
  raise_if (not deleted) AppError.not_found

-- `owns_workspace`
unfoldable pub owns_workspace : (workspace_id user_id : ℕ) → Action Bool
unfolding Repository.find_workspace
owns_workspace workspace_id user_id s = (
  ok (elim (Repository.find_workspace workspace_id user_id s.current.workspace_projects) [
    | none ↦ false
    | some _ ↦ true
  ]),
  s,
)
