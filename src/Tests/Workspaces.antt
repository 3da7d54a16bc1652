-- ===== src/Tests/Workspaces.antt =====
-- A workspace with its first file, and attachments of a message.
use model_lib.Base.{
  ℕ, ◌+◌, ◌≤◌, ◌≡◌, ◌≢◌, refl, true, none, some, List, [], ◌∷◌, arith, if◌then◌else◌, length, take,
  Bool-cases, inl, inr,
}
use model_lib.Base.Text.{Text, codes, text_eq, text_eq_iff, text_mem, strip}
use model_lib.Codec.{Codec}
use model_lib.Tables.{WorkspaceProject, WorkspaceFile, Db}
use model_lib.Session.{Session}
use model_lib.Chat.Attachments.{
  Attachment, AttachmentType, AttachmentSettings, Pdf, Provider, ContentBlock, PreparedAttachments,
  prepare_attachments, max_bytes_for, count_padding,
}
use model_lib.Chat.Attachments.Sizes.{IsStrict, size_of, sum_of, prepare_bounds}
use model_lib.Workspaces.Repository.{find_workspace, file_count, total_bytes}
use model_lib.Workspaces.Service.{UploadRequest, WorkspaceSettings, WorkspaceFileView, upload_file}
use model_lib.Workspaces.Limits.{upload_bounds}
use model_lib.Workspaces.Context.{snippets, show_files, all_texts, show_files_lem}
use model_lib.Tests.Data.{small_db, first_python}

-- an encoding of one text
abbrev codec : Codec
codec = record {
  urlsafe_b64encode = λ content. content;
  urlsafe_b64decode = λ text. some text;
  b64encode = λ content. codes "QUI=";
  b64decode = λ text. if text_eq text (codes "QUI=") then some (codes "AB") else none;
  hmac_sha256 = λ secret message. message;
  int_of_text = λ text. none;
  encode = λ text. some text;
  decode = λ content. some content;
}

only_text :
    (t : Text) (bytes : List ℕ)
    → codec.b64decode t ≡ some bytes
    → (t ≡ codes "QUI=") × (bytes ≡ codes "AB")
only_text t bytes h = elim (Bool-cases (text_eq t (codes "QUI="))) [
  | inl e ↦ ((text_eq_iff t (codes "QUI=")).0 e, ground arith)
  | inr e ↦ absurd (ground arith)
]

codec-IsStrict : IsStrict codec
unfolding strip count_padding
codec-IsStrict = record {
  bare = λ t bytes h. let (e, f) = only_text t bytes h in rw e refl;
  sized = λ t bytes h. let (e, f) = only_text t bytes h in rw (e, f) refl;
}

abbrev attachment_settings : AttachmentSettings
attachment_settings = record {
  attachment_max_count = 1;
  attachment_max_bytes_image = 2;
  attachment_max_bytes_document = 2;
  attachment_total_bytes = 2;
  attachment_pdf_max_pages = 1;
  codec = codec;
  read_pdf = λ bytes. Pdf.pages 1;
}

abbrev note : Attachment
note = record {
  type = AttachmentType.text;
  media_type = codes "text/csv";
  content = codes "QUI=";
  filename = none;
}

abbrev prepared : PreparedAttachments
prepared = record {
  content_blocks = ContentBlock.text_block (codes "file\n```\nAB\n```") ∷ [];
  placeholders =
      codes "[attachment: text/csv \"file\", 2B — отправлено в первом обращении к модели]" ∷ [];
}

prepare_bounds_example :
    (1 ≤ 1)
    × ((size_of codec note ≤ max_bytes_for note.type attachment_settings) × Unit {0})
    × (sum_of codec (note ∷ []) ≤ 2)
    × (length prepared.content_blocks ≡ 1)
    × (length prepared.placeholders ≡ 1)
unfolding prepare_attachments
prepare_bounds_example =
    prepare_bounds attachment_settings first_python Provider.anthropic codec-IsStrict (note ∷ [])
      prepared refl

abbrev workspace : WorkspaceProject
workspace = record {
  id = 3;
  user_id = 2;
  name = codes "w";
  description = none;
  instructions = none;
  updated_at = 0;
}

abbrev workspace_db : Db
workspace_db = record small_db { workspace_projects = workspace ∷ []; next_id = 9 }

abbrev before : Session
before = record { committed = workspace_db; current = workspace_db; now = 5 }

abbrev workspace_settings : WorkspaceSettings
workspace_settings = record {
  workspace_file_max_count = 1;
  workspace_file_max_bytes = 2;
  workspace_files_total_bytes = 2;
  attachments = attachment_settings;
  pages_of = λ bytes. none;
}

abbrev upload : UploadRequest
upload = record {
  type = AttachmentType.text;
  media_type = codes "text/csv";
  filename = codes "a";
  content = codes "QUI=";
}

abbrev new_file : WorkspaceFile
new_file = record {
  id = 9;
  workspace_project_id = 3;
  filename = codes "a";
  content = codes "AB";
  media_type = codes "text/csv";
  size = 2;
  extracted_text = some (codes "AB");
  created_at = 5;
}

abbrev after_db : Db
after_db = record workspace_db { workspace_files = new_file ∷ []; next_id = 10 }

abbrev after : Session
after = record { committed = after_db; current = after_db; now = 5 }

abbrev view : WorkspaceFileView
view = record {
  file_id = 9;
  filename = codes "a";
  media_type = codes "text/csv";
  size = 2;
  has_extracted_text = true;
  created_at = 5;
}

upload_bounds_example :
    (find_workspace 3 2 workspace_db.workspace_projects ≢ none)
    × (2 ≤ 2)
    × (file_count 3 after_db.workspace_files ≡ file_count 3 workspace_db.workspace_files + 1)
    × (total_bytes 3 after_db.workspace_files ≡ total_bytes 3 workspace_db.workspace_files + 2)
    × (file_count 3 after_db.workspace_files ≤ 1)
    × (total_bytes 3 after_db.workspace_files ≤ 2)
unfolding upload_file text_mem text_eq
upload_bounds_example =
    upload_bounds workspace_settings first_python upload 3 2 before after view refl

show_files_lem_example :
    snippets (show_files 3 0 (new_file ∷ new_file ∷ []))
    ≡ take 3 (all_texts (new_file ∷ new_file ∷ []))
show_files_lem_example = show_files_lem 3 (new_file ∷ new_file ∷ [])
