-- ===== src/Website/Preview.antt =====
-- `get_preview` of src/app/api_gateway/routers/preview.py: the file of a signed link, without a user's
-- token.
use model_lib.Base.{ℕ, Bool, true, false, Option, none, some}
use model_lib.Base.Text.{Text}
use model_lib.Json.{Runtime}
use model_lib.Tables.{Db}
use model_lib.Website.Files.{FileContent, project_by_id, read_file}
use model_lib.Codec.{Codec}
use model_lib.Website.SignedUrl.{PreviewSettings, verify_token}

pub data Response : Type 0 where
  forbidden not_found : Response
  served : FileContent → Response

unfoldable pub serve_file : (project_id : ℕ) → (path : Text) → Db → Response
unfolding read_file
serve_file project_id path db = elim (read_file project_id path db) [
  | none ↦ not_found
  | some file ↦ served file
]

-- by the answer of `verify_token`
unfoldable pub serve_if : Option Bool → (project_id : ℕ) → (path : Text) → Db → Response
unfolding serve_file
serve_if none project_id path db = forbidden
serve_if (some false) project_id path db = forbidden
serve_if (some true) project_id path db = serve_file project_id path db

-- `get_preview`, at a time in seconds
unfoldable pub get_preview :
    Codec
    → Runtime
    → PreviewSettings
    → (project_id : ℕ) → (token path : Text) → (now : ℕ) → Db
    → Response
unfolding project_by_id verify_token serve_if
get_preview codec py settings project_id token path now db =
    elim (project_by_id project_id db.projects) [
      | none ↦ not_found
      | some project ↦
          serve_if (verify_token codec py settings project_id project.user_id token now) project_id
            path db
    ]
