-- ===== src/Website/Links.antt =====
-- What a preview link serves: `get_preview` of src/app/api_gateway/routers/preview.py with the tokens
-- of src/app/website/signed_url.py.
use model_lib.Base.{ℕ, ◌+◌, ◌≡◌, some, arith, leb, if◌then◌else◌}
use model_lib.Base.Text.{Text}
use model_lib.Json.{Runtime}
use model_lib.Tables.{Project, Db}
use model_lib.Codec.{Codec}
use model_lib.Website.Files.{project_by_id}
use model_lib.Website.SignedUrl.{PreviewSettings, SignedPreview, build_token}
use model_lib.Website.Tokens.{IsReadable, built_lem, verify-build}
use model_lib.Website.Preview.{forbidden, serve_file, serve_if, get_preview}

-- Where base64 and int read the token back, the link that is signed for the owner of a stored
-- project serves the files of the project as they are, to whoever has it, exactly until it
-- expires.
pub preview-build :
    (codec : Codec) (py : Runtime) (settings : PreviewSettings) (project : Project) (exp : ℕ)
    (exp_body mac_body : Text) (exp_pad mac_pad now later : ℕ) (signed : SignedPreview)
    (path : Text) (db : Db)
    → IsReadable codec py settings project.id project.user_id exp exp_body mac_body exp_pad mac_pad
    → exp ≡ now + settings.preview_url_ttl_seconds
    → build_token codec py settings project.id project.user_id now ≡ some signed
    → project_by_id project.id db.projects ≡ some project
    → get_preview codec py settings project.id signed.token path later db
      ≡ (if leb later signed.expires_at then serve_file project.id path db else forbidden)
unfolding get_preview serve_if
preview-build codec py settings project exp exp_body mac_body exp_pad mac_pad now later signed path
      db r x h p =
    ground (
      arith,
      verify-build codec py settings project.id project.user_id exp exp_body mac_body exp_pad
          mac_pad now later signed r x h,
      built_lem codec py settings project.id project.user_id exp exp_body mac_body exp_pad mac_pad
          now signed r x h,
    )
