-- ===== src/Tests/Sites.antt =====
-- A site of one file, the link to it, and the calls of the `site.*` tools on it.
use model_lib.Base.{
  ℕ, zero, suc, ◌≡◌, ◌≤◌, ◌↔◌, ◌⊎◌, take, refl, sym, ap, ◌∙◌, false, none, some, [], ◌∷◌, arith,
  ◌==◌, if◌then◌else◌, leb, length,
}
use model_lib.Base.Int.{pos}
use model_lib.Base.Text.{Text, codes, text_eq, text_mem, decimal}
use model_lib.Base.Split.{has_code}
use model_lib.Codec.{Codec}
use model_lib.Json.{Runtime}
use model_lib.Tables.{Project, SiteFile, Db}
use model_lib.Session.{Session}
use model_lib.Audit.{record_event}
use model_lib.Website.Paths.{normalize_site_path, IsCanonical}
use model_lib.Website.Files.{
  find_file, find_project, project_by_id, Limits, WriteResult, FileContent, write_file, read_file,
  count_files, sum_sizes,
}
use model_lib.Website.SignedUrl.{
  PreviewSettings, SignedPreview, padding, canonical, build_token, verify_token,
}
use model_lib.Website.Canonical.{normalize_site_path_iff, normalize-IsCanonical}
use model_lib.Website.Quota.{IsTidy}
use model_lib.Website.Tools.{SiteSettings, SiteCall, site_write_file, base64, written, execute}
use model_lib.Website.Sites.{execute-IsTidy, execute_elsewhere}
use model_lib.Website.ReadBack.{read-write, write_bounds}
use model_lib.Website.Tokens.{IsForged, IsReadable, verify_binds}
use model_lib.Website.Links.{preview-build}
use model_lib.Website.Preview.{forbidden, serve_file, get_preview}
use model_lib.Tests.Data.{small_db, first_python, first_user, first_chat}

abbrev letters : ℕ → Text
letters zero = []
letters (suc n) = b'a' ∷ letters n

length-letters : (n : ℕ) → length (letters n) ≡ n
length-letters zero = refl
length-letters (suc n) = ap suc (length-letters n)

letters_inj : (m n : ℕ) → letters m ≡ letters n → m ≡ n
letters_inj m n e = sym (length-letters m) ∙ ap length e ∙ length-letters n

letters_no_bar : (n : ℕ) → has_code b'|' (letters n) ≡ false
unfolding has_code
letters_no_bar zero = refl
letters_no_bar (suc n) = letters_no_bar n

abbrev python : Runtime
python = record first_python { uuid_text = letters }

abbrev limits : Limits
limits = record { preview_max_file_bytes = 3; preview_max_project_bytes = 4; preview_max_files = 2 }

abbrev site : Project
site = record { id = 1; user_id = 2; external_project_id = codes "p" }

abbrev css : Text
css = codes "text/css"

abbrev old_file : SiteFile
old_file = record {
  project_id = 5;
  path = codes "b";
  content = 9 ∷ [];
  content_type = css;
  size = 1;
}

abbrev site_db : Db
site_db = record small_db { projects = site ∷ []; site_files = old_file ∷ [] }

abbrev before : Session
before = record { committed = site_db; current = site_db; now = 100000000000000 }

abbrev chat : Session
chat = record before {
  current = record site_db {
    users = λ u. if u == 2 then some first_user else none;
    chat_sessions = λ c. if c == 7 then some first_chat else none;
  };
}

abbrev new_file : SiteFile
new_file = record {
  project_id = 1;
  path = codes "a";
  content = 7 ∷ 8 ∷ [];
  content_type = css;
  size = 2;
}

abbrev written_db : Db
written_db = record site_db { site_files = new_file ∷ old_file ∷ [] }

abbrev after : Session
after = record before { current = written_db }

abbrev result : WriteResult
result = record { path = codes "a"; bytes_written = 2; file_count = 1; project_bytes = 2 }

abbrev new_content : FileContent
new_content = record { path = codes "a"; content = 7 ∷ 8 ∷ []; content_type = css; size = 2 }

normalize_site_path_iff_example :
    (normalize_site_path (codes "a/b") ≡ some (codes "a/b")) ↔ IsCanonical (codes "a/b")
normalize_site_path_iff_example = normalize_site_path_iff (codes "a/b")

read-write_example :
    (normalize_site_path (codes "./a") ≡ some (codes "a"))
    × (read_file 1 (codes "./a") written_db ≡ some new_content)
    × (read_file 1 (codes "a//.") written_db ≡ some new_content)
unfolding write_file read_file text_mem text_eq
read-write_example =
    read-write limits site (codes "./a") (7 ∷ 8 ∷ []) css before result after 1 (codes "a//.") refl

write_bounds_example :
    (2 ≤ 3)
    × (1 ≤ 2)
    × (2 ≤ 4)
    × (1 ≡ count_files 1 written_db.site_files)
    × (2 ≡ sum_sizes 1 written_db.site_files)
unfolding write_file text_mem text_eq
write_bounds_example =
    write_bounds limits site (codes "./a") (7 ∷ 8 ∷ []) css before result after refl

-- an encoding of the two texts of one token, and a digest of at most eight bytes
abbrev codec : Codec
codec = record {
  urlsafe_b64encode = λ content. if text_eq content (codes "7") then codes "EEEE" else codes "MMMM";
  urlsafe_b64decode =
      λ text. some (if text_eq text (codes "EEEE") then codes "7" else codes "a|aa|7");
  b64encode = λ content. content;
  b64decode = λ text. some text;
  hmac_sha256 = λ secret message. take 8 message;
  int_of_text = λ text. some (pos 7);
  encode = λ text. some text;
  decode = λ content. some content;
}

abbrev preview_settings : PreviewSettings
preview_settings = record { preview_url_secret = codes "s"; preview_url_ttl_seconds = 4 }

abbrev site_settings : SiteSettings
site_settings = record {
  limits = limits;
  preview_settings = preview_settings;
  domain = [];
  codec = codec;
  sort_by_path = λ files. files;
}

-- the write as a call of the tool, in a chat of the user
abbrev call : SiteCall
call = site_write_file (codes "./a") (7 ∷ 8 ∷ []) css base64

abbrev called : Session
called = (execute site_settings python 2 (codes "p") 7 call chat).1

before-IsTidy : IsTidy limits before.current.site_files
unfolding count_files sum_sizes find_file normalize_site_path
before-IsTidy = record {
  unique = (refl, tt);
  canonical = (normalize-IsCanonical (codes "b") (codes "b") refl, tt);
  sized = (refl, tt);
  counted = λ q. ground arith;
  bounded = λ q. ground arith;
}

execute-IsTidy_example : IsTidy limits called.current.site_files
unfolding execute record_event
execute-IsTidy_example =
    execute-IsTidy site_settings python 2 (codes "p") 7 call chat called (written result)
      before-IsTidy refl

execute_elsewhere_example :
    read_file 5 (codes "b") called.current ≡ read_file 5 (codes "b") chat.current
unfolding execute record_event find_project
execute_elsewhere_example =
    execute_elsewhere site_settings python 2 (codes "p") 7 call chat called (written result) 5
      (codes "b") before-IsTidy (λ e. omega (arith, e)) refl

abbrev signed : SignedPreview
signed = record { token = codes "EEEE.MMMM"; expires_at = 7 }

token-IsReadable : IsReadable codec python preview_settings 1 2 7 (codes "EEEE") (codes "MMMM") 0 0
unfolding text_eq decimal padding has_code canonical
token-IsReadable = (
  record {
    encoded = refl;
    decoded = refl;
    short = omega arith;
    filled = refl;
    no_padding = refl;
    no_dot = refl;
  },
  record {
    encoded = refl;
    decoded = refl;
    short = omega arith;
    filled = refl;
    no_padding = refl;
    no_dot = refl;
  },
  refl,
)

preview-build_example :
    get_preview codec python preview_settings 1 (codes "EEEE.MMMM") (codes "a") 7 written_db
    ≡ (if leb 7 7 then serve_file 1 (codes "a") written_db else forbidden)
unfolding build_token text_eq project_by_id
preview-build_example =
    preview-build codec python preview_settings site 7 (codes "EEEE") (codes "MMMM") 0 0 3 7 signed
      (codes "a") written_db token-IsReadable refl refl refl

abbrev link_project : ℕ
link_project = 1

abbrev link_owner : ℕ
link_owner = 2

verify_binds_example :
    ((link_project ≡ site.id) × (link_owner ≡ site.user_id))
    ⊎ IsForged codec python preview_settings site.id site.user_id 7
        (codes "EEEE")
        (codes "MMMM")
        0
        0
        link_project
        link_owner
unfolding build_token verify_token text_eq
verify_binds_example =
    verify_binds codec python preview_settings 1 2 7 (codes "EEEE") (codes "MMMM") 0 0 3 7
      link_project link_owner signed token-IsReadable refl refl letters_inj letters_no_bar refl
