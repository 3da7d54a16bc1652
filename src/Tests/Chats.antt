-- ===== src/Tests/Chats.antt =====
-- The list of a user's chats, a chat that is resumed and cut back, and its attachments.
use model_lib.Base.{
  ℕ, suc, ◌≡◌, refl, true, false, none, some, Option, List, [], ◌∷◌, arith, if◌then◌else◌, length,
}
use model_lib.Base.Int.{pos}
use model_lib.Base.Text.{Text, codes, text_eq}
use mathlib.Core.List.{Perm}
use model_lib.Website.SignedUrl.{is_ascii}
use model_lib.Base.Split.{has_code}
use model_lib.Codec.{Codec}
use model_lib.Json.{IsoTime, Runtime}
use model_lib.Tables.{ChatSession, ChatRole, ChatStep, StepPayload, Db}
use model_lib.Session.{Session, ok}
use model_lib.Paging.Walk.{walk}
use model_lib.Paging.Order.{IsChain}
use model_lib.Chats.Cursor.{ChatCursor, raw_cursor, encode_cursor, decode_cursor, decode-encode}
use model_lib.Chats.Listing.{
  ChatRow, ChatFilter, cursor_of, comes_before, chats_of, list_chats, list_chats_complete,
}
use model_lib.Chat.Sessions.{
  NewSession, SessionContext, get_or_create_session, will_create_session,
  truncate_from_message_step,
}
use model_lib.Chat.History.{get_or_create_session_lem, truncate_lem, Truncates}
use model_lib.Tests.Data.{small_db, first_python, first_chat, no_meta}

abbrev pinned_chat : ChatSession
pinned_chat = record first_chat { is_pinned = true }

abbrev rows : List ChatRow
rows =
    (record { id = 7; session = first_chat })
    ∷ (record { id = 8; session = first_chat })
    ∷ (record { id = 9; session = pinned_chat })
    ∷ []

abbrev all_chats : ChatFilter
all_chats = record { user_id = 1; workspace_project_id = none; matches = λ row. true }

list_chats_complete_example :
    (all : List ChatRow) × (walk cursor_of comes_before
        (suc (length all))
        (λ c. list_chats all_chats rows c 2)
        none
      ≡ some all)
    × Perm all (chats_of all_chats rows)
    × IsChain cursor_of comes_before all
list_chats_complete_example =
    list_chats_complete all_chats rows 2 ((refl, (refl, tt)), ((refl, tt), (tt, tt))) (omega arith)

-- the walk itself: two pages, the pinned chat first
walk_two_pages :
    walk cursor_of comes_before 2 (λ c. list_chats all_chats rows c 2) none
    ≡ some (
        (record { id = 9; session = pinned_chat })
        ∷ (record { id = 8; session = first_chat })
        ∷ (record { id = 7; session = first_chat })
        ∷ [])
unfolding walk list_chats
walk_two_pages = refl

abbrev codec : Codec
codec = record {
  urlsafe_b64encode = λ content. content;
  urlsafe_b64decode = λ text. some text;
  b64encode = λ content. content;
  b64decode = λ text. some text;
  hmac_sha256 = λ secret message. message;
  int_of_text = λ text. some (if text_eq text (codes "1") then pos 1 else pos 0);
  encode = λ text. some text;
  decode = λ content. some content;
}

abbrev python : Runtime
python = record first_python { fromisoformat = λ text. some (IsoTime.aware 0) }

abbrev cursor : ChatCursor
cursor = record { is_pinned = true; updated_at = 0; id = 1 }

abbrev isoformat : ℕ → Text
isoformat t = codes "T"

decode-encode_example :
    decode_cursor codec python isoformat (encode_cursor codec python isoformat cursor) ≡ some cursor
unfolding is_ascii raw_cursor text_eq has_code
decode-encode_example = decode-encode codec python isoformat cursor (record {
  ascii = refl;
  base64 = refl;
  utf8 = refl;
  zero_text = refl;
  one_text = refl;
  time = refl;
  time_no_bar = refl;
  uuid = refl;
})

abbrev step : ChatStep
step = record {
  id = 1;
  session_id = 7;
  message_step_id = 4;
  role = ChatRole.user;
  seq = 1;
  payload = StepPayload.content no_meta;
  usage = no_meta;
}

abbrev answer : ChatStep
answer = record step { id = 2; role = ChatRole.assistant; seq = 2 }

abbrev chat_db : Db
chat_db = record small_db { chat_steps = answer ∷ step ∷ [] }

abbrev chat : Session
chat = record { committed = chat_db; current = chat_db; now = 5 }

abbrev fields : NewSession
fields = record {
  project_id = none;
  mode = codes "credits";
  assistant_mode = codes "chat";
  dialog_mode = codes "smart";
  title = none;
  model = none;
  workspace_project_id = none;
}

abbrev context : SessionContext
context = record { id = 7; session = first_chat; is_new = false }

get_or_create_session_lem_example :
    (false ≡ will_create_session 100 1 5 (some 7) chat_db)
    × (first_chat.user_id ≡ 1)
    × (chat_db.chat_sessions 7 ≡ some first_chat)
    × (false ≡ false → (◌≡◌ {A = Option ℕ} (some 7) (some 7)) × (chat ≡ chat))
unfolding get_or_create_session
get_or_create_session_lem_example =
    get_or_create_session_lem 100 1 (some 7) fields chat chat context refl

truncate_lem_example : Truncates 7 4 chat (truncate_from_message_step 7 4 chat)
truncate_lem_example = truncate_lem 7 4 chat

truncated_all : (truncate_from_message_step 7 4 chat).0 ≡ ok (some 2)
unfolding truncate_from_message_step
truncated_all = refl
