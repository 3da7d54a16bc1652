-- ===== src/Tests/Secrets.antt =====
-- What the redaction of logs and audit rows hides.
use model_lib.Base.{◌≡◌, refl, [], inl, inr}
use mathlib.Core.List.Memᴰ
use model_lib.Base.Text.{Text, codes, ends_with, lower}
use model_lib.Json.{Json}
use model_lib.Json.{nil, cons, end, field}
use model_lib.Redaction.{redact}
use model_lib.Redaction.Keys.{IsSecret}
use model_lib.Redaction.Secrecy.{
  Alike, AlikeFields, AlikeItems, AlikeAttachments, AlikeFiles, AlikeFile, redact_secrecy,
}

key-IsSecret : IsSecret "modelKey"
unfolding ends_with lower
key-IsSecret = (refl, inr (codes "key", Memᴰ.head refl, (codes "model", [], refl)))

transaction-IsSecret : IsSecret "Transaction"
unfolding ends_with lower
transaction-IsSecret = (refl, inl (Memᴰ.tail (Memᴰ.head refl)))

-- a request with an API key, a transaction among the items of its attachments, and a file
abbrev payload : (key transaction content : Text) → Json
payload key transaction content = Json.obj (
    field "modelKey" (Json.str key) (
      field "attachments"
        (Json.arr (
          cons (Json.arr (cons (Json.obj (field "Transaction" (Json.str transaction) end)) nil))
            (cons (Json.obj (field "data" (Json.str content) end)) nil)))
        (field "keyStatus" (Json.str (codes "valid")) end)))

redact_secrecy_example :
    redact (payload (codes "sk-1") (codes "t1") (codes "AA"))
    ≡ redact (payload (codes "sk-2") (codes "t2") (codes "BB"))
unfolding lower
redact_secrecy_example = redact_secrecy (
    Alike.obj (
      AlikeFields.secret key-IsSecret (
        AlikeFields.attachments refl
          (AlikeAttachments.files (
            AlikeFiles.nested
              (AlikeItems.item
                (Alike.obj (AlikeFields.secret transaction-IsSecret AlikeFields.last))
                AlikeItems.none_left)
              (AlikeFiles.file (AlikeFile.content refl AlikeFile.file_end) AlikeFiles.no_file)))
          (AlikeFields.equal AlikeFields.last))))
