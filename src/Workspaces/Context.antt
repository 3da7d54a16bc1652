-- ===== src/Workspaces/Context.antt =====
-- `context_for_session` of src/app/workspaces/service.py: the instructions and the knowledge files
-- that the model is shown, the texts up to a number of characters.
use model_lib.Base.{
  ℕ, zero, suc, ◌+◌, ◌-◌, ◌≤◌, ◌≡◌, refl, sym, ap, ◌∙◌, Bool, true, Option, none, some, List, [],
  ◌∷◌, ◌++◌, arith, leb, if◌then◌else◌, length, take, map,
}
use model_lib.Base.Text.{Text, codes, text_mem, is_empty}
use model_lib.Codec.{Codec}
use model_lib.Tables.{WorkspaceFile, Db}
use model_lib.Chat.Attachments.{
  Provider, anthropic, openai, ContentBlock, image_block, text_block, input_image, input_text,
  PreparedAttachments, data_uri, allowed_types, AttachmentType,
}
use model_lib.Workspaces.Repository.{find_workspace, list_files}

-- what is shown of a file: the whole image, or a text cut to what is left
pub data Shown : Type 0 where
  shown_image : WorkspaceFile → Shown
  shown_text : (filename snippet : Text) → Shown

unfoldable pub is_image : WorkspaceFile → Bool
unfolding text_mem allowed_types
is_image f = text_mem f.media_type (allowed_types AttachmentType.image)

-- `f.extracted_text`, where it is not empty
unfoldable pub text_of : WorkspaceFile → Text
text_of f = elim f.extracted_text [ none ↦ [] | some t ↦ t ]

-- the loop over the files, with the characters used so far
unfoldable pub show_files : (max_chars used : ℕ) → List WorkspaceFile → List Shown
unfolding is_image text_of is_empty
show_files max_chars used [] = []
show_files max_chars used (f ∷ files) =
    let snippet = take (max_chars - used) (text_of f) in
    let skipped = show_files max_chars used files in
    let shown =
      shown_text f.filename snippet ∷ show_files max_chars (used + length snippet) files in
    if is_image f
    then shown_image f ∷ skipped
    else if is_empty (text_of f)
    then skipped
    else if leb max_chars used
    then skipped
    else shown

-- `_image_block`, and the label of a text
unfoldable pub block_of : Codec → Provider → Shown → ContentBlock
unfolding data_uri
block_of codec openai (shown_image f) =
    input_image (data_uri f.media_type (codec.b64encode f.content))
block_of codec anthropic (shown_image f) = image_block f.media_type (codec.b64encode f.content)
block_of codec openai (shown_text filename snippet) =
    input_text (codes "[Файл проекта: " ++ (filename ++ (codes "]\n" ++ snippet)))
block_of codec anthropic (shown_text filename snippet) =
    text_block (codes "[Файл проекта: " ++ (filename ++ (codes "]\n" ++ snippet)))

abbrev pub none_if_empty : List ContentBlock → Option PreparedAttachments
none_if_empty [] = none
none_if_empty (b ∷ blocks) = some (record { content_blocks = b ∷ blocks; placeholders = [] })

-- `_build_file_attachments`
unfoldable pub build_file_attachments :
    Codec → (max_chars : ℕ) → List WorkspaceFile → Provider → Option PreparedAttachments
unfolding show_files block_of
build_file_attachments codec max_chars files provider =
    none_if_empty (map (block_of codec provider) (show_files max_chars 0 files))

pub record WorkspaceContext : Type 0 where
  pub instructions : Option Text
  pub attachments : Option PreparedAttachments

-- `workspace.instructions or None`
unfoldable pub instructions_or_none : Option Text → Option Text
unfolding is_empty
instructions_or_none none = none
instructions_or_none (some t) = if is_empty t then none else some t

-- `context_for_session`
unfoldable pub context_for_session :
    Codec → (max_chars workspace_id user_id : ℕ) → Provider → Db → Option WorkspaceContext
unfolding find_workspace list_files build_file_attachments instructions_or_none
context_for_session codec max_chars workspace_id user_id provider db =
    elim (find_workspace workspace_id user_id db.workspace_projects) [
      | none ↦ none
      | some workspace ↦ some (record {
        instructions = instructions_or_none workspace.instructions;
        attachments =
            build_file_attachments codec max_chars (list_files workspace_id db.workspace_files)
              provider;
      })
    ]

-- the texts that are shown, one after the other
abbrev pub snippets : List Shown → Text
snippets [] = []
snippets (shown_image f ∷ shown) = snippets shown
snippets (shown_text filename snippet ∷ shown) = snippet ++ snippets shown

-- the texts of all files but the images
unfoldable pub all_texts : List WorkspaceFile → Text
unfolding is_image text_of
all_texts [] = []
all_texts (f ∷ files) = let rest = all_texts files in if is_image f then rest else text_of f ++ rest

take-nil : (n : ℕ) → take {A = ℕ} n [] ≡ []
take-nil zero = refl
take-nil (suc n) = refl

take-append : (n : ℕ) (s t : Text) → take n (s ++ t) ≡ take n s ++ take (n - length (take n s)) t
take-append zero s t = refl
take-append (suc n) [] t = let same : suc n ≡ suc n - 0 = omega arith in ap (λ k. take k t) same
take-append (suc n) (c ∷ s) t =
    let same : suc n - suc (length (take n s)) ≡ n - length (take n s) = omega arith in
    rw same (ap (λ r. c ∷ r) (take-append n s t))

snippets_full :
    (max_chars used : ℕ) (files : List WorkspaceFile)
    → max_chars ≤ used
    → snippets (show_files max_chars used files) ≡ []
unfolding show_files
snippets_full max_chars used [] h = refl
snippets_full max_chars used (f ∷ files) h = ground (arith, snippets_full max_chars used files h)

is_empty_lem : (t : Text) → is_empty t ≡ true → t ≡ []
unfolding is_empty
is_empty_lem [] h = refl
is_empty_lem (c ∷ t) h = absurd (ground arith)

snippets_lem :
    (max_chars used : ℕ) (files : List WorkspaceFile)
    → snippets (show_files max_chars used files) ≡ take (max_chars - used) (all_texts files)
unfolding show_files all_texts
snippets_lem max_chars used [] = sym (take-nil (max_chars - used))
snippets_lem max_chars used (f ∷ files) = ground (
  arith,
  snippets_lem max_chars used files,
  snippets_lem max_chars (used + length (take (max_chars - used) (text_of f))) files,
  take-append (max_chars - used) (text_of f) (all_texts files),
  snippets_full max_chars used files,
  is_empty_lem (text_of f),
)

-- The texts that the model is shown of a workspace are together the first characters, as many as
-- the setting allows, of the texts of its files in their order.
pub show_files_lem :
    (max_chars : ℕ) (files : List WorkspaceFile)
    → snippets (show_files max_chars 0 files) ≡ take max_chars (all_texts files)
show_files_lem max_chars files =
    let same : max_chars - 0 ≡ max_chars = omega arith in
    snippets_lem max_chars 0 files ∙ ap (λ n. take n (all_texts files)) same
