-- ===== src/Chats/Listing.antt =====
-- `list_chats` of src/app/chats/repository.py: a user's chats, pinned first, then by recency. The
-- rows of chat_sessions are a list here, each with its id, and the text search (ILIKE on the title
-- and the first message) is an argument.
use model_lib.Base.{
  ℕ, ◌<◌, ◌≡◌, Bool, true, false, not, ◌&&◌, ◌||◌, Option, none, some, List, [], ◌∷◌, arith, ltb,
  ◌==◌, if◌then◌else◌, All, length, suc,
}
use mathlib.Core.List.{Perm}
use model_lib.Tables.{ChatSession}
use model_lib.Paging.{Page, list_page}
use model_lib.Paging.Order.{IsOrder, IsDistinct, IsChain}
use model_lib.Paging.Walk.{walk, walk_lem}
use model_lib.Chats.Cursor.{ChatCursor}

pub record ChatRow : Type 0 where
  pub id : ℕ
  pub session : ChatSession

-- the cursor of a row
abbrev pub cursor_of : ChatRow → ChatCursor
cursor_of row = record {
  is_pinned = row.session.is_pinned;
  updated_at = row.session.updated_at;
  id = row.id;
}

-- `int(is_pinned)`
abbrev pub pinned_ord : Bool → ℕ
pinned_ord true = 1
pinned_ord false = 0

-- (is_pinned DESC, updated_at DESC, id DESC)
unfoldable pub comes_before : ChatCursor → ChatCursor → Bool
comes_before a b =
    ltb (pinned_ord b.is_pinned) (pinned_ord a.is_pinned)
    || ((pinned_ord b.is_pinned == pinned_ord a.is_pinned) && ltb b.updated_at a.updated_at)
    || ((pinned_ord b.is_pinned == pinned_ord a.is_pinned)
        && (b.updated_at == a.updated_at)
        && ltb b.id a.id)

pub record ChatFilter : Type 0 where
  pub user_id : ℕ
  pub workspace_project_id : Option ℕ
  pub matches : ChatRow → Bool

-- `workspace_project_id = :id`; NULL is equal to nothing
unfoldable pub in_workspace : Option ℕ → Option ℕ → Bool
in_workspace none bound = true
in_workspace (some w) none = false
in_workspace (some w) (some v) = v == w

unfoldable pub is_listed : ChatFilter → ChatRow → Bool
unfolding in_workspace
is_listed filter row =
    (row.session.user_id == filter.user_id)
    && in_workspace filter.workspace_project_id row.session.workspace_project_id
    && filter.matches row

-- the rows of the WHERE clause without the cursor
unfoldable pub chats_of : ChatFilter → List ChatRow → List ChatRow
unfolding is_listed
chats_of filter [] = []
chats_of filter (row ∷ rows) =
    let rest = chats_of filter rows in if is_listed filter row then row ∷ rest else rest

-- `list_chats`
unfoldable pub list_chats :
    ChatFilter → List ChatRow → Option ChatCursor → (limit : ℕ) → Page cursor_of comes_before
unfolding list_page chats_of comes_before
list_chats filter rows cursor limit =
    list_page cursor_of comes_before (chats_of filter rows) cursor limit

module _ (a b c : ChatCursor) where
  before_trans : comes_before a b ≡ true → comes_before b c ≡ true → comes_before a c ≡ true
  unfolding comes_before
  before_trans h k = ground arith

before_asym : (a b : ChatCursor) → comes_before a b ≡ true → comes_before b a ≡ false
unfolding comes_before
before_asym a b h = ground arith

before-IsOrder : IsOrder comes_before
before-IsOrder = record { trans = before_trans; asym = before_asym }

-- PRIMARY KEY (id)
abbrev pub HasOwnIds : List ChatRow → Type 0
HasOwnIds [] = Unit
HasOwnIds (row ∷ rows) = All (λ r. (r.id == row.id) ≡ false) rows × HasOwnIds rows

total_lem : (a b : ChatCursor) → (b.id == a.id) ≡ false → comes_before b a ≡ not (comes_before a b)
unfolding comes_before
total_lem a b h = ground arith

module _ (filter : ChatFilter) where
  All-chats :
      (x : ChatRow) (rows : List ChatRow)
      → All (λ r. (r.id == x.id) ≡ false) rows
      → All
          (λ r.
            comes_before (cursor_of r) (cursor_of x)
            ≡ not (comes_before (cursor_of x) (cursor_of r)))
          (chats_of filter rows)
  unfolding chats_of
  All-chats x [] h = tt
  All-chats x (r ∷ rows) (h, hs) =
      ground (arith, All-chats x rows hs, total_lem (cursor_of x) (cursor_of r) h)

  chats-IsDistinct :
      (rows : List ChatRow)
      → HasOwnIds rows
      → IsDistinct cursor_of comes_before (chats_of filter rows)
  unfolding chats_of
  chats-IsDistinct [] h = tt
  chats-IsDistinct (row ∷ rows) (h, hs) =
      ground (arith, chats-IsDistinct rows hs, All-chats row rows h)

-- Over rows that have ids of their own and do not change meanwhile, whoever follows the cursors
-- of the list gets the chats of the filter, each exactly once, pinned ones first and then by
-- recency, and is done after at most as many pages as there are chats and one more, whatever the
-- limit above zero.
pub list_chats_complete :
    (filter : ChatFilter) (rows : List ChatRow) (limit : ℕ)
    → HasOwnIds rows
    → 0 < limit
    → (all : List ChatRow) × (walk cursor_of comes_before
          (suc (length all))
          (λ c. list_chats filter rows c limit)
          none
        ≡ some all)
      × Perm all (chats_of filter rows)
      × IsChain cursor_of comes_before all
unfolding list_chats
list_chats_complete filter rows limit h l =
    walk_lem cursor_of comes_before before-IsOrder (chats_of filter rows)
      (chats-IsDistinct filter rows h) limit l
