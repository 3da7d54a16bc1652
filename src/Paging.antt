-- ===== src/Paging.antt =====
-- Keyset pagination as `ChatsRepository.list_chats` (src/app/chats/repository.py),
-- `WorkspacesRepository.list_workspaces` (src/app/workspaces/repository.py) and the images list
-- (src/app/api_gateway/routers/images.py) do it: rows strictly after the cursor, in order, one more
-- than the limit. The order of the keys is an argument.
pub mod Order
pub mod Walk
use model_lib.Base.{
  ℕ, suc, Bool, Option, none, some, List, [], ◌∷◌, ltb, if◌then◌else◌, length, take,
}

module _ {A K : Type 0} (key : A → K) (before : K → K → Bool) where
  -- ORDER BY
  unfoldable pub insert_row : A → List A → List A
  insert_row x [] = x ∷ []
  insert_row x (y ∷ ys) =
      let rest = insert_row x ys in if before (key x) (key y) then x ∷ y ∷ ys else y ∷ rest

  unfoldable pub order_by : List A → List A
  unfolding insert_row
  order_by [] = []
  order_by (x ∷ xs) = insert_row x (order_by xs)

  -- the WHERE clause of a cursor
  unfoldable pub rows_after : K → List A → List A
  rows_after c [] = []
  rows_after c (x ∷ xs) = let rest = rows_after c xs in if before c (key x) then x ∷ rest else rest

  unfoldable pub from_cursor : Option K → List A → List A
  unfolding rows_after
  from_cursor none rows = rows
  from_cursor (some c) rows = rows_after c rows

  unfoldable pub last_key : List A → Option K
  last_key [] = none
  last_key (x ∷ []) = some (key x)
  last_key (x ∷ y ∷ ys) = last_key (y ∷ ys)

  pub record Page : Type 0 where
    pub items : List A
    pub next_cursor : Option K

  -- the page of the rows that were fetched
  unfoldable pub cut_page : (limit : ℕ) → List A → Page
  unfolding last_key
  cut_page limit fetched = record {
    items = take limit fetched;
    next_cursor = if ltb limit (length fetched) then last_key (take limit fetched) else none;
  }

  -- one request
  unfoldable pub list_page : List A → Option K → (limit : ℕ) → Page
  unfolding cut_page order_by from_cursor
  list_page rows cursor limit =
      cut_page limit (take (suc limit) (order_by (from_cursor cursor rows)))
