-- ===== src/Paging/Walk.antt =====
-- A client that follows the cursors from the first page to the last.
use model_lib.Base.{
  ℕ, zero, suc, ◌+◌, ◌≤◌, ◌<◌, ◌≡◌, refl, sym, ap, ◌∙◌, Bool, true, Option, none, some, List, [],
  ◌∷◌, ◌++◌, arith, ltb, Bool-cases, inl, inr, All, length, take, drop,
}
use mathlib.Core.Path.{subst}
use mathlib.Core.List.{Perm}
use model_lib.Paging.{order_by, rows_after, from_cursor, last_key, Page, cut_page, list_page}
use model_lib.Paging.Order.{
  IsOrder, IsChain, IsDistinct, order-IsChain, order-Perm, order-after, after-after, All-after,
  All-last, after-last,
}

module _ {A K : Type 0} (key : A → K) (before : K → K → Bool) where
  -- the items of a page before those of the rest
  abbrev prepend : List A → Option (List A) → Option (List A)
  prepend items none = none
  prepend items (some rest) = some (items ++ rest)

  -- the pages from a cursor on, one request after the other; `none` if there are more than `fuel`
  unfoldable pub walk : (fuel : ℕ) → (Option K → Page key before) → Option K → Option (List A)
  walk zero request cursor = none
  walk (suc fuel) request cursor = elim (request cursor).next_cursor [
    | none ↦ some (request cursor).items
    | some c ↦ prepend (request cursor).items (walk fuel request (some c))
  ]

take-take : (n : ℕ) {A : Type 0} (xs : List A) → take n (take (suc n) xs) ≡ take n xs
take-take zero xs = refl
take-take (suc n) [] = refl
take-take (suc n) (x ∷ xs) = ap (λ r. x ∷ r) (take-take n xs)

more_lem : (n : ℕ) {A : Type 0} (xs : List A) → ltb n (length (take (suc n) xs)) ≡ ltb n (length xs)
more_lem zero [] = refl
more_lem zero (x ∷ xs) = ground arith
more_lem (suc n) [] = refl
more_lem (suc n) (x ∷ xs) = ground (arith, more_lem n xs)

take_all : (n : ℕ) {A : Type 0} (xs : List A) → length xs ≤ n → take n xs ≡ xs
take_all zero [] h = refl
take_all zero (x ∷ xs) h = absurd (omega arith)
take_all (suc n) [] h = refl
take_all (suc n) (x ∷ xs) h = ap (λ r. x ∷ r) (take_all n xs (omega arith))

take-drop : (n : ℕ) {A : Type 0} (xs : List A) → take n xs ++ drop n xs ≡ xs
take-drop zero xs = refl
take-drop (suc n) [] = refl
take-drop (suc n) (x ∷ xs) = ap (λ r. x ∷ r) (take-drop n xs)

length-drop :
    (n : ℕ) {A : Type 0} (xs : List A) → n < length xs → length (drop n xs) + n ≡ length xs
length-drop zero xs h = omega arith
length-drop (suc n) [] h = absurd (omega arith)
length-drop (suc n) (x ∷ xs) h = omega (arith, length-drop n xs (omega arith))

module _ {A K : Type 0} (key : A → K) (before : K → K → Bool) where
  last_there :
      (n : ℕ) (xs : List A)
      → n < length xs
      → 0 < n
      → (c : K) × (last_key key before (take n xs) ≡ some c)
  unfolding last_key
  last_there zero xs h k = absurd (omega arith)
  last_there (suc n) [] h k = absurd (omega arith)
  last_there (suc zero) (x ∷ xs) h k = (key x, refl)
  last_there (suc (suc n)) (x ∷ []) h k = absurd (omega arith)
  last_there (suc (suc n)) (x ∷ y ∷ xs) h k =
      last_there (suc n) (y ∷ xs) (omega arith) (omega arith)

  module _ (o : IsOrder before) (rows : List A) (d : IsDistinct key before rows) where
    abbrev sorted : List A
    sorted = order_by key before rows

    -- what stands behind a cursor, in order
    abbrev behind : Option K → List A
    behind cursor = order_by key before (from_cursor key before cursor rows)

    behind_cursor : (c : K) → behind (some c) ≡ rows_after key before c sorted
    unfolding from_cursor
    behind_cursor c = order-after key before o c rows

    after-IsChain :
        (c : K) (xs : List A)
        → IsChain key before xs
        → IsChain key before (rows_after key before c xs)
    unfolding rows_after
    after-IsChain c [] h = tt
    after-IsChain c (x ∷ xs) (h, hs) = elim (Bool-cases (before c (key x))) [
      | inl e ↦ rw e (All-keep c (λ y. before (key x) (key y) ≡ true) xs h, after-IsChain c xs hs)
      | inr e ↦ rw e (after-IsChain c xs hs)
    ]
      where
        All-keep :
            (c : K) (P : A → Type 0) (ys : List A) → All P ys → All P (rows_after key before c ys)
        All-keep c P [] h = tt
        All-keep c P (y ∷ ys) (p, ps) = ground (arith, All-keep c P ys ps)

    behind-IsChain : (cursor : Option K) → IsChain key before (behind cursor)
    unfolding from_cursor
    behind-IsChain none = order-IsChain key before o rows d
    behind-IsChain (some c) =
        subst (IsChain key before) (sym (behind_cursor c))
          (after-IsChain c sorted (order-IsChain key before o rows d))

    -- a page of the rows behind a cursor leads to the rows behind it
    next_behind :
        (cursor : Option K) (n : ℕ) (c : K)
        → last_key key before (take n (behind cursor)) ≡ some c
        → behind (some c) ≡ drop n (behind cursor)
    unfolding from_cursor
    next_behind none n c e =
        behind_cursor c ∙ after-last key before o n sorted c (behind-IsChain none) e
    next_behind (some b) n c e =
        let later : before b c ≡ true =
          All-last key before o (λ k. before b k ≡ true) n (behind (some b)) c
            (subst (All (λ y. before b (key y) ≡ true)) (sym (behind_cursor b))
              (All-after key before o b sorted))
            e in
        behind_cursor c
        ∙ sym (after-after key before o b c sorted later)
        ∙ ap (rows_after key before c) (sym (behind_cursor b))
        ∙ after-last key before o n (behind (some b)) c (behind-IsChain (some b)) e

    walk-behind :
        (fuel limit : ℕ) (cursor : Option K)
        → 0 < limit
        → length (behind cursor) < fuel
        → walk key before fuel (λ c. list_page key before rows c limit) cursor
          ≡ some (behind cursor)
    unfolding walk list_page cut_page
    walk-behind zero limit cursor l f = absurd (omega arith)
    walk-behind (suc fuel) limit cursor l f =
        elim (Bool-cases (ltb limit (length (behind cursor)))) [
          | inr stop ↦ ground (
            arith,
            more_lem limit (behind cursor),
            take-take limit (behind cursor),
            take_all limit (behind cursor),
          )
          | inl more ↦
              let (c, e) = last_there limit (behind cursor) (ground arith) l in
              let tail = next_behind cursor limit c e in
              let shorter = length-drop limit (behind cursor) (ground arith) in
              let rest : walk key before fuel (λ c. list_page key before rows c limit) (some c)
                  ≡ some (behind (some c)) =
                walk-behind fuel limit (some c) l (ground (arith, ap length tail)) in
              ground (
                arith,
                more_lem limit (behind cursor),
                take-take limit (behind cursor),
                take-drop limit (behind cursor),
              )
        ]

    -- Whoever follows the cursors gets the rows of the listing, each exactly once and in order,
    -- and is done after at most as many pages as there are rows and one more.
    pub walk_lem :
        (limit : ℕ)
        → 0 < limit
        → (all : List A) × (walk key before
              (suc (length all))
              (λ c. list_page key before rows c limit)
              none
            ≡ some all)
          × Perm all rows
          × IsChain key before all
    unfolding from_cursor
    walk_lem limit l = (
      sorted,
      walk-behind (suc (length sorted)) limit none l (omega arith),
      order-Perm key before rows,
      order-IsChain key before o rows d,
    )
