-- ===== src/Paging/Order.antt =====
-- The order of the rows of a listing, and what a cursor leaves of it.
use model_lib.Base.{
  ℕ, zero, suc, ◌≡◌, refl, ap, Bool, true, false, not, some, List, [], ◌∷◌, arith, if◌then◌else◌,
  Bool-cases, inl, inr, All, take, drop,
}
use mathlib.Core.Path.{subst}
use mathlib.Core.List.{Perm}
use mathlib.Core.List.Perm
use model_lib.Paging.{insert_row, order_by, rows_after, last_key}

-- A strict order.
pub record IsOrder {K : Type 0} (before : K → K → Bool) : Type 0 where
  pub trans : (a b c : K) → before a b ≡ true → before b c ≡ true → before a c ≡ true
  pub asym : (a b : K) → before a b ≡ true → before b a ≡ false

module _ {A K : Type 0} (key : A → K) (before : K → K → Bool) where
  -- each row comes before all that follow it
  abbrev pub IsChain : List A → Type 0
  IsChain [] = Unit
  IsChain (x ∷ xs) = All (λ y. before (key x) (key y) ≡ true) xs × IsChain xs

  -- of two rows one comes before the other
  abbrev pub IsDistinct : List A → Type 0
  IsDistinct [] = Unit
  IsDistinct (x ∷ xs) =
      All (λ y. before (key y) (key x) ≡ not (before (key x) (key y))) xs × IsDistinct xs

  All-insert :
      (P : A → Type 0) (x : A) (ys : List A) → P x → All P ys → All P (insert_row key before x ys)
  unfolding insert_row
  All-insert P x [] p h = (p, tt)
  All-insert P x (y ∷ ys) p (h, hs) = ground (arith, All-insert P x ys p hs)

  All-order : (P : A → Type 0) (xs : List A) → All P xs → All P (order_by key before xs)
  unfolding order_by
  All-order P [] h = tt
  All-order P (x ∷ xs) (h, hs) = All-insert P x (order_by key before xs) h (All-order P xs hs)

  insert-Perm : (x : A) (ys : List A) → Perm (insert_row key before x ys) (x ∷ ys)
  unfolding insert_row
  insert-Perm x [] = Perm.refl (x ∷ [])
  insert-Perm x (y ∷ ys) = elim (Bool-cases (before (key x) (key y))) [
    | inl e ↦ rw e (Perm.refl (x ∷ y ∷ ys))
    | inr e ↦ rw e (Perm.trans (Perm.cons y (insert-Perm x ys)) (Perm.swap x y ys))
  ]

  pub order-Perm : (xs : List A) → Perm (order_by key before xs) xs
  unfolding order_by
  order-Perm [] = Perm.refl []
  order-Perm (x ∷ xs) =
      Perm.trans (insert-Perm x (order_by key before xs)) (Perm.cons x (order-Perm xs))

  module _ (o : IsOrder before) where
    All-later :
        (x y : A) (ys : List A)
        → before (key x) (key y) ≡ true
        → All (λ z. before (key y) (key z) ≡ true) ys
        → All (λ z. before (key x) (key z) ≡ true) ys
    All-later x y [] e h = tt
    All-later x y (z ∷ zs) e (h, hs) = (o.trans (key x) (key y) (key z) e h, All-later x y zs e hs)

    insert-IsChain :
        (x : A) (ys : List A)
        → All (λ y. before (key y) (key x) ≡ not (before (key x) (key y))) ys
        → IsChain ys
        → IsChain (insert_row key before x ys)
    unfolding insert_row
    insert-IsChain x [] d c = (tt, tt)
    insert-IsChain x (y ∷ ys) (d, ds) (c, cs) = elim (Bool-cases (before (key x) (key y))) [
      | inl e ↦ rw e ((e, All-later x y ys e c), (c, cs))
      | inr e ↦
          let up : before (key y) (key x) ≡ true = ground arith in
          rw e
            (All-insert (λ z. before (key y) (key z) ≡ true) x ys up c, insert-IsChain x ys ds cs)
    ]

    pub order-IsChain : (xs : List A) → IsDistinct xs → IsChain (order_by key before xs)
    unfolding order_by
    order-IsChain [] d = tt
    order-IsChain (x ∷ xs) (d, ds) =
        insert-IsChain x (order_by key before xs)
          (All-order (λ y. before (key y) (key x) ≡ not (before (key x) (key y))) xs d)
          (order-IsChain xs ds)

    after-insert :
        (c : K) (x : A) (ys : List A)
        → rows_after key before c (insert_row key before x ys) ≡ (
            if before c (key x)
            then insert_row key before x (rows_after key before c ys)
            else rows_after key before c ys)
    unfolding insert_row rows_after
    after-insert c x [] = refl
    after-insert c x (y ∷ ys) = ground (arith, after-insert c x ys, o.trans c (key x) (key y))

    -- the rows of a cursor in order are those behind it in the order of all rows
    pub order-after :
        (c : K) (xs : List A)
        → order_by key before (rows_after key before c xs)
          ≡ rows_after key before c (order_by key before xs)
    unfolding order_by rows_after
    order-after c [] = refl
    order-after c (x ∷ xs) =
        ground (arith, order-after c xs, after-insert c x (order_by key before xs))

    -- a later cursor forgets an earlier one
    pub after-after :
        (c d : K) (xs : List A)
        → before c d ≡ true
        → rows_after key before d (rows_after key before c xs) ≡ rows_after key before d xs
    unfolding rows_after
    after-after c d [] e = refl
    after-after c d (x ∷ xs) e = ground (arith, after-after c d xs e, o.trans c d (key x))

    pub All-after :
        (c : K) (xs : List A) → All (λ y. before c (key y) ≡ true) (rows_after key before c xs)
    unfolding rows_after
    All-after c [] = tt
    All-after c (x ∷ xs) = ground (arith, All-after c xs)

    pub All-last :
        (P : K → Type 0) (n : ℕ) (xs : List A) (d : K)
        → All (λ y. P (key y)) xs
        → last_key key before (take n xs) ≡ some d
        → P d
    unfolding last_key
    All-last P zero xs d h e = absurd (ground arith)
    All-last P (suc n) [] d h e = absurd (ground arith)
    All-last P (suc zero) (x ∷ xs) d (h, hs) e =
        let same : key x ≡ d = ground arith in rw (← same) h
    All-last P (suc (suc n)) (x ∷ []) d (h, hs) e =
        let same : key x ≡ d = ground arith in rw (← same) h
    All-last P (suc (suc n)) (x ∷ y ∷ xs) d (h, hs) e = All-last P (suc n) (y ∷ xs) d hs e

    all_after :
        (c : K) (xs : List A)
        → All (λ y. before c (key y) ≡ true) xs
        → rows_after key before c xs ≡ xs
    unfolding rows_after
    all_after c [] h = refl
    all_after c (x ∷ xs) (h, hs) = rw (h, rows_after) (ap (λ r. x ∷ r) (all_after c xs hs))

    -- behind the last row of a page stand the rows that are not on it
    pub after-last :
        (n : ℕ) (xs : List A) (d : K)
        → IsChain xs
        → last_key key before (take n xs) ≡ some d
        → rows_after key before d xs ≡ drop n xs
    unfolding last_key rows_after
    after-last zero xs d c e = absurd (ground arith)
    after-last (suc n) [] d c e = absurd (ground arith)
    after-last (suc zero) (x ∷ xs) d (c, cs) e =
        let same : key x ≡ d = ground arith in
        subst (λ k. rows_after key before k (x ∷ xs) ≡ xs) same
          (ground (arith, all_after (key x) xs c, o.asym (key x) (key x)))
    after-last (suc (suc n)) (x ∷ []) d (c, cs) e = ground (arith, o.asym (key x) (key x))
    after-last (suc (suc n)) (x ∷ y ∷ xs) d (c, cs) e =
        let later : before (key x) d ≡ true =
          All-last (λ k. before (key x) k ≡ true) (suc n) (y ∷ xs) d c e in
        ground (arith, o.asym (key x) d, after-last (suc n) (y ∷ xs) d cs e)
