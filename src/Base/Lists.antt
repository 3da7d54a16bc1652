-- ===== src/Base/Lists.antt =====
-- Lists measured by native numbers, lists under a predicate, and functions as finite maps.
use Prim.Native.Nat.{ℕ, zero, suc}
use mathlib.Core.List.{List, [], ◌∷◌}
use mathlib.Core.Option.{Option, some}
use model_lib.Base.Tests.{◌==◌, if◌then◌else◌}

module _ {ℓ} {A : Type ℓ} where
  abbrev pub length : List A → ℕ
  length [] = 0
  length (x ∷ xs) = suc (length xs)

  abbrev pub take : ℕ → List A → List A
  take zero xs = []
  take (suc n) [] = []
  take (suc n) (x ∷ xs) = x ∷ take n xs

  abbrev pub drop : ℕ → List A → List A
  drop zero xs = xs
  drop (suc n) [] = []
  drop (suc n) (x ∷ xs) = drop n xs

abbrev pub All {ℓ κ} : {A : Type ℓ} → (A → Type κ) → List A → Type κ
All P [] = Unit
All P (x ∷ xs) = P x × All P xs

-- A table keyed by a number: the row of a key, if there is one.
abbrev pub Table {ℓ} : Type ℓ → Type ℓ
Table V = ℕ → Option V

abbrev pub put {ℓ} : {V : Type ℓ} → Table V → ℕ → V → Table V
put t k v j = if j == k then some v else t j
