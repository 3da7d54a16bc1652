-- ===== src/Base/Split.antt =====
-- `str.split` at one character, `str.join`, and what each keeps of the other.
use Prim.Native.Nat.{ℕ}
use mathlib.Core.Path.{◌≡◌, refl, ap}
use mathlib.Core.Logic.{◌≢◌}
use mathlib.Core.Bool.{Bool, false, ◌||◌}
use mathlib.Core.List.{List, [], ◌∷◌, ◌++◌}
use native.Mathlib.Omega.{arith}
use model_lib.Base.Tests.{◌==◌, ==_iff, if◌then◌else◌}
use model_lib.Base.Lists.{All}
use model_lib.Base.Text.{Text}

-- `c in s`
unfoldable pub has_code : ℕ → Text → Bool
has_code c [] = false
has_code c (a ∷ s) = (a == c) || has_code c s

-- the character before the first part
unfoldable pub grow : ℕ → List Text → List Text
grow c [] = (c ∷ []) ∷ []
grow c (p ∷ ps) = (c ∷ p) ∷ ps

-- `s.split(d)`
unfoldable pub split : ℕ → Text → List Text
unfolding grow
split d [] = [] ∷ []
split d (c ∷ s) = let rest = split d s in if c == d then [] ∷ rest else grow c rest

-- `d.join(parts)`
unfoldable pub join : ℕ → List Text → Text
join d [] = []
join d (p ∷ []) = p
join d (p ∷ q ∷ ps) = p ++ d ∷ join d (q ∷ ps)

-- A text without the separator is one part, and ends the part that it stands before.
pub split-append :
    (d : ℕ) (p s : Text) → has_code d p ≡ false → split d (p ++ d ∷ s) ≡ p ∷ split d s
unfolding has_code split
split-append d [] s h = ground (arith, ==_iff d d)
split-append d (c ∷ p) s h = ground (arith, split-append d p s)

pub split_self : (d : ℕ) (p : Text) → has_code d p ≡ false → split d p ≡ p ∷ []
unfolding has_code split
split_self d [] h = refl
split_self d (c ∷ p) h = ground (arith, split_self d p)

pub split_two :
    (d : ℕ) (p q : Text)
    → has_code d p ≡ false
    → has_code d q ≡ false
    → split d (p ++ d ∷ q) ≡ p ∷ q ∷ []
split_two d p q h k = rw (split-append d p q h) (ap (λ r. p ∷ r) (split_self d q k))

pub split-join :
    (d : ℕ) (p : Text) (ps : List Text)
    → All (λ q. has_code d q ≡ false) (p ∷ ps)
    → split d (join d (p ∷ ps)) ≡ p ∷ ps
unfolding join
split-join d p [] (h, _) = split_self d p h
split-join d p (q ∷ ps) (h, k) =
    rw (split-append d p (join d (q ∷ ps)) h) (ap (λ r. p ∷ r) (split-join d q ps k))

split-ne-nil : (d : ℕ) (s : Text) → split d s ≢ []
unfolding split
split-ne-nil d [] h = cc
split-ne-nil d (c ∷ s) h = absurd (ground arith)

join-grow : (d c : ℕ) (ps : List Text) → join d (grow c ps) ≡ c ∷ join d ps
unfolding grow join
join-grow d c [] = refl
join-grow d c (p ∷ []) = refl
join-grow d c (p ∷ q ∷ ps) = refl

join-nil : (d : ℕ) (ps : List Text) → ps ≢ [] → join d ([] ∷ ps) ≡ d ∷ join d ps
unfolding join
join-nil d [] h = absurd (h refl)
join-nil d (p ∷ ps) h = refl

pub join-split : (d : ℕ) (s : Text) → join d (split d s) ≡ s
unfolding split join
join-split d [] = refl
join-split d (c ∷ s) = ground (
  arith,
  join-split d s,
  join-grow d c (split d s),
  join-nil d (split d s) (split-ne-nil d s),
  ==_iff c d,
)

-- What a text lacks, its parts lack; and the separator stands in no part.
module _ (a d : ℕ) where
  All-grow :
      (c : ℕ) (ps : List Text)
      → (c == a) ≡ false
      → All (λ q. has_code a q ≡ false) ps
      → All (λ q. has_code a q ≡ false) (grow c ps)
  unfolding grow has_code
  All-grow c [] h k = (ground arith, tt)
  All-grow c (p ∷ ps) h (k, ks) = (ground arith, ks)

  pub All-split_lacks :
      (s : Text) → has_code a s ≡ false → All (λ q. has_code a q ≡ false) (split d s)
  unfolding split has_code
  All-split_lacks [] h = (refl, tt)
  All-split_lacks (c ∷ s) h = ground (arith, All-split_lacks s, All-grow c (split d s))

pub All-split : (d : ℕ) (s : Text) → All (λ q. has_code d q ≡ false) (split d s)
unfolding split has_code
All-split d [] = (refl, tt)
All-split d (c ∷ s) = ground (arith, All-split d s, All-grow d d c (split d s))

pub has_code-append : (a : ℕ) (s t : Text) → has_code a (s ++ t) ≡ (has_code a s || has_code a t)
unfolding has_code
has_code-append a [] t = refl
has_code-append a (c ∷ s) t = ground (arith, has_code-append a s t)

pub has_code-join :
    (a d : ℕ) (ps : List Text)
    → (d == a) ≡ false
    → All (λ q. has_code a q ≡ false) ps
    → has_code a (join d ps) ≡ false
unfolding has_code join
has_code-join a d [] n h = refl
has_code-join a d (p ∷ []) n (h, _) = h
has_code-join a d (p ∷ q ∷ ps) n (h, k) =
    ground (arith, has_code-append a p (d ∷ join d (q ∷ ps)), has_code-join a d (q ∷ ps) n k)
