-- ===== src/Common/Distinct.antt =====
-- Lists of numbers as sets: `lo.Contains`, `lo.Reject` of one number, and lists with no repetition.
use Prim.Native.Nat.{ℕ}
use mathlib.Core.Path.{◌≡◌, refl}
use mathlib.Core.Bool.{Bool, true, false, ◌||◌}
use mathlib.Core.List.{List, [], ◌∷◌, ◌++◌}
use native.Mathlib.Omega.{arith}
use axiom_lib.Common.Tests.{◌==◌, if◌then◌else◌, ==_iff, Bool-cases}
use mathlib.Core.Logic.{inl, inr}

-- `lo.Contains`
abbrev pub contains : ℕ → List ℕ → Bool
contains a [] = false
contains a (x ∷ xs) = if x == a then true else contains a xs

-- `lo.Reject` of one number
abbrev pub without : ℕ → List ℕ → List ℕ
without a [] = []
without a (x ∷ xs) = let rest = without a xs in if x == a then rest else x ∷ rest

-- No number comes twice.
abbrev pub NoRepeat : List ℕ → Type 0
NoRepeat [] = Unit
NoRepeat (x ∷ xs) = (contains x xs ≡ false) × NoRepeat xs

contains-insert :
    (a u : ℕ) (xs ys : List ℕ)
    → contains a ((xs ++ u ∷ []) ++ ys) ≡ (if u == a then true else contains a (xs ++ ys))
contains-insert a u [] ys = refl
contains-insert a u (x ∷ xs) ys = ground (arith, contains-insert a u xs ys)

-- A number that is not there is put in anywhere.
pub NoRepeat-insert :
    (u : ℕ) (xs ys : List ℕ)
    → NoRepeat (xs ++ ys)
    → contains u (xs ++ ys) ≡ false
    → NoRepeat ((xs ++ u ∷ []) ++ ys)
NoRepeat-insert u [] ys h k = (k, h)
NoRepeat-insert u (x ∷ xs) ys (h, hs) k =
    (ground (arith, contains-insert x u xs ys), NoRepeat-insert u xs ys hs (ground arith))

pub contains-append :
    (a : ℕ) (xs ys : List ℕ) → contains a (xs ++ ys) ≡ (contains a xs || contains a ys)
contains-append a [] ys = refl
contains-append a (x ∷ xs) ys = ground (arith, contains-append a xs ys)

pub contains-without :
    (a u : ℕ) (xs : List ℕ) → contains a (without u xs) ≡ (if u == a then false else contains a xs)
contains-without a u [] = ground arith
contains-without a u (x ∷ xs) =
    ground (arith, contains-without a u xs, ==_iff u a, ==_iff x a, ==_iff x u)

pub without-NoRepeat : (u : ℕ) (xs : List ℕ) → NoRepeat xs → NoRepeat (without u xs)
without-NoRepeat u [] h = tt
without-NoRepeat u (x ∷ xs) (h, hs) = elim (Bool-cases (x == u)) [
  | inl e ↦ rw e (without-NoRepeat u xs hs)
  | inr e ↦ rw e (ground (arith, contains-without x u xs, h), without-NoRepeat u xs hs)
]
