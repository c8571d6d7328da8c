-- ===== src/Base/Samples.antt =====
-- Lists of samples that grow at their end: their sum and largest element, and the places of a new one.
use Prim.Native.Nat.{ℕ, zero, suc, ◌+◌, ◌<◌, min}
use mathlib.Core.Path.{◌≡◌, refl, ap}
use mathlib.Core.List.{List, [], ◌∷◌, ◌++◌}
use mathlib.Core.Option.{some}
use native.Mathlib.Omega.{arith}
use ddtsoft_net_test.Base.Tests.{ltb, if◌then◌else◌}
use ddtsoft_net_test.Base.Lists.{length, get_elem?}

abbrev pub sum : List ℕ → ℕ
sum [] = 0
sum (x ∷ xs) = x + sum xs

abbrev pub largest : List ℕ → ℕ
largest [] = 0
largest (x ∷ xs) = if ltb (largest xs) x then x else largest xs

-- The least of the list and of `top`.
abbrev pub least : ℕ → List ℕ → ℕ
least top [] = top
least top (x ∷ xs) = min x (least top xs)

pub sum-append : (xs : List ℕ) (x : ℕ) → sum (xs ++ x ∷ []) ≡ sum xs + x
sum-append [] x = omega arith
sum-append (y ∷ xs) x = omega (arith, sum-append xs x)

pub largest-append :
    (xs : List ℕ) (x : ℕ) → largest (xs ++ x ∷ []) ≡ (if ltb (largest xs) x then x else largest xs)
largest-append [] x = ground arith
largest-append (y ∷ xs) x = ground (arith, largest-append xs x)

pub least-append :
    (top : ℕ) (xs : List ℕ) (x : ℕ)
    → least top (xs ++ x ∷ []) ≡ (if ltb x (least top xs) then x else least top xs)
least-append top [] x = ground arith
least-append top (y ∷ xs) x = ground (arith, least-append top xs x)

module _ {ℓ} {A : Type ℓ} where
  pub last-append : (xs : List A) (x : A) → get_elem? (xs ++ x ∷ []) (length xs) ≡ some x
  last-append [] x = refl
  last-append (y ∷ xs) x = last-append xs x

  pub before-append :
      (xs : List A) (x : A) (i : ℕ) → i < length xs → get_elem? (xs ++ x ∷ []) i ≡ get_elem? xs i
  before-append [] x i lt = absurd (omega arith)
  before-append (y ∷ xs) x zero lt = refl
  before-append (y ∷ xs) x (suc i) lt = before-append xs x i (omega arith)

  pub append_one : (ys xs : List A) (x : A) → (ys ++ x ∷ []) ++ xs ≡ ys ++ x ∷ xs
  append_one [] xs x = refl
  append_one (y ∷ ys) xs x = ap (λ (r : List A). y ∷ r) (append_one ys xs x)

  pub append_nil : (ys : List A) → ys ++ [] ≡ ys
  append_nil [] = refl
  append_nil (y ∷ ys) = ap (λ (r : List A). y ∷ r) (append_nil ys)
