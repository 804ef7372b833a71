-- ===== src/Prelude/Lists.antt =====
-- Lists measured by native numbers.
use Prim.Native.Nat.{ℕ, suc, ◌+◌}
use mathlib.Core.Path.{◌≡◌}
use mathlib.Core.List.{List, [], ◌∷◌, ◌++◌}
use native.Mathlib.Omega.{arith}

module _ {ℓ} {A : Type ℓ} where
  abbrev pub length : List A → ℕ
  length [] = 0
  length (x ∷ xs) = suc (length xs)

  pub length-append : (xs ys : List A) → length (xs ++ ys) ≡ length xs + length ys
  length-append [] ys = omega arith
  length-append (x ∷ xs) ys = omega (arith, length-append xs ys)

-- A predicate at every element.
abbrev pub All {ℓ κ} : {A : Type ℓ} → (A → Type κ) → List A → Type κ
All P [] = Unit
All P (x ∷ xs) = P x × All P xs

pub All-map {ℓ κ μ} :
    {A : Type ℓ} (P : A → Type κ) (Q : A → Type μ) (xs : List A)
    → ((x : A) → P x → Q x)
    → All P xs
    → All Q xs
All-map P Q [] f h = tt
All-map P Q (x ∷ xs) f h = (f x h.0, All-map P Q xs f h.1)
