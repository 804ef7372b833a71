-- ===== src/Prelude/Tests.antt =====
-- Boolean tests on the native numbers and on texts, and the conditional.
use Prim.Native.Nat.{ℕ, compare, Ordering}
use Prim.Native.String.{String}
use mathlib.Core.Path.{◌≡◌, refl}
use mathlib.Core.Logic.{◌↔◌, ◌⊎◌, inl, inr}
use mathlib.Core.Bool.{Bool, true, false}
use mathlib.Core.Option.{Option, none, some}
use native.Mathlib.Omega.{arith}
use text.Mathlib.Text.{◌==◌ as str_eq}
use text.Mathlib.TextEquality.{eq_iff}

abbrev pub ltb : ℕ → ℕ → Bool
ltb a b = elim (compare a b) [ Ordering.lt ↦ true | _ ↦ false ]

abbrev pub leb : ℕ → ℕ → Bool
leb a b = elim (compare a b) [ Ordering.gt ↦ false | _ ↦ true ]

infix 50 ◌==◌
abbrev pub ◌==◌ : ℕ → ℕ → Bool
a == b = elim (compare a b) [ Ordering.eq ↦ true | _ ↦ false ]

infix 1 if◌then◌else◌
abbrev pub if◌then◌else◌ {ℓ} : {A : Type ℓ} → Bool → A → A → A
if true then x else y = x
if false then x else y = y

-- To split on a computed value and keep the equation.
pub Bool-cases : (b : Bool) → (b ≡ true) ⊎ (b ≡ false)
Bool-cases true = inl refl
Bool-cases false = inr refl

pub Option-cases {ℓ} : {A : Type ℓ} (o : Option A) → (o ≡ none) ⊎ ((a : A) × (o ≡ some a))
Option-cases none = inl refl
Option-cases (some a) = inr (a, refl)

decide_text : (s t : String) (b : Bool) → str_eq s t ≡ b → Dec (s ≡ t)
decide_text s t true e = yes ((eq_iff s t).0 e)
decide_text s t false e = no (λ p. cc (e, (eq_iff s t).1 p))

-- Texts are compared by their contents, as `===` does.
unfoldable pub text_discrete : Discrete String
unfolding decide_text
text_discrete s t = decide_text s t (str_eq s t) refl

abbrev pub same : String → String → Bool
same s t = elim (text_discrete s t) [ yes _ ↦ true | no _ ↦ false ]

pub same_refl : (s : String) → same s s ≡ true
same_refl s = ground arith

pub same_iff : (s t : String) → (same s t ≡ true) ↔ (s ≡ t)
same_iff s t = ground arith

-- What holds of both branches holds of the conditional.
pub if_either {ℓ κ} :
    {A : Type ℓ} (P : A → Type κ) (b : Bool) {x y : A} → P x → P y → P (if b then x else y)
if_either P true p q = p
if_either P false p q = q
