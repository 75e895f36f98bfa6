-- ===== src/Prelude/Tests.antt =====
-- Boolean tests on numbers and texts, and the conditional.
use Prim.Native.Nat.{ℕ, compare, Ordering}
use Prim.Native.String.{String}
use mathlib.Core.Path.{◌≡◌, refl}
use mathlib.Core.Logic.{◌↔◌, ◌⊎◌, inl, inr}
use mathlib.Core.Bool.{Bool, true, false}
use mathlib.Core.Option.{Option, none, some}
use native.Mathlib.Omega.{arith}
use text.Mathlib.Text.{◌==◌ as str_eq}
use text.Mathlib.TextEquality.{eq_iff}

abbrev pub ltb : ℕ → ℕ → Bool
ltb a b = elim (compare a b) [ Ordering.lt ↦ true | _ ↦ false ]

abbrev pub leb : ℕ → ℕ → Bool
leb a b = elim (compare a b) [ Ordering.gt ↦ false | _ ↦ true ]

abbrev pub nat_beq : ℕ → ℕ → Bool
nat_beq a b = elim (compare a b) [ Ordering.eq ↦ true | _ ↦ false ]

infix 1 if◌then◌else◌
abbrev pub if◌then◌else◌ {ℓ} : {A : Type ℓ} → Bool → A → A → A
if true then x else y = x
if false then x else y = y

pub nat_beq_iff : (a b : ℕ) → (nat_beq a b ≡ true) ↔ (a ≡ b)
nat_beq_iff a b = ground arith

-- Go's `==` at the two types that the program compares.
pub record Eq {ℓ} (T : Type ℓ) : Type ℓ where
  pub same : T → T → Bool
  pub same_iff : (x y : T) → (same x y ≡ true) ↔ (x ≡ y)

instance abbrev pub string_eq : Eq String
string_eq = record { same = str_eq; same_iff = eq_iff }

instance abbrev pub nat_eq : Eq ℕ
nat_eq = record { same = nat_beq; same_iff = nat_beq_iff }

infix 50 ◌==◌
abbrev pub ◌==◌ {ℓ} : {T : Type ℓ} ⦃eq : Eq T⦄ → T → T → Bool
◌==◌ ⦃eq⦄ = eq.same

pub beq_self {ℓ} : {A : Type ℓ} ⦃e : Eq A⦄ (a : A) → (a == a) ≡ true
beq_self ⦃e⦄ a = (e.same_iff a a).1 refl

-- To split on a computed value and keep the equation.
pub Bool-cases : (b : Bool) → (b ≡ true) ⊎ (b ≡ false)
Bool-cases true = inl refl
Bool-cases false = inr refl

pub Option-cases {ℓ} : {A : Type ℓ} (o : Option A) → (o ≡ none) ⊎ ((a : A) × (o ≡ some a))
Option-cases none = inl refl
Option-cases (some a) = inr (a, refl)
