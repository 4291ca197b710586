-- ===== src/Prelude/Tests.antt =====
-- Boolean tests on the native numbers and on texts, and the conditional.
use Prim.Native.Nat.{ℕ, compare, Ordering}
use Prim.Native.String.{String}
use mathlib.Core.Path.{◌≡◌, refl, ap}
use mathlib.Core.Logic.{◌≢◌, ◌↔◌, ◌⊎◌, inl, inr}
use mathlib.Core.Bool.{Bool, true, false}
use mathlib.Core.Option.{Option, none, some}
use native.Mathlib.Omega.{arith}
use text.Mathlib.Text.{◌==◌ as str_eq}
use text.Mathlib.TextEquality.{eq_iff}

abbrev pub ltb : ℕ → ℕ → Bool
ltb a b = elim (compare a b) [ Ordering.lt ↦ true | _ ↦ false ]

abbrev pub leb : ℕ → ℕ → Bool
leb a b = elim (compare a b) [ Ordering.gt ↦ false | _ ↦ true ]

abbrev pub nat_test : ℕ → ℕ → Bool
nat_test a b = elim (compare a b) [ Ordering.eq ↦ true | _ ↦ false ]

infix 1 if◌then◌else◌
abbrev pub if◌then◌else◌ {ℓ} : {A : Type ℓ} → Bool → A → A → A
if true then x else y = x
if false then x else y = y

pub nat_test_iff : (a b : ℕ) → (nat_test a b ≡ true) ↔ (a ≡ b)
nat_test_iff a b = ground arith

-- What a key of a dictionary needs: Python's `==`, which decides equality.
pub record Key {ℓ} (K : Type ℓ) : Type ℓ where
  pub test : K → K → Bool
  pub test_iff : (j k : K) → (test j k ≡ true) ↔ (j ≡ k)

instance abbrev pub string_eq : Key String
string_eq = record { test_iff = eq_iff; test = str_eq }

instance abbrev pub nat_eq : Key ℕ
nat_eq = record { test_iff = nat_test_iff; test = nat_test }

infix 50 ◌==◌
abbrev pub ◌==◌ {ℓ} : {K : Type ℓ} ⦃key : Key K⦄ → K → K → Bool
◌==◌ ⦃key⦄ j k = key.test j k

-- An enumeration compared by the position of its members.
pub by_index {ℓ} :
    {A : Type ℓ} (index : A → ℕ)
    → ((a b : A) → index a ≡ index b → a ≡ b)
    → (a b : A) → (nat_test (index a) (index b) ≡ true) ↔ (a ≡ b)
by_index index inj a b = (
  λ h. inj a b ((nat_test_iff (index a) (index b)).0 h),
  λ p. (nat_test_iff (index a) (index b)).1 (ap index p),
)

abbrev pub is_some {ℓ} : {A : Type ℓ} → Option A → Bool
is_some none = false
is_some (some a) = true

-- A split on a computed value that keeps the equation.
pub Bool-cases : (b : Bool) → (b ≡ true) ⊎ (b ≡ false)
Bool-cases true = inl refl
Bool-cases false = inr refl

pub Option-cases {ℓ} : {A : Type ℓ} (o : Option A) → (o ≡ none) ⊎ ((a : A) × (o ≡ some a))
Option-cases none = inl refl
Option-cases (some a) = inr (a, refl)

module _ {ℓ} {A : Type ℓ} ⦃e : Key A⦄ where
  pub ==_refl : (a : A) → (a == a) ≡ true
  ==_refl a = (e.test_iff a a).1 refl

  pub ==_of_ne : (a b : A) → a ≢ b → (a == b) ≡ false
  ==_of_ne a b h = elim (Bool-cases (a == b)) [
    | inl p ↦ absurd (h ((e.test_iff a b).0 p))
    | inr p ↦ p
  ]

pub some_inj {ℓ} : {A : Type ℓ} (a b : A) → some a ≡ some b → a ≡ b
some_inj a b e = ap (λ o. elim o [ none ↦ a | some x ↦ x ]) e
