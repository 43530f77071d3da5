-- ===== src/Base/Tests.antt =====
-- Boolean tests on the native numbers, the conditional, and case splits on computed values.
use Prim.Native.Nat.{ℕ, suc, ◌-◌, compare, Ordering}
use mathlib.Core.Path.{◌≡◌, refl}
use mathlib.Core.Logic.{◌↔◌, ◌⊎◌, inl, inr}
use mathlib.Core.Bool.{Bool, true, false}
use mathlib.Core.Option.{Option, none, some}
use native.Mathlib.Omega.{arith}

abbrev pub ltb : ℕ → ℕ → Bool
ltb a b = elim (compare a b) [ Ordering.lt ↦ true | _ ↦ false ]

abbrev pub leb : ℕ → ℕ → Bool
leb a b = elim (compare a b) [ Ordering.gt ↦ false | _ ↦ true ]

infix 50 ◌==◌
abbrev pub ◌==◌ : ℕ → ℕ → Bool
a == b = elim (compare a b) [ Ordering.eq ↦ true | _ ↦ false ]

infix 1 if◌then◌else◌
abbrev pub if◌then◌else◌ {ℓ} : {A : Type ℓ} → Bool → A → A → A
if true then x else y = x
if false then x else y = y

pub ==_iff : (a b : ℕ) → ((a == b) ≡ true) ↔ (a ≡ b)
==_iff a b = ground arith

pub ==_refl : (a : ℕ) → (a == a) ≡ true
==_refl a = ground arith

pub Bool-cases : (b : Bool) → (b ≡ true) ⊎ (b ≡ false)
Bool-cases true = inl refl
Bool-cases false = inr refl

pub Option-cases {ℓ} : {A : Type ℓ} (o : Option A) → (o ≡ none) ⊎ ((a : A) × (o ≡ some a))
Option-cases none = inl refl
Option-cases (some a) = inr (a, refl)

-- Steps of the order and of subtraction.
pub sub-suc : (m n : ℕ) → suc m - suc n ≡ m - n
sub-suc m n = omega arith

pub sub_one : (n : ℕ) → suc n - 1 ≡ n
sub_one n = omega arith

pub sub_zero : (n : ℕ) → n - 0 ≡ n
sub_zero n = omega arith

pub not_zero : (n : ℕ) → (suc n == 0) ≡ false
not_zero n = ground arith

pub leb-zero : (n : ℕ) → leb 0 n ≡ true
leb-zero n = ground arith

pub leb-suc-zero : (n : ℕ) → leb (suc n) 0 ≡ false
leb-suc-zero n = ground arith

pub leb-suc : (m n : ℕ) → leb (suc m) (suc n) ≡ leb m n
leb-suc m n = ground arith
