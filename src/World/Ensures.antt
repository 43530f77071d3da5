-- ===== src/World/Ensures.antt =====
-- Postconditions of C functions: the run keeps within its fuel, and what it returns is as stated. A
-- run that faults has no result.
use libmigdb.Base.{List, [], ◌∷◌, Bool, true, false, if◌then◌else◌, ◌≡◌, ◌≢◌, refl}
use libmigdb.World.{
  World, Outcome, ret, fault, out_of_fuel, M, continue, answer, mi_calloc, silent_answer, sys_alloc,
}

pub data Ensures {ℓ κ} {A : Type ℓ} (P : A → Type κ) : Outcome A → Type (ℓ ⊔ κ) where
  holds : {a : A} {w : World} → P a → Ensures P (ret a w)
  faulted : Ensures P fault

module _ {ℓ κ} {A : Type ℓ} {P : A → Type κ} where
  pub Ensures-ne-out_of_fuel : {o : Outcome A} → Ensures P o → o ≢ out_of_fuel
  Ensures-ne-out_of_fuel (holds h) = cc
  Ensures-ne-out_of_fuel faulted = cc

  pub Ensures-if :
      (b : Bool) {x y : Outcome A}
      → (b ≡ true → Ensures P x)
      → (b ≡ false → Ensures P y)
      → Ensures P (if b then x else y)
  Ensures-if true hx hy = hx refl
  Ensures-if false hx hy = hy refl

  pub Ensures-weaken {ι} :
      {Q : A → Type ι} {o : Outcome A} → Ensures P o → ((a : A) → P a → Q a) → Ensures Q o
  Ensures-weaken (holds {a} h) k = holds (k a h)
  Ensures-weaken faulted k = faulted

  pub Ensures-continue {ℓ' κ'} :
      {B : Type ℓ'} {Q : B → Type κ'} {o : Outcome A} {f : A → M B}
      → Ensures P o
      → ((a : A) (w : World) → P a → Ensures Q (f a w))
      → Ensures Q (continue o f)
  Ensures-continue (holds {a} {w} h) k = k a w h
  Ensures-continue faulted k = faulted

answer-Ensures : (rs : List Bool) (w : World) → Ensures (λ _. Unit {0}) (answer rs w)
unfolding answer
answer-Ensures [] w = holds tt
answer-Ensures (false ∷ rs) w = holds tt
answer-Ensures (true ∷ rs) w = holds tt

-- An allocation returns, whatever the allocator answers.
pub mi_calloc-Ensures : (w : World) → Ensures (λ _. Unit {0}) (mi_calloc w)
unfolding mi_calloc
mi_calloc-Ensures w = answer-Ensures w.refusals w

-- The run returns, without a fault, and what it returns is as stated.
pub data Returns {ℓ κ} {A : Type ℓ} (P : A → Type κ) : Outcome A → Type (ℓ ⊔ κ) where
  returned : {a : A} {w : World} → P a → Returns P (ret a w)

module _ {ℓ κ} {A : Type ℓ} {P : A → Type κ} where
  pub Returns-continue {ℓ' κ'} :
      {B : Type ℓ'} {Q : B → Type κ'} {o : Outcome A} {f : A → M B}
      → Returns P o
      → ((a : A) (w : World) → P a → Returns Q (f a w))
      → Returns Q (continue o f)
  Returns-continue (returned {a} {w} h) k = k a w h

silent_answer-Returns : (rs : List Bool) (w : World) → Returns (λ _. Unit {0}) (silent_answer rs w)
unfolding silent_answer
silent_answer-Returns [] w = returned tt
silent_answer-Returns (false ∷ rs) w = returned tt
silent_answer-Returns (true ∷ rs) w = returned tt

pub sys_alloc-Returns : (w : World) → Returns (λ _. Unit {0}) (sys_alloc w)
unfolding sys_alloc
sys_alloc-Returns w = silent_answer-Returns w.refusals w
