-- ===== src/World/After.antt =====
-- Postconditions of the runs that return: what is returned, and the world after it, are as stated.
-- A run that faults, or whose list of answers ends, satisfies every one of them.
use libmigdb.Base.{Bool, true, false, if◌then◌else◌, ◌≡◌, refl}
use libmigdb.World.{World, Outcome, ret, fault, out_of_fuel, M, continue}

pub data After {ℓ κ} {A : Type ℓ} (P : A → World → Type κ) : Outcome A → Type (ℓ ⊔ κ) where
  returns : {a : A} {w : World} → P a w → After P (ret a w)
  faults : After P fault
  stalls : After P out_of_fuel

module _ {ℓ κ} {A : Type ℓ} {P : A → World → Type κ} where
  pub After-continue {ℓ' κ'} :
      {B : Type ℓ'} {Q : B → World → Type κ'} {o : Outcome A} {f : A → M B}
      → After P o
      → ((a : A) (w : World) → P a w → After Q (f a w))
      → After Q (continue o f)
  After-continue (returns {a} {w} h) k = k a w h
  After-continue faults k = faults
  After-continue stalls k = stalls

  pub After-if :
      (b : Bool) (x y : M A) (w : World)
      → (b ≡ true → After P (x w))
      → (b ≡ false → After P (y w))
      → After P ((if b then x else y) w)
  After-if true x y w hx hy = hx refl
  After-if false x y w hx hy = hy refl

  pub After-weaken {ι} :
      {Q : A → World → Type ι} {o : Outcome A}
      → After P o
      → ((a : A) (w : World) → P a w → Q a w)
      → After Q o
  After-weaken (returns {a} {w} h) k = returns (k a w h)
  After-weaken faults k = faults
  After-weaken stalls k = stalls

-- Nothing is asked of the first run.
pub After-then {ℓ ℓ' κ'} :
    {A : Type ℓ} {B : Type ℓ'} {Q : B → World → Type κ'} (o : Outcome A) {f : A → M B}
    → ((a : A) (w : World) → After Q (f a w))
    → After Q (continue o f)
After-then (ret a w) k = k a w
After-then fault k = faults
After-then out_of_fuel k = stalls

pub After-then-then {ℓ ℓ' ℓ'' κ} :
    {A : Type ℓ} {B : Type ℓ'} {C : Type ℓ''} {Q : C → World → Type κ} (o : Outcome A) (f : A → M B)
    (g : B → M C)
    → ((a : A) (w : World) → After Q (continue (f a w) g))
    → After Q (continue (continue o f) g)
After-then-then (ret a w) f g k = k a w
After-then-then fault f g k = faults
After-then-then out_of_fuel f g k = stalls

pub After-ret {ℓ κ} :
    {A : Type ℓ} {P : A → World → Type κ} {a : A} {w : World} → After P (ret a w) → P a w
After-ret (returns h) = h
