-- ===== src/Debugger/Registers/Values.antt =====
-- What `UpdateRegisters` does to the registers of the application.
use libmigdb.Base.{
  ℕ, suc, Bytes, true, false, if◌then◌else◌, Option, none, some, List, [], ◌∷◌, ◌≡◌, ◌≢◌, refl, ap,
  ◌∙◌, sym, inl, inr, Bool-cases, Option-cases, ==_iff,
}
use libmigdb.Extract.{ℤ, pos, negsuc, eq_int}
use libmigdb.Extract.Registers.{ChgReg}
use libmigdb.World.{World, M, Outcome, ret, fault, out_of_fuel, continue, pure, ◌>>=◌}
use libmigdb.Command.{Surroundings}
use libmigdb.Debugger.{Debugger, Settings}
use libmigdb.Debugger.Registers.{
  take_value, updated_reg, update, updated_by, get_changed_registers, update_registers,
}

eq_int-eq : (a b : ℤ) → eq_int a b ≡ true → a ≡ b
eq_int-eq (pos m) (pos n) e = ap pos ((==_iff m n).0 e)
eq_int-eq (negsuc m) (negsuc n) e = ap negsuc ((==_iff m n).0 e)
eq_int-eq (pos m) (negsuc n) e = cc
eq_int-eq (negsuc m) (pos n) e = cc

some_ne_none : {A : Type 0} {a : A} → some a ≢ none
some_ne_none e = cc

some-injective : {A : Type 0} {a b : A} → some a ≡ some b → a ≡ b
some-injective e = cc

-- The value of the first changed register of that number.
abbrev pub new_value : ℤ → List ChgReg → Option (Option Bytes)
new_value n [] = none
new_value n (c ∷ chg) = let later = new_value n chg in if eq_int c.reg n then some c.val else later

-- A register with its new value, or marked as not updated.
abbrev pub shown_as : Option (Option Bytes) → ChgReg → ChgReg
shown_as none r = record r { updated = false }
shown_as (some val) r = record r { updated = true; val = val }

abbrev pub shown_all : List ChgReg → List ChgReg → List ChgReg
shown_all chg [] = []
shown_all chg (r ∷ regs) = shown_as (new_value r.reg chg) r ∷ shown_all chg regs

abbrev add_found : Option (Option Bytes) → ℕ → ℕ
add_found none n = n
add_found (some val) n = suc n

abbrev pub how_many : List ChgReg → List ChgReg → ℕ
how_many chg [] = 0
how_many chg (r ∷ regs) = add_found (new_value r.reg chg) (how_many chg regs)

-- No register of the list has that number, and no two have the same.
abbrev pub NoneNumbered : ℤ → List ChgReg → Type 0
NoneNumbered n [] = Unit {0}
NoneNumbered n (r ∷ regs) = (eq_int n r.reg ≡ false) × NoneNumbered n regs

abbrev pub AllNumbered : List ChgReg → Type 0
AllNumbered [] = Unit {0}
AllNumbered (r ∷ regs) = NoneNumbered r.reg regs × AllNumbered regs

new_value-passed :
    (n : ℤ) (c : ChgReg) (chg : List ChgReg)
    → eq_int c.reg n ≡ false
    → new_value n (c ∷ chg) ≡ new_value n chg
new_value-passed n c chg h = rw h refl

new_value-found :
    (n : ℤ) (c : ChgReg) (chg : List ChgReg)
    → eq_int c.reg n ≡ true
    → new_value n (c ∷ chg) ≡ some c.val
new_value-found n c chg h = rw h refl

take_value-none : (n : ℤ) (chg : List ChgReg) → new_value n chg ≡ none → take_value n chg ≡ none
unfolding take_value
take_value-none n [] e = refl
take_value-none n (c ∷ chg) e = elim (Bool-cases (eq_int c.reg n)) [
  | inl h ↦ elim (some_ne_none (sym (new_value-found n c chg h) ∙ e)) [ ]
  | inr h ↦ rw (h, take_value-none n chg (sym (new_value-passed n c chg h) ∙ e)) refl
]

-- What is left after a value is taken answers the other numbers as before.
record Taken (n : ℤ) (val : Option Bytes) (chg : List ChgReg) : Type 0 where
  left : List ChgReg
  taken : take_value n chg ≡ some (val, left)
  others : (m : ℤ) → eq_int n m ≡ false → new_value m left ≡ new_value m chg

-- Behind a register that stays.
others-cons :
    (c c' : ChgReg) (m : ℤ) (left chg : List ChgReg)
    → c'.reg ≡ c.reg
    → c'.val ≡ c.val
    → new_value m left ≡ new_value m chg
    → new_value m (c' ∷ left) ≡ new_value m (c ∷ chg)
others-cons c c' m left chg e i h = rw (e, i, h) refl

take_value-some :
    (n : ℤ) (val : Option Bytes) (chg : List ChgReg) → new_value n chg ≡ some val → Taken n val chg
unfolding take_value
take_value-some n val [] e = elim (some_ne_none (sym e)) [ ]
take_value-some n val (c ∷ chg) e = elim (Bool-cases (eq_int c.reg n)) [
  | inl h ↦ record {
    left = record c { val = none } ∷ chg;
    taken = rw h (
        ap (λ v. some (v, record c { val = none } ∷ chg))
          (some-injective (sym (new_value-found n c chg h) ∙ e)));
    others = λ m a.
        let passed : eq_int c.reg m ≡ false = rw (eq_int-eq c.reg n h) a in
        new_value-passed m (record c { val = none }) chg passed
        ∙ sym (new_value-passed m c chg passed);
  }
  | inr h ↦
      (let t = take_value-some n val chg (sym (new_value-passed n c chg h) ∙ e) in
        record {
          left = c ∷ t.left;
          taken = rw (h, t.taken) refl;
          others = λ m a. others-cons c c m t.left chg refl refl (t.others m a);
        })
]

module _ (n : ℤ) (chg chg' : List ChgReg) where
  -- The registers of other numbers are not affected.
  same-shown :
      (regs : List ChgReg)
      → NoneNumbered n regs
      → ((m : ℤ) → eq_int n m ≡ false → new_value m chg' ≡ new_value m chg)
      → (shown_all chg' regs ≡ shown_all chg regs) × (how_many chg' regs ≡ how_many chg regs)
  same-shown [] a k = (refl, refl)
  same-shown (r ∷ regs) a k =
      let (p, q) = same-shown regs a.1 k in (rw (k r.reg a.0, p) refl, rw (k r.reg a.0, q) refl)

update-shown_all :
    (chg regs : List ChgReg)
    → AllNumbered regs
    → update chg regs ≡ (how_many chg regs, shown_all chg regs)
unfolding update updated_reg
update-shown_all chg [] a = refl
update-shown_all chg (r ∷ regs) a = elim (Option-cases (new_value r.reg chg)) [
  | inl e ↦ rw (e, take_value-none r.reg chg e, update-shown_all chg regs a.1) refl
  | inr (val, e) ↦
      (let t = take_value-some r.reg val chg e in
        let (p, q) = same-shown r.reg chg t.left regs a.0 t.others in
        rw (e, t.taken, update-shown_all t.left regs a.1, p, q) refl)
]

same_rest :
    {A B : Type 0} (o : Outcome A) {f f' : A → M B}
    → ((a : A) (w : World) → f a w ≡ f' a w)
    → continue o f ≡ continue o f'
same_rest (ret a w) k = k a w
same_rest fault k = refl
same_rest out_of_fuel k = refl

-- The registers after a call, and how many are updated: without changed registers nothing is touched,
-- so marks of an earlier call stay.
abbrev pub refreshed : List ChgReg → List ChgReg → ℕ × List ChgReg
refreshed [] regs = (0, regs)
refreshed (c ∷ chg) regs = (how_many (c ∷ chg) regs, shown_all (c ∷ chg) regs)

updated_by-refreshed :
    (chg regs : List ChgReg) → AllNumbered regs → updated_by chg regs ≡ refreshed chg regs
unfolding updated_by
updated_by-refreshed [] regs a = refl
updated_by-refreshed (c ∷ chg) regs a = update-shown_all (c ∷ chg) regs a

-- When no two registers of the application have the same number, `UpdateRegisters`, in whatever state
-- it is called, asks once for the changed registers; if there are any, it gives each register of
-- the application the value of the first changed one of its number and marks it, marks the others as
-- not updated, and counts the ones that it has updated; if there are none, or the question fails, it
-- touches no register and counts 0.
pub update_registers-refreshed :
    (g : Settings) (xs : Surroundings) (regs : List ChgReg) (d : Debugger) (w : World)
    → AllNumbered regs
    → update_registers g xs regs d w
      ≡ (get_changed_registers g xs d >>= λ r. pure (refreshed r.0 regs, r.1)) w
unfolding update_registers
update_registers-refreshed g xs regs d w a =
    same_rest (get_changed_registers g xs d w)
      (λ q v. ap (λ u. ret (u, q.1) v) (updated_by-refreshed q.0 regs a))
