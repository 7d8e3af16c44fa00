-- ===== src/Rtlil/Intact.antt =====
-- Computations on a netlist that leave the voters in it intact.
pub mod Calls
use tamara.Common.{
  ◌≡◌, Bool, Error, M, Option, Result, false, pure, ℕ, ◌⊎◌, IfOk, fail, if◌then◌else◌, require,
  some_or, succeeds, ⊎_elim, ◌>>=◌, ◌>>◌, and_then, fails, some, subst, true, IfOk-seq, none,
  IfOk-weaken,
}
use tamara.Rtlil.Kernel.{AnyPtr, Kernel, wire, cell}
use tamara.Rtlil.Circuit.{Circuit}
use tamara.Rtlil.Gates.{Gates, Marks}
use tamara.Rtlil.Attributes.{Has}
use tamara.Util.Names.{cone_annotation}

module _ (k : Kernel) (s : Circuit k) (g : Gates k s) (marks : Marks k) where
  open k use {
    Wire, Cell, SigSpec, Module, next_index, add_wire, copy_wire, copy_cell, add_logic_not,
    add_logic_and, add_logic_or, add_reduce_or, add_buf, connect, set_port, set_bool_attribute,
    set_string_attribute,
  }
  open s use {Allows}

  -- an object that may get new ports
  abbrev pub Plain : AnyPtr Wire Cell → Type 0
  Plain (wire w) = Unit {0}
  Plain (cell c) = g.is_gate c ≡ false

  -- no gate has the annotation of a cone
  pub record IsTidy (m : Module) : Type 0 where
    pub plain : (x : AnyPtr Wire Cell) → Has k m x cone_annotation → Plain x

  -- what the netlist allows afterwards it allowed before, and it is still tidy
  pub record Intact (m m' : Module) : Type 0 where
    pub tidy : IsTidy m'
    pub before : (v : Wire → ℕ → Bool) → Allows m' v → Allows m v

  -- from a tidy netlist, if it succeeds
  pub record Keeps {A : Type 0} (f : M Module A) : Type 0 where
    pub at : (m : Module) → IsTidy m → IfOk (λ _ m'. Intact m m') (f m)

  pub Intact-refl : (m : Module) → IsTidy m → Intact m m
  Intact-refl m tidy = record { tidy = tidy; before = λ v h. h }

  pub Intact-trans : {m m1 m2 : Module} → Intact m m1 → Intact m1 m2 → Intact m m2
  Intact-trans first second = record {
    tidy = second.tidy;
    before = λ v h. first.before v (second.before v h);
  }

  -- no annotation of a cone is new
  no_new_marks :
      (m m' : Module)
      → ((x : AnyPtr Wire Cell) → Has k m' x cone_annotation → Has k m x cone_annotation)
      → IsTidy m
      → IsTidy m'
  no_new_marks m m' only tidy = record { plain = λ x h. tidy.plain x (only x h) }

  -- only this object may have a new one
  one_new_mark :
      (m m' : Module) (y : AnyPtr Wire Cell)
      → Plain y
      → ((x : AnyPtr Wire Cell) → Has k m' x cone_annotation → Has k m x cone_annotation ⊎ (y ≡ x))
      → IsTidy m
      → IsTidy m'
  one_new_mark m m' y plain only tidy = record {
    plain = λ x h. ⊎_elim (tidy.plain x) (λ e. subst Plain e plain) (only x h);
  }

  module _ {A : Type 0} where
    pub Keeps-pure : (a : A) → Keeps (pure a)
    Keeps-pure a = record { at = λ m tidy. succeeds (Intact-refl m tidy) }

    pub Keeps-fail : (e : Error) → Keeps (fail {A = A} e)
    Keeps-fail e = record { at = λ m tidy. fails }

    pub Keeps-some_or : (o : Option A) (e : Error) → Keeps (some_or o e)
    Keeps-some_or none e = Keeps-fail e
    Keeps-some_or (some a) e = Keeps-pure a

    pub Keeps-if : (b : Bool) (f h : M Module A) → Keeps f → Keeps h → Keeps (if b then f else h)
    Keeps-if true f h keeps_f keeps_h = keeps_f
    Keeps-if false f h keeps_f keeps_h = keeps_h

  pub Keeps-require : (b : Bool) (e : Error) → Keeps (require b e)
  Keeps-require true e = Keeps-pure tt
  Keeps-require false e = Keeps-fail e

  module _ {A B : Type 0} where
    -- the rest may use that this result came
    pub Keeps-seq :
        {r : Result (A × Module)} {f : A → Module → Result (B × Module)} {m : Module}
        → IfOk (λ _ m'. Intact m m') r
        → ((a : A) (m' : Module) → Intact m m' → IfOk (λ _ m''. Intact m' m'') (f a m'))
        → IfOk (λ _ m'. Intact m m') (and_then r f)
    Keeps-seq first rest =
        IfOk-seq first
          (λ a m' done. IfOk-weaken (rest a m' done) (λ b m'' more. Intact-trans done more))

    pub Keeps-bind :
        (f : M Module A) (h : A → M Module B) → Keeps f → ((a : A) → Keeps (h a)) → Keeps (f >>= h)
    Keeps-bind f h keeps_f keeps_h = record {
      at = λ m tidy. Keeps-seq (keeps_f.at m tidy) (λ a m' done. (keeps_h a).at m' done.tidy);
    }

  pub Keeps-then :
      {B : Type 0} (f : M Module (Unit {0})) (h : M Module B) → Keeps f → Keeps h → Keeps (f >> h)
  Keeps-then f h keeps_f keeps_h = Keeps-bind f (λ _. h) keeps_f (λ _. keeps_h)
