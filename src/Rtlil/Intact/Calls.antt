-- ===== src/Rtlil/Intact/Calls.antt =====
-- The calls of RTLIL that leave the voters of a netlist intact.
use text.Mathlib.TextEquality.{eq_iff}
use tamara.Common.{
  ◌≡◌, false, String, call, change, str_eq, ℕ, Bool, succeeds, ⊎_elim, false≢true, inl, inr, sym,
  ◌∙◌,
}
use tamara.Rtlil.Kernel.{AnyPtr, Kernel, wire, cell}
use tamara.Rtlil.Circuit.{Circuit}
use tamara.Rtlil.Gates.{Gates, Marks}
use tamara.Rtlil.Attributes.{Has}
use tamara.Rtlil.Intact.{Plain, IsTidy, Intact, Keeps, no_new_marks, one_new_mark}
use tamara.Util.Names.{cone_annotation}

module _ (k : Kernel) (s : Circuit k) (g : Gates k s) (marks : Marks k) where
  open k use {
    Wire, Cell, SigSpec, Module, next_index, add_wire, copy_wire, copy_cell, add_logic_not,
    add_logic_and, add_logic_or, add_reduce_or, add_buf, connect, set_port, set_bool_attribute,
    set_string_attribute,
  }
  open s use {Allows}

  -- a change that brings no annotation of a cone
  changed :
      (m m' : Module)
      → ((x : AnyPtr Wire Cell) → Has k m' x cone_annotation → Has k m x cone_annotation)
      → ((v : Wire → ℕ → Bool) → Allows m' v → Allows m v)
      → IsTidy k s g marks m
      → Intact k s g marks m m'
  changed m m' only before tidy = record {
    tidy = no_new_marks k s g marks m m' only tidy;
    before = before;
  }

  pub Keeps-next_index : Keeps k s g marks (call next_index)
  Keeps-next_index = record {
    at = λ m tidy.
        succeeds (changed m _ (λ x h. marks.next_index-only m x _ h) (s.next_index-Allows m) tidy);
  }

  pub Keeps-add_wire : (name : String) (n : ℕ) → Keeps k s g marks (call (add_wire name n))
  Keeps-add_wire name n = record {
    at = λ m tidy.
        succeeds (
          changed m _ (λ x h. marks.add_wire-only name n m x _ h) (s.add_wire-Allows name n m)
            tidy);
  }

  pub Keeps-add_logic_not :
      (name : String) (a y : SigSpec) → Keeps k s g marks (call (add_logic_not name a y))
  Keeps-add_logic_not name a y = record {
    at = λ m tidy. succeeds (
        changed m _ (λ x h. marks.add_logic_not-only name a y m x _ h)
          (λ v h. (s.add_logic_not-Allows name a y m v h).0) tidy);
  }

  pub Keeps-add_logic_and :
      (name : String) (a b y : SigSpec) → Keeps k s g marks (call (add_logic_and name a b y))
  Keeps-add_logic_and name a b y = record {
    at = λ m tidy. succeeds (
        changed m _ (λ x h. marks.add_logic_and-only name a b y m x _ h)
          (λ v h. (s.add_logic_and-Allows name a b y m v h).0) tidy);
  }

  pub Keeps-add_logic_or :
      (name : String) (a b y : SigSpec) → Keeps k s g marks (call (add_logic_or name a b y))
  Keeps-add_logic_or name a b y = record {
    at = λ m tidy. succeeds (
        changed m _ (λ x h. marks.add_logic_or-only name a b y m x _ h)
          (λ v h. (s.add_logic_or-Allows name a b y m v h).0) tidy);
  }

  pub Keeps-add_reduce_or :
      (name : String) (a y : SigSpec) → Keeps k s g marks (call (add_reduce_or name a y))
  Keeps-add_reduce_or name a y = record {
    at = λ m tidy. succeeds (
        changed m _ (λ x h. marks.add_reduce_or-only name a y m x _ h)
          (λ v h. (s.add_reduce_or-Allows name a y m v h).0) tidy);
  }

  pub Keeps-add_buf : (name : String) (a y : SigSpec) → Keeps k s g marks (call (add_buf name a y))
  Keeps-add_buf name a y = record {
    at = λ m tidy. succeeds (
        changed m _ (λ x h. marks.add_buf-only name a y m x _ h) (g.add_buf-before name a y m)
          tidy);
  }

  pub Keeps-connect : (l r : SigSpec) → Keeps k s g marks (change (connect l r))
  Keeps-connect l r = record {
    at = λ m tidy.
        succeeds
          (changed m _ (λ x h. marks.connect-only l r m x _ h) (g.connect-before l r m) tidy);
  }

  -- a new port only on a cell that is no gate
  pub Keeps-set_port :
      (c : Cell) (port : String) (signal : SigSpec)
      → Plain k s g marks (cell c)
      → Keeps k s g marks (change (set_port c port signal))
  Keeps-set_port c port signal plain = record {
    at = λ m tidy. succeeds (
        changed m _ (λ x h. marks.set_port-only c port signal m x _ h)
          (λ v. g.set_port-Allows c port signal m v plain) tidy);
  }

  -- a mark other than the annotation of a cone
  pub Keeps-mark :
      (x : AnyPtr Wire Cell) (name : String)
      → str_eq name cone_annotation ≡ false
      → Keeps k s g marks (change (set_bool_attribute x name))
  Keeps-mark x name other = record {
    at = λ m tidy. succeeds (
        changed m _
          (λ y h.
            ⊎_elim (λ old. old)
              (λ (_, e). absurd (false≢true (sym other ∙ (eq_iff name cone_annotation).1 e)))
              (marks.set_bool_attribute-only x name m y cone_annotation h))
          (s.set_bool_attribute-Allows x name m) tidy);
  }

  -- an annotation only on an object that is no gate
  pub Keeps-annotation :
      (x : AnyPtr Wire Cell) (name value : String)
      → Plain k s g marks x
      → Keeps k s g marks (change (set_string_attribute x name value))
  Keeps-annotation x name value plain = record {
    at = λ m tidy. succeeds (record {
      tidy =
          one_new_mark k s g marks m _ x plain
            (λ y h.
              ⊎_elim inl (λ (e, _). inr e)
                (marks.set_string_attribute-only x name value m y cone_annotation h))
            tidy;
      before = g.set_string_attribute-Allows x name value m;
    });
  }

  pub copy_wire-Intact :
      (name : String) (w : Wire) (m : Module)
      → IsTidy k s g marks m
      → Intact k s g marks m (copy_wire name w m).1
  copy_wire-Intact name w m tidy = record {
    tidy =
        one_new_mark k s g marks m _ (wire (copy_wire name w m).0) tt
          (λ y h. marks.copy_wire-only name w m y cone_annotation h) tidy;
    before = g.copy_wire-Allows name w m;
  }

  -- the copy of a cell that is no gate, which is none either
  pub copy_cell-Intact :
      (name : String) (c : Cell) (m : Module)
      → Plain k s g marks (cell c)
      → IsTidy k s g marks m
      → Plain k s g marks (cell (copy_cell name c m).0)
        × Intact k s g marks m (copy_cell name c m).1
  copy_cell-Intact name c m plain tidy =
      let new = g.copy_cell-is_gate name c m plain in
      (
        new,
        record {
          tidy =
              one_new_mark k s g marks m _ (cell (copy_cell name c m).0) new
                (λ y h. marks.copy_cell-only name c m y cone_annotation h) tidy;
          before = g.copy_cell-Allows name c m;
        },
      )
