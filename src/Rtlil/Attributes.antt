-- ===== src/Rtlil/Attributes.antt =====
-- What RTLIL documents of attributes: one that was set is there, and making a wire or a cell, or
-- setting another attribute, removes none.
use tamara.Common.{◌≡◌, true, String}
use tamara.Rtlil.Kernel.{AnyPtr, Kernel}

module _ (k : Kernel) where
  open k use {
    Wire, Cell, Module, has_attribute, set_bool_attribute, set_string_attribute, copy_wire,
    copy_cell, wire_name, cell_name,
  }

  abbrev pub Has : Module → AnyPtr Wire Cell → String → Type 0
  Has m x name = has_attribute m x name ≡ true

  pub record Attributes : Type 0 where
    pub set_bool_attribute-Has :
        (x : AnyPtr Wire Cell) (name : String) (m : Module)
        → Has (set_bool_attribute x name m) x name
    pub set_string_attribute-Has :
        (x : AnyPtr Wire Cell) (name value : String) (m : Module)
        → Has (set_string_attribute x name value m) x name
    pub set_bool_attribute-keeps :
        (x : AnyPtr Wire Cell) (name : String) (m : Module) (y : AnyPtr Wire Cell) (other : String)
        → Has m y other
        → Has (set_bool_attribute x name m) y other
    pub set_string_attribute-keeps :
        (x : AnyPtr Wire Cell) (name value : String) (m : Module) (y : AnyPtr Wire Cell)
        (other : String)
        → Has m y other
        → Has (set_string_attribute x name value m) y other
    pub copy_wire-keeps :
        (name : String) (w : Wire) (m : Module) (y : AnyPtr Wire Cell) (other : String)
        → Has m y other
        → Has (copy_wire name w m).1 y other
    pub copy_cell-keeps :
        (name : String) (c : Cell) (m : Module) (y : AnyPtr Wire Cell) (other : String)
        → Has m y other
        → Has (copy_cell name c m).1 y other

  -- a copy has the name that it was made with
  pub record Copies : Type 0 where
    pub copy_wire-name :
        (name : String) (w : Wire) (m : Module) → wire_name (copy_wire name w m).0 ≡ name
    pub copy_cell-name :
        (name : String) (c : Cell) (m : Module) → cell_name (copy_cell name c m).0 ≡ name
