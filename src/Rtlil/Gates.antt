-- ===== src/Rtlil/Gates.antt =====
-- What else RTLIL documents of a netlist that grows: which cells the plugin adds as gates, what
-- stays of the meaning of a netlist when objects are copied, marked and given new ports, and that
-- an object gets an attribute only where one is set.
use tamara.Common.{◌≡◌, ◌⊎◌, false, Bool, String, ℕ}
use tamara.Rtlil.Kernel.{AnyPtr, Kernel, wire, cell}
use tamara.Rtlil.Circuit.{Circuit}
use tamara.Rtlil.Attributes.{Has}

module _ (k : Kernel) (s : Circuit k) where
  open k use {
    Wire, Cell, SigSpec, Module, copy_wire, copy_cell, add_buf, connect, set_port,
    set_string_attribute,
  }
  open s use {Allows}

  -- `is_gate` says of a cell whether addLogicNot, addLogicAnd, addLogicOr, addReduceOr or addBuf
  -- made it. `Allows` speaks of these cells and of the connections, so that a new port of another
  -- cell takes nothing away.
  pub record Gates : Type 0 where
    pub is_gate : Cell → Bool
    pub copy_cell-is_gate :
        (name : String) (c : Cell) (m : Module)
        → is_gate c ≡ false
        → is_gate (copy_cell name c m).0 ≡ false
    pub set_port-Allows :
        (c : Cell) (port : String) (signal : SigSpec) (m : Module) (v : Wire → ℕ → Bool)
        → is_gate c ≡ false
        → Allows (set_port c port signal m) v
        → Allows m v
    pub copy_wire-Allows :
        (name : String) (w : Wire) (m : Module) (v : Wire → ℕ → Bool)
        → Allows (copy_wire name w m).1 v
        → Allows m v
    pub copy_cell-Allows :
        (name : String) (c : Cell) (m : Module) (v : Wire → ℕ → Bool)
        → Allows (copy_cell name c m).1 v
        → Allows m v
    pub set_string_attribute-Allows :
        (x : AnyPtr Wire Cell) (name value : String) (m : Module) (v : Wire → ℕ → Bool)
        → Allows (set_string_attribute x name value m) v
        → Allows m v
    pub connect-before :
        (l r : SigSpec) (m : Module) (v : Wire → ℕ → Bool) → Allows (connect l r m) v → Allows m v
    pub add_buf-before :
        (name : String) (a y : SigSpec) (m : Module) (v : Wire → ℕ → Bool)
        → Allows (add_buf name a y m).1 v
        → Allows m v

module _ (k : Kernel) where
  open k use {
    Wire, Cell, SigSpec, Module, next_index, add_wire, copy_wire, copy_cell, add_logic_not,
    add_logic_and, add_logic_or, add_reduce_or, add_buf, connect, set_port, set_bool_attribute,
    set_string_attribute, selected_cells,
  }

  -- who has an attribute after an operation had it before, or was given it
  pub record Marks : Type 0 where
    pub set_bool_attribute-only :
        (x : AnyPtr Wire Cell) (name : String) (m : Module) (y : AnyPtr Wire Cell) (other : String)
        → Has k (set_bool_attribute x name m) y other
        → Has k m y other ⊎ (x ≡ y) × (name ≡ other)
    pub set_string_attribute-only :
        (x : AnyPtr Wire Cell) (name value : String) (m : Module) (y : AnyPtr Wire Cell)
        (other : String)
        → Has k (set_string_attribute x name value m) y other
        → Has k m y other ⊎ (x ≡ y) × (name ≡ other)
    pub copy_wire-only :
        (name : String) (w : Wire) (m : Module) (y : AnyPtr Wire Cell) (other : String)
        → Has k (copy_wire name w m).1 y other
        → Has k m y other ⊎ (wire (copy_wire name w m).0 ≡ y)
    pub copy_cell-only :
        (name : String) (c : Cell) (m : Module) (y : AnyPtr Wire Cell) (other : String)
        → Has k (copy_cell name c m).1 y other
        → Has k m y other ⊎ (cell (copy_cell name c m).0 ≡ y)
    pub next_index-only :
        (m : Module) (y : AnyPtr Wire Cell) (other : String)
        → Has k (next_index m).1 y other
        → Has k m y other
    pub add_wire-only :
        (name : String) (n : ℕ) (m : Module) (y : AnyPtr Wire Cell) (other : String)
        → Has k (add_wire name n m).1 y other
        → Has k m y other
    pub add_logic_not-only :
        (name : String) (a out : SigSpec) (m : Module) (y : AnyPtr Wire Cell) (other : String)
        → Has k (add_logic_not name a out m).1 y other
        → Has k m y other
    pub add_logic_and-only :
        (name : String) (a b out : SigSpec) (m : Module) (y : AnyPtr Wire Cell) (other : String)
        → Has k (add_logic_and name a b out m).1 y other
        → Has k m y other
    pub add_logic_or-only :
        (name : String) (a b out : SigSpec) (m : Module) (y : AnyPtr Wire Cell) (other : String)
        → Has k (add_logic_or name a b out m).1 y other
        → Has k m y other
    pub add_reduce_or-only :
        (name : String) (a out : SigSpec) (m : Module) (y : AnyPtr Wire Cell) (other : String)
        → Has k (add_reduce_or name a out m).1 y other
        → Has k m y other
    pub add_buf-only :
        (name : String) (a out : SigSpec) (m : Module) (y : AnyPtr Wire Cell) (other : String)
        → Has k (add_buf name a out m).1 y other
        → Has k m y other
    pub connect-only :
        (l r : SigSpec) (m : Module) (y : AnyPtr Wire Cell) (other : String)
        → Has k (connect l r m) y other
        → Has k m y other
    pub set_port-only :
        (c : Cell) (port : String) (signal : SigSpec) (m : Module) (y : AnyPtr Wire Cell)
        (other : String)
        → Has k (set_port c port signal m) y other
        → Has k m y other
    pub set_bool_attribute-selected :
        (x : AnyPtr Wire Cell) (name : String) (m : Module)
        → selected_cells (set_bool_attribute x name m) ≡ selected_cells m
