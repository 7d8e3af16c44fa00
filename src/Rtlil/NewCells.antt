-- ===== src/Rtlil/NewCells.antt =====
-- What RTLIL documents of `addCell` and of attributes: the new cell was not in the module
-- before, has its type, and the ports of the other cells stay.
use tamara.Common.{◌≡◌, ◌≢◌, ◌↔◌, ◌⊎◌, In, String}
use tamara.Rtlil.Kernel.{AnyPtr, Kernel}

module _ (k : Kernel) where
  open k use {
    Wire, Cell, SigSpec, Module, add_cell, cell_type, cell_connections, set_bool_attribute, cells,
    next_index, set_port,
  }

  pub record NewCells : Type 0 where
    pub cell_type-add_cell :
        (name type : String) (m : Module) → cell_type (add_cell name type m).0 ≡ type
    pub add_cell-ports :
        (name type : String) (m : Module) (d : Cell)
        → (add_cell name type m).0 ≢ d
        → cell_connections (add_cell name type m).1 d ≡ cell_connections m d
    pub set_bool_attribute-ports :
        (x : AnyPtr Wire Cell) (name : String) (m : Module) (d : Cell)
        → cell_connections (set_bool_attribute x name m) d ≡ cell_connections m d
    pub add_cell-new : (name type : String) (m : Module) → ¬ In (add_cell name type m).0 (cells m)
    pub add_cell-cells :
        (name type : String) (m : Module) (d : Cell)
        → In d (cells (add_cell name type m).1) ↔ (In d (cells m) ⊎ ((add_cell name type m).0 ≡ d))
    pub next_index-cells : (m : Module) → cells (next_index m).1 ≡ cells m
    pub set_port-cells :
        (c : Cell) (name : String) (s : SigSpec) (m : Module)
        → cells (set_port c name s m) ≡ cells m
    pub set_bool_attribute-cells :
        (x : AnyPtr Wire Cell) (name : String) (m : Module)
        → cells (set_bool_attribute x name m) ≡ cells m
