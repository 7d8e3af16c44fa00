-- ===== src/Rtlil/Ports.antt =====
-- What RTLIL documents of ports and of new wires: `setPort` gives one port of one cell a new signal,
-- a new wire or connection changes no port, and `addWire` makes an object that the module did not
-- have. The reader is the first entry of the name in the list of connections.
use tamara.Common.{
  ◌↔◌, ◌⊎◌, In, ◌≡◌, ◌≢◌, String, Option, none, some, List, [], ◌∷◌, ℕ, if◌then◌else◌, str_eq, map,
}
use tamara.Rtlil.Kernel.{Kernel}

abbrev pub signal_at : {S : Type 0} → String → List (String × S) → Option S
signal_at name [] = none
signal_at name ((n, s) ∷ ports) =
    let rest = signal_at name ports in if str_eq n name then some s else rest

abbrev pub port_names : {S : Type 0} → List (String × S) → List String
port_names ports = map (λ x. x.0) ports

module _ (k : Kernel) where
  open k use {
    Cell, Module, SigSpec, Wire, cell_connections, set_port, add_wire, next_index, width, size,
    of_wire, connect, wires,
  }

  -- wires that were not in the module, no two of them the same
  abbrev pub AllNew : Module → List Wire → Type 0
  AllNew m [] = Unit {0}
  AllNew m (w ∷ ws) = (¬ In w (wires m)) × (¬ In w ws) × AllNew m ws

  pub record Ports : Type 0 where
    pub signal_at-set_port :
        (c : Cell) (name : String) (s : SigSpec) (m : Module)
        → signal_at name (cell_connections (set_port c name s m) c) ≡ some s
    pub signal_at-set_port_name :
        (c : Cell) (name other : String) (s : SigSpec) (m : Module)
        → name ≢ other
        → signal_at other (cell_connections (set_port c name s m) c)
          ≡ signal_at other (cell_connections m c)
    pub set_port-other :
        (c d : Cell) (name : String) (s : SigSpec) (m : Module)
        → c ≢ d
        → cell_connections (set_port c name s m) d ≡ cell_connections m d
    pub add_wire-ports :
        (name : String) (n : ℕ) (m : Module) (c : Cell)
        → cell_connections (add_wire name n m).1 c ≡ cell_connections m c
    pub next_index-ports :
        (m : Module) (c : Cell) → cell_connections (next_index m).1 c ≡ cell_connections m c
    pub connect-ports :
        (l r : SigSpec) (m : Module) (c : Cell)
        → cell_connections (connect l r m) c ≡ cell_connections m c
    pub width-new_wire : (name : String) (n : ℕ) (m : Module) → width (add_wire name n m).0 ≡ n
    -- a port that is there keeps its place in the list
    pub port_names-set_port :
        (c : Cell) (name : String) (s old : SigSpec) (m : Module)
        → signal_at name (cell_connections m c) ≡ some old
        → port_names (cell_connections (set_port c name s m) c) ≡ port_names (cell_connections m c)
    pub size-of_wire : (w : Wire) → size (of_wire w) ≡ width w
    pub add_wire-new : (name : String) (n : ℕ) (m : Module) → ¬ In (add_wire name n m).0 (wires m)
    pub add_wire-wires :
        (name : String) (n : ℕ) (m : Module) (w : Wire)
        → In w (wires (add_wire name n m).1) ↔ (In w (wires m) ⊎ ((add_wire name n m).0 ≡ w))
    pub next_index-wires : (m : Module) → wires (next_index m).1 ≡ wires m
    pub set_port-wires :
        (c : Cell) (name : String) (s : SigSpec) (m : Module)
        → wires (set_port c name s m) ≡ wires m
