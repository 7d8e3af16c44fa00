-- ===== src/Sample/Laws.antt =====
-- The laws of attributes and ports on the sample netlist.
use text.Mathlib.TextEquality.{eq_iff}
use tamara.Common.{
  In-snoc, ◌∷◌, [], List, String, refl, Option, ◌≢◌, is_some, ◌≡◌, true, arith, some, false,
}
use tamara.Rtlil.Attributes.{Attributes, Has, Copies}
use tamara.Sample.Objects.{name_of, another-new}
use tamara.Rtlil.NewCells.{NewCells}
use tamara.Rtlil.Ports.{Ports, signal_at, port_names}
use tamara.Sample.Netlist.{
  kernel, Netlist, Item, Object, Signal, copy_attribute, replace_port, same_object_iff, set_mark,
  same_item_iff, renamed, object, numbered, another,
}

pub set-Has :
    (x : Item) (name value : String) (m : Netlist) → Has kernel (set_mark x name value m) x name
set-Has x name value m = ground (arith, same_item_iff x x, eq_iff name name)

pub set-keeps :
    (x : Item) (name value : String) (m : Netlist) (y : Item) (other : String)
    → Has kernel m y other
    → Has kernel (set_mark x name value m) y other
set-keeps x name value m y other h = ground arith

pub copy-keeps :
    (old new : Item) (attribute : Item → String → Option String) (y : Item) (other : String)
    → is_some (attribute y other) ≡ true
    → is_some (copy_attribute old new attribute y other) ≡ true
copy-keeps old new attribute y other h = ground arith

abbrev pub attributes : Attributes kernel
attributes = record {
  set_bool_attribute-Has = λ x name m. set-Has x name "1" m;
  set_string_attribute-Has = set-Has;
  set_bool_attribute-keeps = λ x name m. set-keeps x name "1" m;
  set_string_attribute-keeps = set-keeps;
  copy_wire-keeps = λ name w m y other h. copy-keeps _ _ m.attribute y other h;
  copy_cell-keeps = λ name c m y other h. copy-keeps _ _ m.attribute y other h;
}

pub renamed_name : (name : String) (o : Object) → name_of (renamed name o) ≡ name
renamed_name name (object n t w i out) = refl
renamed_name name (numbered k o) = renamed_name name o

abbrev pub copies : Copies kernel
copies = record {
  copy_wire-name = λ name w m. renamed_name name w;
  copy_cell-name = λ name c m. renamed_name name c;
}

replace_port-at :
    (name : String) (s : Signal) (ports : List (String × Signal))
    → signal_at name (replace_port name s ports) ≡ some s
replace_port-at name s [] = ground (arith, eq_iff name name)
replace_port-at name s ((n, t) ∷ ports) =
    ground (arith, eq_iff n name, replace_port-at name s ports)

replace_port-other :
    (name other : String) (s : Signal) (ports : List (String × Signal))
    → name ≢ other
    → signal_at other (replace_port name s ports) ≡ signal_at other ports
replace_port-other name other s [] ne = ground (arith, eq_iff name other)
replace_port-other name other s ((n, t) ∷ ports) ne =
    ground (arith, eq_iff n name, eq_iff n other, replace_port-other name other s ports ne)

abbrev ports_after : Object → String → Signal → Netlist → Object → List (String × Signal)
ports_after c name s m d = kernel.cell_connections (kernel.set_port c name s m) d

pub set_port-at :
    (c : Object) (name : String) (s : Signal) (m : Netlist)
    → signal_at name (ports_after c name s m c) ≡ some s
set_port-at c name s m = rw ((same_object_iff c c).1 refl) (replace_port-at name s (m.ports c))

pub set_port-name :
    (c : Object) (name other : String) (s : Signal) (m : Netlist)
    → name ≢ other
    → signal_at other (ports_after c name s m c) ≡ signal_at other (m.ports c)
set_port-name c name other s m ne =
    rw ((same_object_iff c c).1 refl) (replace_port-other name other s (m.ports c) ne)

pub set_port-cell :
    (c d : Object) (name : String) (s : Signal) (m : Netlist)
    → c ≢ d
    → ports_after c name s m d ≡ m.ports d
set_port-cell c d name s m ne = ground (arith, same_object_iff c d)

replace_port-names :
    (name : String) (s old : Signal) (ports : List (String × Signal))
    → signal_at name ports ≡ some old
    → port_names (replace_port name s ports) ≡ port_names ports
replace_port-names name s old [] there = cc
replace_port-names name s old ((n, t) ∷ ports) there =
    ground (arith, eq_iff n name, replace_port-names name s old ports)

pub set_port-names :
    (c : Object) (name : String) (s old : Signal) (m : Netlist)
    → signal_at name (m.ports c) ≡ some old
    → port_names (ports_after c name s m c) ≡ port_names (m.ports c)
set_port-names c name s old m there =
    rw ((same_object_iff c c).1 refl) (replace_port-names name s old (m.ports c) there)

abbrev pub port_laws : Ports kernel
port_laws = record {
  signal_at-set_port = set_port-at;
  signal_at-set_port_name = set_port-name;
  set_port-other = set_port-cell;
  add_wire-ports = λ name n m c. refl;
  next_index-ports = λ m c. refl;
  connect-ports = λ l r m c. refl;
  width-new_wire = λ name n m. refl;
  port_names-set_port = set_port-names;
  size-of_wire = λ w. refl;
  add_wire-new = λ name n m. another-new (object name "" n false false) m.wires;
  add_wire-wires = λ name n m w. In-snoc w _ m.wires;
  next_index-wires = λ m. refl;
  set_port-wires = λ c name s m. refl;
}

pub add_cell-ports :
    (name type : String) (m : Netlist) (d : Object)
    → (kernel.add_cell name type m).0 ≢ d
    → kernel.cell_connections (kernel.add_cell name type m).1 d ≡ kernel.cell_connections m d
add_cell-ports name type m d apart =
    ground (arith, same_object_iff (another m.cells (object name type 0 false false)) d)

abbrev pub new_cells : NewCells kernel
new_cells = record {
  cell_type-add_cell = λ name type m. refl;
  add_cell-ports = add_cell-ports;
  set_bool_attribute-ports = λ x name m d. refl;
  add_cell-new = λ name type m. another-new (object name type 0 false false) m.cells;
  add_cell-cells = λ name type m d. In-snoc d _ m.cells;
  next_index-cells = λ m. refl;
  set_port-cells = λ c name s m. refl;
  set_bool_attribute-cells = λ x name m. refl;
}
