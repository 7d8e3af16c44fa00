-- ===== src/Sample/Netlist.antt =====
-- The netlist of the sample platform: it keeps what it was told to add.
use text.Mathlib.TextEquality.{eq_iff}
pub use tamara.Sample.Objects.{
  Object, object, numbered, another, Signal, whole, part, constant, same_object, same_object_iff,
  Item, same_item, same_item_iff,
}
use tamara.Sample.Objects.{
  same_signal, same_signal_iff, name_of, type_of, width_of, is_input, is_output, wire_of, is_whole,
  size_of,
}
use tamara.Rtlil.Kernel.{Kernel, wire, cell}
use tamara.Rtlil.Platform.{Platform}
use tamara.Sample.Lists.{list_set, list_map}
use tamara.Common.{
  true, ℕ, false, ◌&&◌, not, String, str_eq, ◌==◌, List, Option, [], if◌then◌else◌, ◌++◌, none,
  some, ◌∷◌, ◌||◌, is_some, ◌+◌,
}

pub data Gate : Type 0 where
  inverter : Signal → Signal → Gate
  and_gate : Signal → Signal → Signal → Gate
  or_gate : Signal → Signal → Signal → Gate
  reducer : Signal → Signal → Gate
  buffer : Signal → Signal → Gate
  joint : Signal → Signal → Gate

pub record Netlist : Type 0 where
  pub index : ℕ
  pub wires : List Object
  pub cells : List Object
  pub connections : List (Signal × Signal)
  pub ports : Object → List (String × Signal)
  pub attribute : Item → String → Option String
  pub gates : List Gate

abbrev pub empty_netlist : Netlist
empty_netlist = record {
  index = 0;
  wires = [];
  cells = [];
  connections = [];
  ports = λ _. [];
  attribute = λ _ _. none;
  gates = [];
}

abbrev pub set_mark : Item → String → String → Netlist → Netlist
set_mark x name value m = record m {
  attribute =
      λ y other. if same_item x y && str_eq name other then some value else m.attribute y other;
}

abbrev new_wire : String → ℕ → Netlist → Object × Netlist
new_wire name width m =
    let w = another m.wires (object name "" width false false) in
    (w, record m { wires = m.wires ++ w ∷ [] })

-- A new cell with its ports and its equation. The first flag of a cell says that it is such a gate.
abbrev add_gate : String → String → List (String × Signal) → Gate → Netlist → Object × Netlist
add_gate name type ports gate m =
    let c = object name type 0 true false in
    (
      c,
      record m {
        cells = m.cells ++ c ∷ [];
        ports = λ d. if same_object c d then ports else m.ports d;
        gates = gate ∷ m.gates;
      },
    )

-- a cell with no ports yet
abbrev bare_cell : String → String → Netlist → Object × Netlist
bare_cell name type m =
    let c = another m.cells (object name type 0 false false) in
    (
      c,
      record m {
        cells = m.cells ++ c ∷ [];
        ports = λ d. if same_object c d then [] else m.ports d;
      },
    )

abbrev pub replace_port : String → Signal → List (String × Signal) → List (String × Signal)
replace_port name s [] = (name, s) ∷ []
replace_port name s ((n, t) ∷ ps) =
    if str_eq n name then (n, s) ∷ ps else (n, t) ∷ replace_port name s ps

-- A copy takes the attributes of the original, and keeps those that its own name has.
abbrev pub copy_attribute :
    Item → Item → (Item → String → Option String) → Item → String → Option String
copy_attribute old new attribute x name =
    if same_item x new && not (is_some (attribute x name))
    then attribute old name
    else attribute x name

abbrev pub renamed : String → Object → Object
renamed name (object n t w i o) = object name t w i o
renamed name (numbered k o) = numbered k (renamed name o)

abbrev copy_wire_of : String → Object → Netlist → Object × Netlist
copy_wire_of name old m =
    let new = renamed name old in
    (
      new,
      record m {
        wires = m.wires ++ new ∷ [];
        attribute = copy_attribute (wire old) (wire new) m.attribute;
      },
    )

abbrev copy_cell_of : String → Object → Netlist → Object × Netlist
copy_cell_of name old m =
    let new = renamed name old in
    (
      new,
      record m {
        cells = m.cells ++ new ∷ [];
        ports = λ d. if same_object new d then m.ports old else m.ports d;
        attribute = copy_attribute (cell old) (cell new) m.attribute;
      },
    )

abbrev pub kernel : Kernel
kernel = record {
  Wire = Object;
  Cell = Object;
  SigSpec = Signal;
  Module = Netlist;
  wire_name = name_of;
  width = width_of;
  port_input = is_input;
  port_output = is_output;
  cell_name = name_of;
  cell_type = type_of;
  same_wire = same_object;
  same_cell = same_object;
  same_signal = same_signal;
  same_wire_iff = same_object_iff;
  same_cell_iff = same_object_iff;
  same_signal_iff = same_signal_iff;
  of_wire = whole;
  chunk = part;
  is_wire = is_whole;
  as_wire = wire_of;
  is_bit = λ s. size_of s == 1;
  as_bit_wire = wire_of;
  chunk_wires = λ s. wire_of s ∷ [];
  size = size_of;
  cell_input = λ type port. str_eq port "A" || (str_eq port "B" || str_eq port "D");
  cell_output = λ type port. str_eq port "Y" || str_eq port "Q";
  wires = λ m. m.wires;
  cells = λ m. m.cells;
  selected_cells = λ m. m.cells;
  is_mem_cell = λ c. str_eq (type_of c) "$mem_v2";
  connections = λ m. m.connections;
  cell_connections = λ m. m.ports;
  has_attribute = λ m x name. is_some (m.attribute x name);
  get_string_attribute = λ m x name. elim (m.attribute x name) [ none ↦ "" | some s ↦ s ];
  next_index = λ m. (m.index, record m { index = m.index + 1 });
  add_wire = new_wire;
  copy_wire = copy_wire_of;
  copy_cell = copy_cell_of;
  add_cell = bare_cell;
  add_logic_not = λ n a y. add_gate n "$logic_not" (("A", a) ∷ ("Y", y) ∷ []) (inverter a y);
  add_logic_and =
      λ n a b y. add_gate n "$logic_and" (("A", a) ∷ ("B", b) ∷ ("Y", y) ∷ []) (and_gate a b y);
  add_logic_or =
      λ n a b y. add_gate n "$logic_or" (("A", a) ∷ ("B", b) ∷ ("Y", y) ∷ []) (or_gate a b y);
  add_reduce_or = λ n a y. add_gate n "$reduce_or" (("A", a) ∷ ("Y", y) ∷ []) (reducer a y);
  add_buf = λ n a y. add_gate n "$buf" (("A", a) ∷ ("Y", y) ∷ []) (buffer a y);
  connect =
      λ l r m. record m { connections = m.connections ++ (l, r) ∷ []; gates = joint l r ∷ m.gates };
  set_port = λ c name s m. record m {
    ports = λ d. if same_object c d then replace_port name s (m.ports c) else m.ports d;
  };
  set_bool_attribute = λ x name. set_mark x name "1";
  set_string_attribute = set_mark;
}

abbrev pub platform : Platform
platform = record {
  kernel = kernel;
  ptr_set = list_set same_item same_item_iff;
  signal_set = list_set same_signal same_signal_iff;
  name_set = list_set str_eq eq_iff;
  wire_map = list_map same_item same_item_iff;
  signal_map = list_map same_item same_item_iff;
}
