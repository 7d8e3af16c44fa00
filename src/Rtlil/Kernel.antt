-- ===== src/Rtlil/Kernel.antt =====
-- RTLIL as the plugin calls it. A `Wire` or a `Cell` is a pointer to an object of the design, and
-- carries what TaMaRa never writes after the object was made: its name, its type, its width and its
-- port flags. What changes is read from the `Module`, which also holds the counter `autoidx`.
use tamara.Common.{ℕ, ◌≡◌, ◌↔◌, Bool, true, Option, List, String}

-- `RTLILAnyPtr` of util.hpp, std::variant<RTLIL::Wire *, RTLIL::Cell *>
pub data AnyPtr (W C : Type 0) : Type 0 where
  wire : W → AnyPtr W C
  cell : C → AnyPtr W C

pub record Kernel : Type 1 where
  pub Wire : Type 0
  pub Cell : Type 0
  pub SigSpec : Type 0
  pub Module : Type 0
  pub wire_name : Wire → String
  pub width : Wire → ℕ
  pub port_input : Wire → Bool
  pub port_output : Wire → Bool
  pub cell_name : Cell → String
  pub cell_type : Cell → String
  -- comparison of pointers and of signals
  pub same_wire : Wire → Wire → Bool
  pub same_cell : Cell → Cell → Bool
  pub same_signal : SigSpec → SigSpec → Bool
  pub same_wire_iff : (a b : Wire) → (same_wire a b ≡ true) ↔ (a ≡ b)
  pub same_cell_iff : (a b : Cell) → (same_cell a b ≡ true) ↔ (a ≡ b)
  pub same_signal_iff : (a b : SigSpec) → (same_signal a b ≡ true) ↔ (a ≡ b)
  -- SigSpec(Wire *), SigSpec(SigChunk(wire, offset, width)), and the readers of a SigSpec; a
  -- constant bit or chunk has no wire
  pub of_wire : Wire → SigSpec
  pub chunk : Wire → ℕ → ℕ → SigSpec
  pub is_wire : SigSpec → Bool
  pub as_wire : SigSpec → Option Wire
  pub is_bit : SigSpec → Bool
  pub as_bit_wire : SigSpec → Option Wire
  pub chunk_wires : SigSpec → List (Option Wire)
  pub size : SigSpec → ℕ
  -- CellTypes(design): the direction of the port of a cell type
  pub cell_input : String → String → Bool
  pub cell_output : String → String → Bool
  pub wires : Module → List Wire
  pub cells : Module → List Cell
  pub selected_cells : Module → List Cell
  pub is_mem_cell : Cell → Bool
  pub connections : Module → List (SigSpec × SigSpec)
  pub cell_connections : Module → Cell → List (String × SigSpec)
  pub has_attribute : Module → AnyPtr Wire Cell → String → Bool
  pub get_string_attribute : Module → AnyPtr Wire Cell → String → String
  -- `autoidx++`
  pub next_index : Module → ℕ × Module
  pub add_wire : String → ℕ → Module → Wire × Module
  pub copy_wire : String → Wire → Module → Wire × Module
  pub copy_cell : String → Cell → Module → Cell × Module
  pub add_cell : String → String → Module → Cell × Module
  pub add_logic_not : String → SigSpec → SigSpec → Module → Cell × Module
  pub add_logic_and : String → SigSpec → SigSpec → SigSpec → Module → Cell × Module
  pub add_logic_or : String → SigSpec → SigSpec → SigSpec → Module → Cell × Module
  pub add_reduce_or : String → SigSpec → SigSpec → Module → Cell × Module
  pub add_buf : String → SigSpec → SigSpec → Module → Cell × Module
  pub connect : SigSpec → SigSpec → Module → Module
  pub set_port : Cell → String → SigSpec → Module → Module
  pub set_bool_attribute : AnyPtr Wire Cell → String → Module → Module
  pub set_string_attribute : AnyPtr Wire Cell → String → String → Module → Module
