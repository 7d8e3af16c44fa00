-- ===== src/Sample/Growth.antt =====
-- The laws of a growing netlist on the sample netlist.
use text.Mathlib.TextEquality.{eq_iff}
use tamara.Common.{false, refl, String, ◌≡◌, ◌⊎◌, true, Option, is_some, arith}
use tamara.Rtlil.Attributes.{Has}
use tamara.Rtlil.Gates.{Gates, Marks}
use tamara.Sample.Gates.{circuit}
use tamara.Sample.Objects.{is_input}
use tamara.Sample.Netlist.{
  kernel, Netlist, Item, Object, object, numbered, copy_attribute, renamed, set_mark, same_item_iff,
}

pub renamed-is_input :
    (name : String) (c : Object) → is_input c ≡ false → is_input (renamed name c) ≡ false
renamed-is_input name (object n t w i o) plain = plain
renamed-is_input name (numbered k o) plain = renamed-is_input name o plain

abbrev pub gates : Gates kernel circuit
gates = record {
  is_gate = is_input;
  copy_cell-is_gate = λ name c m. renamed-is_input name c;
  set_port-Allows = λ c port signal m v plain h. h;
  copy_wire-Allows = λ name w m v h. h;
  copy_cell-Allows = λ name c m v h. h;
  set_string_attribute-Allows = λ x name value m v h. h;
  connect-before = λ l r m v h. h.0;
  add_buf-before = λ name a y m v h. h.0;
}

pub set_mark-only :
    (x : Item) (name value : String) (m : Netlist) (y : Item) (other : String)
    → Has kernel (set_mark x name value m) y other
    → Has kernel m y other ⊎ (x ≡ y) × (name ≡ other)
set_mark-only x name value m y other h = ground (arith, same_item_iff x y, eq_iff name other)

pub copy-only :
    (old new : Item) (attribute : Item → String → Option String) (y : Item) (other : String)
    → is_some (copy_attribute old new attribute y other) ≡ true
    → (is_some (attribute y other) ≡ true) ⊎ (new ≡ y)
copy-only old new attribute y other h = ground (arith, same_item_iff y new)

abbrev pub marks : Marks kernel
marks = record {
  set_bool_attribute-only = λ x name m. set_mark-only x name "1" m;
  set_string_attribute-only = set_mark-only;
  copy_wire-only = λ name w m y other. copy-only _ _ m.attribute y other;
  copy_cell-only = λ name c m y other. copy-only _ _ m.attribute y other;
  next_index-only = λ m y other h. h;
  add_wire-only = λ name n m y other h. h;
  add_logic_not-only = λ name a out m y other h. h;
  add_logic_and-only = λ name a b out m y other h. h;
  add_logic_or-only = λ name a b out m y other h. h;
  add_reduce_or-only = λ name a out m y other h. h;
  add_buf-only = λ name a out m y other h. h;
  connect-only = λ l r m y other h. h;
  set_port-only = λ c port signal m y other h. h;
  set_bool_attribute-selected = λ x name m. refl;
}
