-- ===== src/Sample/Gates.antt =====
-- The meaning of the sample netlist.
use tamara.Common.{ℕ, ◌≡◌, refl, Bool, not, ◌&&◌, ◌||◌, List, [], ◌∷◌, length}
use tamara.Rtlil.Circuit.{Circuit, bits_from, any_bit, zero_extend}
use tamara.Sample.Netlist.{
  Object, Signal, whole, part, constant, Gate, inverter, and_gate, or_gate, reducer, buffer, joint,
  kernel,
}

abbrev Values : Type 0
Values = Object → ℕ → Bool

abbrev value_of : Values → Signal → List Bool
value_of v (whole w) = bits_from v w 0 (kernel.width w)
value_of v (part a i n) = bits_from v a i n
value_of v (constant n) = zero_extend n Bool.false

abbrev Obeys : Values → Gate → Type 0
Obeys v (inverter a y) =
    value_of v y ≡ zero_extend (length (value_of v y)) (not (any_bit (value_of v a)))
Obeys v (and_gate a b y) =
    value_of v y
    ≡ zero_extend (length (value_of v y)) (any_bit (value_of v a) && any_bit (value_of v b))
Obeys v (or_gate a b y) =
    value_of v y
    ≡ zero_extend (length (value_of v y)) (any_bit (value_of v a) || any_bit (value_of v b))
Obeys v (reducer a y) = value_of v y ≡ zero_extend (length (value_of v y)) (any_bit (value_of v a))
Obeys v (buffer a y) = length (value_of v a) ≡ length (value_of v y) → value_of v y ≡ value_of v a
Obeys v (joint l r) = length (value_of v l) ≡ length (value_of v r) → value_of v l ≡ value_of v r

abbrev ObeysAll : Values → List Gate → Type 0
ObeysAll v [] = Unit {0}
ObeysAll v (g ∷ gs) = ObeysAll v gs × Obeys v g

pub value_of-whole :
    (v : Values) (w : Object) → value_of v (whole w) ≡ bits_from v w 0 (kernel.width w)
value_of-whole v w = refl

abbrev pub circuit : Circuit kernel
circuit = record {
  Allows = λ m v. ObeysAll v m.gates;
  value = value_of;
  value-of_wire = value_of-whole;
  value-chunk = λ v w i n. refl;
  width-add_wire = λ s n m. refl;
  next_index-Allows = λ m v h. h;
  add_wire-Allows = λ s n m v h. h;
  set_bool_attribute-Allows = λ p s m v h. h;
  add_logic_not-Allows = λ s a y m v h. h;
  add_logic_and-Allows = λ s a b y m v h. h;
  add_logic_or-Allows = λ s a b y m v h. h;
  add_reduce_or-Allows = λ s a y m v h. h;
  add_buf-Allows = λ s a y m v same h. (h.0, h.1 same);
  connect-Allows = λ l r m v same h. (h.0, h.1 same);
}
