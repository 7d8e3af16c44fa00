-- ===== src/Sample/Objects.antt =====
-- The wires, cells and signals of the sample platform.
use text.Mathlib.TextEquality.{eq_iff}
use tamara.Rtlil.Kernel.{AnyPtr, wire, cell}
use tamara.Common.{
  ℕ, suc, List, [], ◌∷◌, In, ◌<◌, ltb, if◌then◌else◌, ◌≡◌, ◌↔◌, Bool, true, false, ◌&&◌, not,
  String, str_eq, arith, ◌==◌, Option, none, some,
}

-- a wire or a cell: its name, its type, its width and its two port flags; a number tells an object
-- that was added from the others
pub data Object : Type 0 where
  object : String → String → ℕ → Bool → Bool → Object
  numbered : ℕ → Object → Object

abbrev same_flag : Bool → Bool → Bool
same_flag true b = b
same_flag false b = not b

abbrev pub same_object : Object → Object → Bool
same_object (object n t w i o) (object n' t' w' i' o') =
    str_eq n n' && (str_eq t t' && (w == w' && (same_flag i i' && same_flag o o')))
same_object (numbered j a) (numbered k b) = j == k && same_object a b
same_object _ _ = false

pub same_object_iff : (a b : Object) → (same_object a b ≡ true) ↔ (a ≡ b)
same_object_iff (object n t w i o) (object n' t' w' i' o') =
    ground (arith, eq_iff n n', eq_iff t t')
same_object_iff (numbered j a) (numbered k b) = ground (arith, same_object_iff a b)
same_object_iff a b = ground arith

-- one more than the greatest number of these objects
abbrev pub unused : List Object → ℕ
unused [] = 0
unused (numbered k _ ∷ os) = let rest = unused os in if ltb k rest then rest else suc k
unused (object _ _ _ _ _ ∷ os) = unused os

-- an object that is none of these
abbrev pub another : List Object → Object → Object
another os o = numbered (unused os) o

unused-greater : (k : ℕ) (o : Object) (os : List Object) → In (numbered k o) os → k < unused os
unused-greater k o [] at = absurd at
unused-greater k o (numbered j a ∷ os) at = ground (arith, unused-greater k o os)
unused-greater k o (object n t w i out ∷ os) at = ground (arith, unused-greater k o os)

pub another-new : (o : Object) (os : List Object) → ¬ In (another os o) os
another-new o os at = let less = unused-greater (unused os) o os at in omega (arith, less)

pub data Signal : Type 0 where
  whole : Object → Signal
  part : Object → ℕ → ℕ → Signal
  constant : ℕ → Signal

abbrev pub same_signal : Signal → Signal → Bool
same_signal (whole a) (whole b) = same_object a b
same_signal (part a i n) (part b j m) = same_object a b && (i == j && n == m)
same_signal (constant n) (constant m) = n == m
same_signal _ _ = false

pub same_signal_iff : (a b : Signal) → (same_signal a b ≡ true) ↔ (a ≡ b)
same_signal_iff (whole a) (whole b) = ground (arith, same_object_iff a b)
same_signal_iff (part a i n) (part b j m) = ground (arith, same_object_iff a b)
same_signal_iff (constant n) (constant m) = ground arith
same_signal_iff a b = ground arith

abbrev pub Item : Type 0
Item = AnyPtr Object Object

abbrev pub name_of : Object → String
name_of (object n t w i o) = n
name_of (numbered k o) = name_of o

abbrev pub type_of : Object → String
type_of (object n t w i o) = t
type_of (numbered k o) = type_of o

abbrev pub width_of : Object → ℕ
width_of (object n t w i o) = w
width_of (numbered k o) = width_of o

abbrev pub is_input : Object → Bool
is_input (object n t w i o) = i
is_input (numbered k o) = is_input o

abbrev pub is_output : Object → Bool
is_output (object n t w i o) = o
is_output (numbered k o) = is_output o

abbrev pub wire_of : Signal → Option Object
wire_of (whole a) = some a
wire_of (part a i n) = some a
wire_of (constant n) = none

abbrev pub is_whole : Signal → Bool
is_whole (whole a) = true
is_whole _ = false

abbrev pub size_of : Signal → ℕ
size_of (whole a) = width_of a
size_of (part a i n) = n
size_of (constant n) = n

abbrev pub same_item : Item → Item → Bool
same_item (wire a) (wire b) = same_object a b
same_item (cell a) (cell b) = same_object a b
same_item _ _ = false

pub same_item_iff : (a b : Item) → (same_item a b ≡ true) ↔ (a ≡ b)
same_item_iff (wire a) (wire b) = ground (arith, same_object_iff a b)
same_item_iff (cell a) (cell b) = ground (arith, same_object_iff a b)
same_item_iff a b = ground arith
