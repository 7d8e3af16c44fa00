-- ===== src/Rtlil/Circuit.antt =====
-- The meaning of a netlist: which values of its wires it allows. The laws are the documented
-- behaviour of the cells that the voter uses (Yosys' internal cell library) and of `connect`.
use tamara.Common.{
  ℕ, zero, suc, ◌+◌, ◌≡◌, Bool, false, not, ◌&&◌, ◌||◌, List, [], ◌∷◌, String, length,
}
use tamara.Rtlil.Kernel.{AnyPtr, Kernel}

-- the bits of a wire from `from` on, `n` of them
abbrev pub bits_from : {W : Type 0} → (W → ℕ → Bool) → W → ℕ → ℕ → List Bool
bits_from v w from zero = []
bits_from v w from (suc n) = v w from ∷ bits_from v w (from + 1) n

-- the value of a signal as a condition: whether one of its bits is set
abbrev pub any_bit : List Bool → Bool
any_bit [] = false
any_bit (b ∷ bs) = b || any_bit bs

-- a one-bit result on an output port of `n` bits
abbrev pub zero_extend : ℕ → Bool → List Bool
zero_extend zero b = []
zero_extend (suc n) b = b ∷ zero_extend n false

module _ (k : Kernel) where
  open k use {
    Wire, Cell, SigSpec, Module, width, of_wire, chunk, next_index, add_wire, add_logic_not,
    add_logic_and, add_logic_or, add_reduce_or, add_buf, connect, set_bool_attribute,
  }

  pub record Circuit : Type 1 where
    pub Allows : Module → (Wire → ℕ → Bool) → Type 0
    pub value : (Wire → ℕ → Bool) → SigSpec → List Bool
    pub value-of_wire :
        (v : Wire → ℕ → Bool) (w : Wire) → value v (of_wire w) ≡ bits_from v w 0 (width w)
    pub value-chunk :
        (v : Wire → ℕ → Bool) (w : Wire) (i n : ℕ) → value v (chunk w i n) ≡ bits_from v w i n
    pub width-add_wire : (s : String) (n : ℕ) (m : Module) → width (add_wire s n m).0 ≡ n
    -- A netlist with one more object allows no more values. A cell adds its equation: a result of
    -- one bit is extended by zeros to the width of the output.
    pub next_index-Allows :
        (m : Module) (v : Wire → ℕ → Bool) → Allows (next_index m).1 v → Allows m v
    pub add_wire-Allows :
        (s : String) (n : ℕ) (m : Module) (v : Wire → ℕ → Bool)
        → Allows (add_wire s n m).1 v
        → Allows m v
    pub set_bool_attribute-Allows :
        (p : AnyPtr Wire Cell) (s : String) (m : Module) (v : Wire → ℕ → Bool)
        → Allows (set_bool_attribute p s m) v
        → Allows m v
    pub add_logic_not-Allows :
        (s : String) (a y : SigSpec) (m : Module) (v : Wire → ℕ → Bool)
        → Allows (add_logic_not s a y m).1 v
        → Allows m v × (value v y ≡ zero_extend (length (value v y)) (not (any_bit (value v a))))
    pub add_logic_and-Allows :
        (s : String) (a b y : SigSpec) (m : Module) (v : Wire → ℕ → Bool)
        → Allows (add_logic_and s a b y m).1 v
        → Allows m v
          × (value v y
              ≡ zero_extend (length (value v y)) (any_bit (value v a) && any_bit (value v b)))
    pub add_logic_or-Allows :
        (s : String) (a b y : SigSpec) (m : Module) (v : Wire → ℕ → Bool)
        → Allows (add_logic_or s a b y m).1 v
        → Allows m v
          × (value v y
              ≡ zero_extend (length (value v y)) (any_bit (value v a) || any_bit (value v b)))
    pub add_reduce_or-Allows :
        (s : String) (a y : SigSpec) (m : Module) (v : Wire → ℕ → Bool)
        → Allows (add_reduce_or s a y m).1 v
        → Allows m v × (value v y ≡ zero_extend (length (value v y)) (any_bit (value v a)))
    pub add_buf-Allows :
        (s : String) (a y : SigSpec) (m : Module) (v : Wire → ℕ → Bool)
        → length (value v a) ≡ length (value v y)
        → Allows (add_buf s a y m).1 v
        → Allows m v × (value v y ≡ value v a)
    pub connect-Allows :
        (l r : SigSpec) (m : Module) (v : Wire → ℕ → Bool)
        → length (value v l) ≡ length (value v r)
        → Allows (connect l r m) v
        → Allows m v × (value v l ≡ value v r)
