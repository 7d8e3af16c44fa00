-- ===== src/Voter/Gates.antt =====
-- The single gates of the voter, on wires of one bit.
use tamara.Common.{
  ℕ, ◌≡◌, ap, ◌∙◌, not, ◌&&◌, ◌||◌, [], ◌∷◌, String, call, ◌>>=◌, M, Yields, ◌>>◌, and_then, yields,
  seq, arith, Bool,
}
use tamara.Rtlil.Kernel.{Kernel}
use tamara.Rtlil.Circuit.{Circuit, bits_from}
use tamara.Util.Names.{tamara_id}
use tamara.Voter.{make_voter_wire, make_voter_cell, voter_wire, voter_not, voter_and, voter_or}

module _ (k : Kernel) (s : Circuit k) (v : Kernel.Wire k → ℕ → Bool) where
  open k use {Wire, Cell, SigSpec, Module, width, of_wire}
  open s use {Allows, value}

  -- nothing but the equations `E` is added
  abbrev pub Adds : Module → Type 0 → Module → Type 0
  Adds m E m' = Allows m' v → Allows m v × E

  abbrev pub IsBit : Wire → Type 0
  IsBit w = width w ≡ 1

  pub value_bit : (w : Wire) → IsBit w → value v (of_wire w) ≡ v w 0 ∷ []
  value_bit w h = s.value-of_wire v w ∙ ap (bits_from v w 0) h

  pub tamara_id-Allows :
      (label : String) (m : Module)
      → Yields (λ _ m'. Allows m' v → Allows m v) (tamara_id k label m)
  unfolding tamara_id
  tamara_id-Allows label m = yields (s.next_index-Allows m v)

  pub voter_wire-Allows :
      (label : String) (m : Module)
      → Yields (λ w m'. IsBit w × (Allows m' v → Allows m v)) (voter_wire k label m)
  unfolding voter_wire make_voter_wire
  voter_wire-Allows label m = seq (tamara_id-Allows label m) λ name m₁ h₁. yields (
    s.width-add_wire name 1 m₁,
    λ a. h₁ (s.add_wire-Allows name 1 m₁ v (s.set_bool_attribute-Allows _ _ _ v a)),
  )

  gate-Adds :
      (label : String) (f : String → Module → Cell × Module) (E : Type 0) (m : Module)
      → ((name : String) (m' : Module) → Allows (f name m').1 v → Allows m' v × E)
      → Yields
          (λ _. Adds m E)
          ((do name ← tamara_id k label; c ← call (f name); make_voter_cell k c) m)
  unfolding make_voter_cell
  gate-Adds label f E m adds = seq (tamara_id-Allows label m) λ name m₁ h₁. yields (λ a.
      let (before, e) = adds name m₁ (s.set_bool_attribute-Allows _ _ _ v a) in (h₁ before, e))

  pub voter_not-Adds :
      (number : String) (a y : Wire) (m : Module)
      → IsBit a
      → IsBit y
      → Yields (λ _. Adds m (v y 0 ≡ not (v a 0))) (voter_not k number a y m)
  unfolding voter_not
  voter_not-Adds number a y m ha hy = gate-Adds _ _ _ m λ name m' h.
      let (before, e) = s.add_logic_not-Allows name (of_wire a) (of_wire y) m' v h in
      (before, ground (arith, value_bit a ha, value_bit y hy))

  module _ (label : String) (a b y : Wire) (m : Module) where
    pub voter_and-Adds :
        IsBit a
        → IsBit b
        → IsBit y
        → Yields (λ _. Adds m (v y 0 ≡ (v a 0 && v b 0))) (voter_and k label a b y m)
    unfolding voter_and
    voter_and-Adds ha hb hy = gate-Adds _ _ _ m λ name m' h.
        let (before, e) = s.add_logic_and-Allows name (of_wire a) (of_wire b) (of_wire y) m' v h in
        (before, ground (arith, value_bit a ha, value_bit b hb, value_bit y hy))

    pub voter_or-Adds :
        IsBit a
        → IsBit b
        → IsBit y
        → Yields (λ _. Adds m (v y 0 ≡ (v a 0 || v b 0))) (voter_or k label a b y m)
    unfolding voter_or
    voter_or-Adds ha hb hy = gate-Adds _ _ _ m λ name m' h.
        let (before, e) = s.add_logic_or-Allows name (of_wire a) (of_wire b) (of_wire y) m' v h in
        (before, ground (arith, value_bit a ha, value_bit b hb, value_bit y hy))

  -- A WIRE with the gate that drives it, and what follows them. `F` is what is known so far.
  pub wire_and_gate :
      {B : Type 0} {Q : B → Module → Type 0} (label : String) {gate : Wire → M Module (Unit {0})}
      {rest : Wire → M Module B} {E : Wire → Type 0} {start m : Module} {F : Type 0}
      → Adds start F m
      → ((y : Wire) (m₁ : Module) → IsBit y → Yields (λ _. Adds m₁ (E y)) (gate y m₁))
      → ((y : Wire) (m₂ : Module) → IsBit y → Adds start (F × E y) m₂ → Yields Q (rest y m₂))
      → Yields Q (and_then (voter_wire k label m) (λ y. gate y >> rest y))
  wire_and_gate label {m} known driven next = seq (voter_wire-Allows label m) λ y m₁ (bit, h₁).
      seq (driven y m₁ bit) λ _ m₂ h₂.
        next y m₂ bit
          (λ a. let (before, e) = h₂ a in let (first, f) = known (h₁ before) in (first, (f, e)))
