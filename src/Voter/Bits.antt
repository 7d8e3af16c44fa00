-- ===== src/Voter/Bits.antt =====
-- The loop over the bits of a voter, and the reduction of its error bits.
use tamara.Common.{
  ℕ, zero, suc, ◌+◌, ◌≤◌, ◌<◌, ◌≡◌, refl, ap₂, Bool, false, ◌||◌, [], ◌∷◌, Yields, yields, seq,
  weaken, arith, Bool-cases, le_cases, ltb, inl, subst, inr, sym, ltb-false, ◌∙◌, ap,
}
use tamara.Rtlil.Kernel.{Kernel}
use tamara.Rtlil.Circuit.{Circuit, bits_from, any_bit}
use tamara.Voter.{make_voter_cell, vote_bit, vote_bits, reduce_errors}
use tamara.Voter.Gates.{IsBit, value_bit, voter_wire-Allows, tamara_id-Allows}
use tamara.Voter.Bit.{majority, disagree, build_bit-majority}

-- whether one of the `n` numbers from `from` on passes
abbrev pub any_from : (ℕ → Bool) → ℕ → ℕ → Bool
any_from f from zero = false
any_from f from (suc n) = f from || any_from f (from + 1) n

module _ (k : Kernel) (s : Circuit k) (v : Kernel.Wire k → ℕ → Bool) where
  open k use {Wire, Module, SigSpec, connect, of_wire, chunk, width}
  open s use {Allows, value}

  pub connect_bits :
      (l r : SigSpec) (x y : Bool) (m : Module)
      → value v l ≡ x ∷ []
      → value v r ≡ y ∷ []
      → Allows (connect l r m) v
      → Allows m v × (x ≡ y)
  connect_bits l r x y m hl hr allowed =
      let (before, e) = s.connect-Allows l r m v (rw (hl, hr)) allowed in
      (before, ground (arith, hl, hr))

  -- a wire of one bit connected to bit `i` of another wire, and the other way round
  read_bit :
      (w x : Wire) (i : ℕ) (m : Module)
      → IsBit k s v w
      → Allows (connect (of_wire w) (chunk x i 1) m) v
      → Allows m v × (v w 0 ≡ v x i)
  read_bit w x i m h = connect_bits _ _ _ _ m (value_bit k s v w h) (s.value-chunk v x i 1)

  write_bit :
      (w x : Wire) (i : ℕ) (m : Module)
      → IsBit k s v w
      → Allows (connect (chunk x i 1) (of_wire w) m) v
      → Allows m v × (v x i ≡ v w 0)
  write_bit w x i m h = connect_bits _ _ _ _ m (s.value-chunk v x i 1) (value_bit k s v w h)

  any_bit-bits_from :
      (w : Wire) (f : ℕ → Bool) (from n : ℕ)
      → ((i : ℕ) → from ≤ i → i < from + n → v w i ≡ f i)
      → any_bit (bits_from v w from n) ≡ any_from f from n
  any_bit-bits_from w f from zero h = refl
  any_bit-bits_from w f from (suc n) h =
      ap₂ ◌||◌ (h from (omega arith) (omega arith))
        (any_bit-bits_from w f (from + 1) n (λ i lo hi. h i (omega arith) (omega arith)))

  module _ (a b c out errors : Wire) where
    -- bit `i` of the voter is right
    abbrev pub Voted : ℕ → Type 0
    Voted i =
        (v out i ≡ majority (v a i) (v b i) (v c i))
        × (v errors i ≡ disagree (v a i) (v b i) (v c i))

    vote_bit-Voted :
        (i : ℕ) (m : Module)
        → Yields (λ _ m'. Allows m' v → Allows m v × Voted i) (vote_bit k a b c out errors i m)
    unfolding vote_bit
    vote_bit-Voted i m = seq (voter_wire-Allows k s v "A" m) λ w_a m₁ (bit_a, h₁).
        seq (voter_wire-Allows k s v "B" m₁) λ w_b m₂ (bit_b, h₂).
          seq (voter_wire-Allows k s v "C" m₂) λ w_c m₃ (bit_c, h₃).
            seq (voter_wire-Allows k s v "OUT" m₃) λ w_out m₄ (bit_out, h₄).
              seq (voter_wire-Allows k s v "ERR" m₄) λ w_err m₅ (bit_err, h₅).
                weaken
                  (build_bit-majority k s v w_a w_b w_c w_out w_err _ bit_a bit_b bit_c bit_out
                    bit_err)
                  λ _ m' h allowed.
                    let (x₅, e_out, e_err) = h allowed in
                    let (x₄, err) = write_bit w_err errors i _ bit_err x₅ in
                    let (x₃, vote) = write_bit w_out out i _ bit_out x₄ in
                    let (x₂, in_c) = read_bit w_c c i _ bit_c x₃ in
                    let (x₁, in_b) = read_bit w_b b i _ bit_b x₂ in
                    let (x₀, in_a) = read_bit w_a a i _ bit_a x₁ in
                    (h₁ (h₂ (h₃ (h₄ (h₅ x₀)))), (cc, cc))

    pub vote_bits-Voted :
        (from left size : ℕ) (m : Module)
        → Yields
            (λ size' m'.
              (size' ≡ size + left)
              × (Allows m' v → Allows m v × ((i : ℕ) → from ≤ i → i < from + left → Voted i)))
            (vote_bits k a b c out errors from left size m)
    unfolding vote_bits
    vote_bits-Voted from zero size m =
        yields (omega arith, λ allowed. (allowed, λ i lo hi. absurd (omega arith)))
    vote_bits-Voted from (suc left) size m = seq (vote_bit-Voted from m) λ _ m₁ h.
        weaken (vote_bits-Voted (from + 1) left (size + 1) m₁) λ size' m' (counted, rest). (
          omega arith,
          λ allowed.
              let (x₁, later) = rest allowed in
              let (x₀, now) = h x₁ in
              (
                x₀,
                λ i lo hi. elim (le_cases from i lo) [
                  | inl e ↦ subst Voted (sym e) now
                  | inr more ↦ later i (omega arith) (omega arith)
                ],
              ),
        )

  pub reduce_errors-any :
      (bits : ℕ) (errors reduced : Wire) (f : ℕ → Bool) (m : Module)
      → width errors ≡ bits
      → 0 < bits
      → IsBit k s v reduced
      → Yields
          (λ _ m'.
            Allows m' v
            → Allows m v
              × (((i : ℕ) → 0 ≤ i → i < bits → v errors i ≡ f i) → v reduced 0 ≡ any_from f 0 bits))
          (reduce_errors k bits errors reduced m)
  unfolding reduce_errors make_voter_cell
  reduce_errors-any bits errors reduced f m hw pos hr = elim (Bool-cases (ltb 1 bits)) [
    | inl many ↦ rw many (
        seq (tamara_id-Allows k s v "REDUCE" m) λ name m₁ h₁. yields λ allowed.
          let (before, e) =
            s.add_reduce_or-Allows name (of_wire errors) (of_wire reduced) m₁ v
              (s.set_bool_attribute-Allows _ _ _ v allowed) in
          (
            h₁ before,
            λ same. ground (
              arith,
              value_bit k s v reduced hr,
              s.value-of_wire v errors ∙ ap (bits_from v errors 0) hw,
              any_bit-bits_from errors f 0 bits (λ i lo hi. same i lo (omega arith)),
            ),
          ))
    | inr one ↦ rw one (
        seq (tamara_id-Allows k s v "REDUCE" m) λ name m₁ h₁. yields λ allowed.
          let single : width errors ≡ 1 = omega (arith, ltb-false 1 bits one) in
          let (before, e) =
            s.add_buf-Allows name (of_wire errors) (of_wire reduced) m₁ v
              (rw (value_bit k s v reduced hr, value_bit k s v errors single))
              (s.set_bool_attribute-Allows _ _ _ v allowed) in
          (
            h₁ before,
            λ same. ground (
              arith,
              value_bit k s v reduced hr,
              value_bit k s v errors single,
              sym hw ∙ single,
              same 0,
            ),
          ))
  ]
