-- ===== src/Rtlil/Wires.antt =====
-- A connection of two whole wires, bit by bit.
use tamara.Common.{ℕ, zero, suc, ◌≡◌, ◌<◌, Bool, length, ◌+◌, ◌∙◌, ap, arith, refl, sym, subst}
use tamara.Rtlil.Kernel.{Kernel}
use tamara.Rtlil.Circuit.{Circuit, bits_from}

module _ (k : Kernel) (s : Circuit k) (v : Kernel.Wire k → ℕ → Bool) where
  open k use {Wire, Module, width, of_wire, connect}
  open s use {Allows}

  -- signals of the same value have the same bits
  same_bits :
      (w out : Wire) (from n : ℕ)
      → bits_from v w from n ≡ bits_from v out from n
      → (i : ℕ) → i < n
      → v w (from + i) ≡ v out (from + i)
  same_bits w out from zero e i hi = absurd (omega arith)
  same_bits w out from (suc n) e zero hi = ground arith
  same_bits w out from (suc n) e (suc i) hi =
      let later = same_bits w out (from + 1) n (ground arith) i (omega arith) in ground arith

  length-bits_from :
      (w out : Wire) (n from : ℕ) → length (bits_from v w from n) ≡ length (bits_from v out from n)
  length-bits_from w out zero from = refl
  length-bits_from w out (suc n) from = ap suc (length-bits_from w out n (from + 1))

  pub connected_bits :
      (w out : Wire) (m : Module)
      → width w ≡ width out
      → Allows (connect (of_wire w) (of_wire out) m) v
      → Allows m v × ((i : ℕ) → i < width out → v w i ≡ v out i)
  connected_bits w out m wide allowed =
      let of_w = s.value-of_wire v w ∙ ap (bits_from v w 0) wide in
      let of_out = s.value-of_wire v out in
      let (before, same) =
        s.connect-Allows (of_wire w) (of_wire out) m v
          (rw (of_w, of_out) (length-bits_from w out (width out) 0)) allowed in
      let bits = same_bits w out 0 (width out) (sym of_w ∙ same ∙ of_out) in
      (before, λ i hi. subst (λ j. v w j ≡ v out j) (omega arith) (bits i hi))
