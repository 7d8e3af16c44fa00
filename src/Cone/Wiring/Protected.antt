-- ===== src/Cone/Wiring/Protected.antt =====
-- The output of a cone carries the majority of the three copies of the cut point.
use tamara.Cone.Wiring.{
  connect_voter, LogicCone, VoterBuilder, connect_output, Node, extract_replica_wire, wire,
  signals_of, cell,
}
use tamara.Cone.Wiring.Majority.{Majority, Inserted}
use tamara.Rtlil.Ports.{Ports}
use tamara.Rtlil.Circuit.{Circuit}
use tamara.Rtlil.Wires.{connected_bits}
use tamara.Util.Connections.{Connections}
use tamara.Voter.{VoterBuilder}
use tamara.Cone.Search.{LogicCone}
use tamara.Voter.Bit.{majority}
use tamara.Cone.Node.{Node}
use tamara.Rtlil.Kernel.{wire, cell}
use tamara.Common.{
  sym, ℕ, Bool, length, ◌≡◌, ◌≢◌, ◌<◌, ◌∙◌, Option, arith, false, ltb, some, Yields, yields, none,
}
use tamara.Rtlil.Platform.{Platform}

module _ (p : Platform) (laws : Ports p.kernel) (s : Circuit p.kernel)
    (v : p.kernel.Wire → ℕ → Bool) where
  open p use {kernel}
  open kernel use {Wire, Cell, SigSpec, Module, width, size, of_wire}
  open s use {Allows}

  module _ (x r1 r2 : Cell) (apart1 : x ≢ r1) (apart2 : x ≢ r2) (apart : r1 ≢ r2) where
    -- The output of the cone, after the voter was connected to it.
    pub record Protected (bits : ℕ) (start : Module) (old : VoterBuilder kernel) (w : Wire)
        (new : VoterBuilder kernel) (m' : Module) : Type 0 where
      pub out : Wire
      pub built : Module
      pub voted : Majority p laws s v bits start x r1 r2 old out new built
      pub masks :
          Allows m' v
          → (i : ℕ) → i < bits
          → v w i ≡ majority (v voted.a i) (v voted.b i) (v voted.c i)

    pub connect_voter-masks :
        (connections : Connections p) (old : VoterBuilder kernel) (cut output : Node p) (w : Wire)
        (start m' : Module) (bits : ℕ) (voter_out? : Option Wire) (new : VoterBuilder kernel)
        → output.obj ≡ wire w
        → ltb 1 (length (signals_of p connections.signals (wire w))) ≡ false
        → width w ≡ bits
        → Inserted p laws s v bits start x r1 r2 old (voter_out?, new) m'
        → Yields
            (λ _. Protected bits start old w new)
            (connect_voter p connections cut output voter_out? m')
    unfolding connect_voter connect_output extract_replica_wire
    connect_voter-masks connections old cut output w start m' bits none new is_wire one_signal wide
          inserted =
        absurd inserted
    connect_voter-masks connections old cut output w start m' bits (some out) new is_wire one_signal
          wide inserted =
        rw (is_wire, one_signal)
          (yields (record {
            out = out;
            built = m';
            voted = inserted;
            masks = λ allowed i hi.
                let (before, same) =
                  connected_bits kernel s v w out m' (wide ∙ sym inserted.wide) allowed in
                same i (omega (arith, inserted.wide)) ∙ inserted.votes before i hi;
          }))
