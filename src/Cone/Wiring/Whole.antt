-- ===== src/Cone/Wiring/Whole.antt =====
-- `LogicCone::wire` from its first check to the fix walkers.
use tamara.Cone.Wiring.{
  wire_cone, insert_voter, connect_voter, LogicCone, Replicas, Node, VoterBuilder, cell,
  execute_walkers, wire,
}
use tamara.Cone.Wiring.Protected.{Protected}
use tamara.FixWalker.{multi_driver_fixer, execute_walkers}
use tamara.Rtlil.Ports.{Ports}
use tamara.Rtlil.Circuit.{Circuit}
use tamara.Util.Connections.{Connections}
use tamara.Cone.Search.{LogicCone}
use tamara.Cone.Replicate.{Replicas, get_replicas}
use tamara.Cone.Node.{Node, null, is_io}
use tamara.Voter.{VoterBuilder}
use tamara.Rtlil.Kernel.{cell, wire}
use tamara.Common.{
  refl, ◌∙◌, ap, ℕ, Bool, ◌≢◌, Option, and_then, ◌∷◌, ◌≡◌, [], false, ok, some, Result,
}
use tamara.Rtlil.Platform.{Platform}

module _ (p : Platform) (laws : Ports p.kernel) (s : Circuit p.kernel)
    (v : p.kernel.Wire → ℕ → Bool) where
  open p use {kernel}
  open kernel use {Wire, Cell, SigSpec, Module, width, size, of_wire}

  module _ (x r1 r2 : Cell) (apart1 : x ≢ r1) (apart2 : x ≢ r2) (apart : r1 ≢ r2)
      (connections : Connections p) (c : LogicCone p) (replicas : Replicas p) (cut : Node p) where
    -- the end of `wire`: the fix walkers
    abbrev pub fixed : VoterBuilder kernel → Module → Result (VoterBuilder kernel × Module)
    fixed builder m =
        and_then (execute_walkers p (multi_driver_fixer p ∷ []) m) (λ _ m. ok (builder, m))

    pub wire_cone-connects :
        (old new : VoterBuilder kernel) (voter_out? : Option Wire) (m m1 m2 : Module)
        → null c.cone ≡ false
        → c.voter_cut_point ≡ some cut
        → cut.obj ≡ cell x
        → is_io cut.kind ≡ false
        → replicas cut.address ≡ cell r1 ∷ cell r2 ∷ []
        → insert_voter p c old (cell r1 ∷ cell r2 ∷ cell x ∷ []) m ≡ ok ((voter_out?, new), m1)
        → connect_voter p connections cut c.output_node voter_out? m1 ≡ ok (tt, m2)
        → wire_cone p c replicas connections old m ≡ fixed new m2
    unfolding wire_cone get_replicas
    wire_cone-connects old new voter_out? m m1 m2 elements set is_cell not_io copies inserted
          connected =
        simp (elements, set, not_io, copies, wire_cone, get_replicas)
          (simp (ap (λ y. insert_voter p c old (cell r1 ∷ cell r2 ∷ y ∷ []) m) is_cell ∙ inserted)
            (simp connected refl))
