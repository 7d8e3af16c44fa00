-- ===== src/Cone/Wiring/Masked.antt =====
-- `LogicCone::wire` of src/logic_graph.cpp to its end, the fix walkers included.
use tamara.Voter.{VoterBuilder}
use tamara.Cone.Node.{Node}
use tamara.Common.{ℕ, Bool, ◌≢◌}
use tamara.Rtlil.Circuit.{Circuit}
use tamara.Rtlil.Ports.{Ports}
use tamara.Rtlil.Gates.{Gates, Marks}
use tamara.Rtlil.Platform.{Platform}
use tamara.Util.Connections.{Connections}
use tamara.Cone.Wiring.Protected.{Protected}

module _ (p : Platform) (laws : Ports p.kernel) (s : Circuit p.kernel)
    (v : p.kernel.Wire → ℕ → Bool) (g : Gates p.kernel s) (marks : Marks p.kernel) where
  open p use {kernel}
  open kernel use {Wire, Cell, SigSpec, Module, width, size}
  open s use {Allows}

  module _ (x r1 r2 : Cell) (apart1 : x ≢ r1) (apart2 : x ≢ r2) (apart : r1 ≢ r2) where
    abbrev Masks : ℕ → Module → VoterBuilder kernel → Wire → VoterBuilder kernel → Module → Type 0
    Masks bits start old w new m' =
        Protected p laws s v x r1 r2 apart1 apart2 apart bits start old w new m'
