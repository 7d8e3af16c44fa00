-- ===== src/Cone/Wiring/Shared.antt =====
-- A cut point that two cones share.
use tamara.Cone.Node.{Node, null, is_io}
use tamara.Cone.Search.{LogicCone}
use tamara.Cone.Replicate.{replicate, get_replicas, Replicas}
use tamara.Cone.Wiring.{wire_cone, Connections, VoterBuilder}
use tamara.Voter.{VoterBuilder}
use tamara.Cone.Replicate.Correct.{nodes_of, replicate-Replicated}
use tamara.Util.Names.{cone_annotation}
use tamara.Common.{◌≡◌, false, [], some, In, err, Error, and_then, refl, Yields-then}
use tamara.Rtlil.Attributes.{Attributes, Has}
use tamara.Rtlil.Platform.{Platform}

module _ (p : Platform) (laws : Attributes p.kernel) where
  open p use {kernel}
  open kernel use {Module}

  wire_cone-unreplicated :
      (c : LogicCone p) (cut : Node p) (r : Replicas p) (connections : Connections p)
      (builder : VoterBuilder kernel) (m : Module)
      → null c.cone ≡ false
      → c.voter_cut_point ≡ some cut
      → is_io cut.kind ≡ false
      → r cut.address ≡ []
      → wire_cone p c r connections builder m ≡ err Error.replica_count
  unfolding wire_cone get_replicas
  wire_cone-unreplicated c cut r connections builder m elements is_cut no_io unreplicated =
      rw (elements, is_cut, no_io, unreplicated) refl

  -- If another cone has replicated the cut point before, then the cone cannot be wired: `replicate`
  -- gives the cut point no replicas, and `wire` fails since there are not two. This is about cones
  -- whose search is finished and found elements, no IO among them and the cut point not one either.
  pub wire_cone-shared_cut :
      (c : LogicCone p) (cut : Node p) (connections : Connections p) (builder : VoterBuilder kernel)
      (m : Module)
      → null c.cone ≡ false
      → c.frontier ≡ []
      → ((n : Node p) → In n c.cone → is_io n.kind ≡ false)
      → c.voter_cut_point ≡ some cut
      → is_io cut.kind ≡ false
      → ((n : Node p)
          → In n (nodes_of p laws c)
          → is_io n.kind ≡ false
          → n.address ≡ cut.address
          → Has kernel m n.obj cone_annotation)
      → and_then (replicate p c (λ _. []) m) (λ r m'. wire_cone p c r connections builder m')
        ≡ err Error.replica_count
  wire_cone-shared_cut c cut connections builder m elements finished no_io is_cut cut_no_io before =
      Yields-then (replicate-Replicated p laws c (λ _. []) m elements finished no_io) (λ r m' done.
        wire_cone-unreplicated c cut r connections builder m' elements is_cut cut_no_io
          (done.untouched cut.address before))
