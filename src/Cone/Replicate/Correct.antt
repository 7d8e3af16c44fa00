-- ===== src/Cone/Replicate/Correct.antt =====
-- `LogicCone::replicate` as a whole.
use tamara.Cone.Node.{Node, null, is_io}
use tamara.Cone.Search.{LogicCone}
use tamara.Cone.Replicate.{replicate, Replicas}
use tamara.Cone.Replicate.Marks.{
  Replicated, items-Yields, terminals-Yields, if_not_io-Yields, then-Replicated,
}
use tamara.Common.{List, ◌++◌, ◌∷◌, [], ◌≡◌, false, In, Yields, seq, weaken}
use tamara.Rtlil.Attributes.{Attributes}
use tamara.Rtlil.Platform.{Platform}

module _ (p : Platform) (laws : Attributes p.kernel) where
  open p use {kernel}
  open kernel use {Module}

  abbrev pub nodes_of : LogicCone p → List (Node p)
  nodes_of c = c.cone ++ (c.input_nodes ++ c.output_node ∷ [])

  -- If the search of the cone is finished and found elements, none of them an IO, then `replicate`
  -- succeeds. All its elements and all its terminals but the IOs have the cone annotation
  -- afterwards, no annotation is lost, and a node has new replicas only if it, or one at the same
  -- address, was not annotated before.
  pub replicate-Replicated :
      (c : LogicCone p) (r : Replicas p) (m : Module)
      → null c.cone ≡ false
      → c.frontier ≡ []
      → ((n : Node p) → In n c.cone → is_io n.kind ≡ false)
      → Yields (λ r' m'. Replicated p laws m m' (nodes_of c) r r') (replicate p c r m)
  unfolding replicate
  replicate-Replicated c r m elements finished no_io =
      rw (elements, finished, replicate)
        (seq (items-Yields p laws c.cone r m no_io) (λ r1 m1 items.
          seq (terminals-Yields p laws c.input_nodes r1 m1) (λ r2 m2 inputs.
            weaken (if_not_io-Yields p laws c.output_node r2 m2) (λ r3 m3 output.
              then-Replicated p laws items (then-Replicated p laws inputs output)))))
