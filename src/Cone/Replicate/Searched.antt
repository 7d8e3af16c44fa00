-- ===== src/Cone/Replicate/Searched.antt =====
-- `LogicCone::replicate` on the cone that `LogicCone::search` leaves.
use tamara.Cone.Search.{search, LogicCone, store}
use tamara.Cone.Search.Behind.{Behind, UniqueNames}
use tamara.Cone.Search.Elements.{search-NoTerminals}
use tamara.Cone.Search.Correct.{search-Behind}
use tamara.Cone.Replicate.Marks.{HasCone, Keeps}
use tamara.Cone.Replicate.Correct.{replicate-Replicated}
use tamara.Cone.Node.{Kind, Node, is_terminal, is_io, null, kind_of}
use tamara.Cone.Replicate.{replicate, Ptr}
use tamara.Cone.Search.First.{IsFresh}
use tamara.Util.Connections.{Ptr}
use tamara.Common.{
  List, ◌≡◌, In, [], false, ◌⊎◌, Yields, ok, arith, inl, yields, ◌∷◌, inr, ok_injective, refl, sym,
  weaken, In-append, ◌∙◌, subst,
}
use tamara.Rtlil.Attributes.{Attributes}
use tamara.Rtlil.Platform.{Platform}

element-is_io : (k : Kind) → is_terminal k ≡ false → is_io k ≡ false
element-is_io k h = ground arith

null-cases : {A : Type 0} (xs : List A) → (xs ≡ []) ⊎ (null xs ≡ false)
null-cases [] = inl refl
null-cases (x ∷ xs) = inr refl

module _ (p : Platform) (laws : Attributes p.kernel) where
  open p use {kernel, wire_map}
  open kernel use {Module}

  -- all nodes have the annotation, and none was lost
  abbrev Marked : Module → List (Node p) → Module → Type 0
  Marked m ns m' = Keeps p laws m m' × ((n : Node p) → In n ns → HasCone p laws m' n.obj)

  replicate-Marked :
      (c : LogicCone p) (m : Module)
      → c.frontier ≡ []
      → ((n : Node p) → In n c.cone → is_terminal n.kind ≡ false)
      → Yields (λ _ m'. Marked m c.cone m') (replicate p c (λ _. []) m)
  unfolding replicate
  replicate-Marked c m finished elements = elim (null-cases c.cone) [
    | inl empty ↦ rw (empty, replicate) (yields (λ x name h. h, λ n at. absurd at))
    | inr some_there ↦
        weaken
          (replicate-Replicated p laws c (λ _. []) m some_there finished
            (λ n at. element-is_io n.kind (elements n at)))
          (λ r' m' done. (
            done.keeps,
            λ n at.
                done.marked n ((In-append n c.cone _).1 (inl at))
                  (element-is_io n.kind (elements n at)),
          ))
  ]

  module _ (connections : wire_map.Map) (unique : UniqueNames p connections) (c : LogicCone p)
      (fresh : IsFresh p c) (m : Module) where
    -- If no two objects share a name, then the search on a fresh cone returns and the replication
    -- after it succeeds. Everything behind the output that is no flip flop and no IO has the cone
    -- annotation then, and no attribute was lost.
    pub search-replicate :
        (c' : LogicCone p) × (search p connections c ≡ ok c')
        × Yields
            (λ _ m'.
              Keeps p laws m m'
              × ((b : Ptr p)
                  → Behind p connections c.output_node.obj b
                    × (is_terminal (kind_of p connections b) ≡ false)
                  → HasCone p laws m' b))
            (replicate p c' (λ _. []) m)
    unfolding store
    search-replicate =
        let (t, stored, elements, empty) = search-NoTerminals p connections unique c fresh in
        let (c'', found, _, stands) = search-Behind p connections unique c fresh in
        let same : c'' ≡ store p c t = ok_injective (sym found ∙ stored) in
        (
          store p c t,
          stored,
          weaken (replicate-Marked (store p c t) m empty elements) (λ _ m' (keeps, marked). (
            keeps,
            λ b behind.
                let (n, at, is) = (stands b).1 behind in
                subst (HasCone p laws m') is (marked n (subst (λ c. In n c.cone) same at)),
          )),
        )
