-- ===== src/Cone/Search/Elements.antt =====
-- The nodes that `LogicCone::search` puts into a cone can be replicated.
use tamara.Cone.Search.{State, consider, search, Node, LogicCone, start, store}
use tamara.Cone.Node.{Node, is_terminal}
use tamara.Cone.Search.Behind.{UniqueNames}
use tamara.Cone.Search.First.{IsFresh, next, popped}
use tamara.Cone.Search.Correct.{search-stored}
use tamara.Cone.Search.Round.{
  consider-cone_first, consider-cone_terminal, consider-first, consider-cone_element,
}
use tamara.Cone.Search.Rule.{search_loop-Kept}
use tamara.Common.{
  List, In, ◌≡◌, false, ok, ◌++◌, ◌∷◌, Bool-cases, [], subst, inl, sym, ⊎_elim, In-snoc, inr, ◌∙◌,
  refl,
}
use tamara.Rtlil.Platform.{Platform}

module _ (p : Platform) where
  open p use {wire_map}

  abbrev pub NoTerminals : List (Node p) → Type 0
  NoTerminals cone = (n : Node p) → In n cone → is_terminal n.kind ≡ false

  NoTerminals-snoc :
      (cone : List (Node p)) (node : Node p)
      → is_terminal node.kind ≡ false
      → NoTerminals cone
      → NoTerminals (cone ++ node ∷ [])
  NoTerminals-snoc cone node element old n at =
      ⊎_elim (old n) (λ e. subst (λ n. is_terminal n.kind ≡ false) e element)
        ((In-snoc n node cone).0 at)

  module _ (connections : wire_map.Map) where
    consider-NoTerminals :
        (s : State p) (node : Node p) (rest : List (Node p))
        → s.first ≡ false
        → s.frontier ≡ node ∷ rest
        → NoTerminals s.cone
        → NoTerminals (consider p connections (record s { frontier = rest }) node).cone
    consider-NoTerminals s node rest later e old =
        let popped : State p = record s { frontier = rest } in
        elim (Bool-cases (is_terminal node.kind)) [
          | inl ends ↦
              subst NoTerminals (sym (consider-cone_terminal p connections popped node later ends))
                old
          | inr element ↦
              subst NoTerminals
                (sym (consider-cone_element p connections popped node later element))
                (NoTerminals-snoc s.cone node element old)
        ]

  module _ (connections : wire_map.Map) (unique : UniqueNames p connections) (c : LogicCone p)
      (fresh : IsFresh p c) where
    abbrev after_first : State p
    after_first = next p connections unique c fresh

    first-NoTerminals : NoTerminals after_first.cone
    unfolding start
    first-NoTerminals =
        subst NoTerminals
          (sym (
            consider-cone_first p connections (popped p connections unique c fresh) c.output_node
              refl
            ∙ fresh.1))
          (λ n at. absurd at)

    -- the search returns, and its cone holds no flip flops and no IOs
    pub search-NoTerminals :
        (t : State p) × (search p connections c ≡ ok (store p c t))
        × NoTerminals t.cone
        × (t.frontier ≡ [])
    search-NoTerminals =
        let (t, stored, looped) = search-stored p connections unique c fresh in
        let (elements, empty) =
          search_loop-Kept p connections (λ s. NoTerminals s.cone)
            (consider-NoTerminals connections) _ after_first t
            (consider-first p connections (popped p connections unique c fresh) c.output_node)
            first-NoTerminals looped in
        (t, stored, elements, empty)
