-- ===== src/Cone/Search/First.antt =====
-- The first round of `LogicCone::search`, on the output node of the cone.
use tamara.Cone.Search.{
  State, LogicCone, Node, consider, start, Front, Ptr, push_neighbours, all_neighbours,
}
use tamara.Cone.Search.Behind.{UniqueNames, beside, Stands}
use tamara.Cone.Node.{Node, compute_neighbours}
use tamara.Cone.Search.Loop.{Good, Inputs, next_inputs-Inputs}
use tamara.Util.Connections.{Ptr, get_rtlil_name}
use tamara.Cone.Search.Invariant.{Inv, pushed-waiting, neighbour-Visits, pushed-seen}
use tamara.Cone.Search.Cut.{CutInv}
use tamara.Cone.Search.Round.{
  consider-first, front, next_inputs, consider-front_expanded, consider-inputs, consider-cone_first,
  consider-cut_first,
}
use tamara.Cone.Search.Push.{Visits}
use tamara.Common.{
  ◌≡◌, [], ℕ, none, In, inr, ⊎_elim, subst, arith, ◌∙◌, ap, inl, false≢true, subst₂, sym, refl,
}
use tamara.Rtlil.Platform.{Platform}

module _ (p : Platform) where
  open p use {wire_map, name_set}

  -- a cone as its constructor makes it
  abbrev pub IsFresh : LogicCone p → Type 0
  IsFresh c = (c.frontier ≡ []) × (c.cone ≡ []) × (c.input_nodes ≡ []) × (c.voter_cut_point ≡ none)

  module _ (connections : wire_map.Map) (unique : UniqueNames p connections) (node : Node p)
      (address : ℕ) where
    abbrev root : Ptr p
    root = node.obj

    abbrev start_front : Front p
    start_front = ([], name_set.empty)

    abbrev pushed : Front p
    pushed = push_neighbours p start_front (compute_neighbours p connections address node)

    pushed-seen_first :
        (b : Ptr p)
        → In b (all_neighbours p connections)
        → Visits p pushed.1 (get_rtlil_name p b)
        → Stands p b pushed.0
    pushed-seen_first b known h =
        ⊎_elim
          (λ early.
            absurd (false≢true (sym (name_set.contains-empty (get_rtlil_name p b)) ∙ early)))
          (λ stands. stands)
          (pushed-seen p connections unique root start_front [] node address b known h)

    pub first-Inv : Inv p connections unique root pushed []
    first-Inv = record {
      waiting =
          pushed-waiting p connections unique root start_front [] node address (λ n h. absurd h)
            (λ b h. beside h);
      collected = λ n h. absurd h;
      rooted = neighbour-Visits p connections unique root start_front [] node address;
      closed = λ n b h next. absurd h;
      seen = λ b known h. inr (inl (pushed-seen_first b known h));
    }

    pub first-CutInv : CutInv p connections unique root pushed none
    first-CutInv = record {
      chosen = λ n e. cc;
      unchosen = λ e b known h. inr (pushed-seen_first b known h);
    }

  module _ (connections : wire_map.Map) (unique : UniqueNames p connections) (c : LogicCone p)
      (fresh : IsFresh c) where
    abbrev output : Node p
    output = c.output_node

    abbrev pub popped : State p
    popped = record (start p c) { frontier = [] }

    abbrev pub next : State p
    next = consider p connections popped output

    pub front-next : front p next ≡ pushed connections unique output c.next_address
    unfolding start
    front-next = consider-front_expanded p connections popped output (ground arith)

    inputs_next : next.input_nodes ≡ next_inputs p next.frontier [] output
    unfolding start
    inputs_next =
        consider-inputs p connections popped output
        ∙ ap (λ i. next_inputs p next.frontier i output) fresh.2

    pub first-Good : Good p connections unique output.obj next
    unfolding start
    first-Good = record {
      later = consider-first p connections popped output;
      inv =
          subst₂ (Inv p connections unique output.obj) (sym front-next)
            (sym (consider-cone_first p connections popped output refl ∙ fresh.1))
            (first-Inv connections unique output c.next_address);
      cuts =
          subst₂ (CutInv p connections unique output.obj) (sym front-next)
            (sym (consider-cut_first p connections popped output refl ∙ fresh.3))
            (first-CutInv connections unique output c.next_address);
      inputs =
          subst (Inputs p connections output.obj next.frontier) (sym inputs_next)
            (next_inputs-Inputs p connections unique output.obj next.frontier output (inl refl));
    }
