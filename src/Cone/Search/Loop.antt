-- ===== src/Cone/Search/Loop.antt =====
-- The rounds of `LogicCone::search` keep its invariants.
use tamara.Util.Connections.{Ptr}
use tamara.Cone.Search.Behind.{UniqueNames, Behind}
use tamara.Cone.Node.{Node, is_terminal, null, compute_neighbours}
use tamara.Cone.Search.{State, consider, search_loop, Front, push_neighbours}
use tamara.Cone.Search.Round.{
  consider-first, next_inputs, front, consider-inputs, consider-front_kept, consider-cone_terminal,
  consider-cut, consider-front_expanded, consider-cone_element,
}
use tamara.Cone.Search.Invariant.{Inv, kept-Inv, expand-Inv}
use tamara.Cone.Search.Cut.{CutInv, kept-CutInv, expand-CutInv}
use tamara.Cone.Search.Rule.{search_loop-Kept}
use tamara.Common.{
  List, ◌≡◌, [], ◌⊎◌, ◌∷◌, true, false, subst, ⊎_elim, Bool-cases, arith, sym, ℕ, List-cases, inl,
  ok, ◌&&◌, inr, ◌∙◌, ap, refl,
}
use tamara.Rtlil.Platform.{Platform}

module _ (p : Platform) where
  open p use {wire_map, name_set}

  -- At most one input node, and only once the frontier is empty; `IsRoot` may be one.
  abbrev pub Inputs : wire_map.Map → Ptr p → List (Node p) → List (Node p) → Type 0
  Inputs connections root frontier inputs =
      (inputs ≡ [])
      ⊎ (frontier ≡ [])
        × ((n : Node p) × (inputs ≡ n ∷ [])
            × (is_terminal n.kind ≡ true)
            × ((n.obj ≡ root) ⊎ Behind p connections root n.obj))

  null-empty : (ns : List (Node p)) → null ns ≡ true → ns ≡ []
  null-empty ns h = ground (arith, List-cases ns)

  module _ (connections : wire_map.Map) (unique : UniqueNames p connections) (root : Ptr p) where
    -- after the first round
    pub record Good (s : State p) : Type 0 where
      pub later : s.first ≡ false
      pub inv : Inv p connections unique root (front p s) s.cone
      pub cuts : CutInv p connections unique root (front p s) s.cut
      pub inputs : Inputs connections root s.frontier s.input_nodes

    pub next_inputs-Inputs :
        (frontier : List (Node p)) (node : Node p)
        → (node.obj ≡ root) ⊎ Behind p connections root node.obj
        → Inputs connections root frontier (next_inputs p frontier [] node)
    next_inputs-Inputs frontier node behind =
        elim (Bool-cases (null frontier && is_terminal node.kind)) [
          | inl last ↦
              rw last (inr (null-empty frontier (ground arith), (node, refl, ground arith, behind)))
          | inr more ↦ rw more (inl refl)
        ]

    no-Inputs :
        (s : State p) (node : Node p) (rest : List (Node p))
        → s.frontier ≡ node ∷ rest
        → Inputs connections root s.frontier s.input_nodes
        → s.input_nodes ≡ []
    no-Inputs s node rest e inputs = ⊎_elim (λ h. h) (λ (ends, _). cc) inputs

    module _ (s : State p) (node : Node p) (rest : List (Node p)) (good : Good s)
        (e : s.frontier ≡ node ∷ rest) where
      abbrev popped : State p
      popped = record s { frontier = rest }

      abbrev next : State p
      next = consider p connections popped node

      abbrev pushed : Front p
      pushed =
          push_neighbours p (rest, s.visited) (compute_neighbours p connections s.next_address node)

      here : Inv p connections unique root (node ∷ rest, s.visited) s.cone
      here = subst (λ f. Inv p connections unique root (f, s.visited) s.cone) e good.inv

      cuts_here : CutInv p connections unique root (node ∷ rest, s.visited) s.cut
      cuts_here = subst (λ f. CutInv p connections unique root (f, s.visited) s.cut) e good.cuts

      next-Inputs : Inputs connections root next.frontier next.input_nodes
      next-Inputs =
          subst (Inputs connections root next.frontier)
            (sym (
              consider-inputs p connections popped node
              ∙ ap (λ i. next_inputs p next.frontier i node) (no-Inputs s node rest e good.inputs)))
            (next_inputs-Inputs next.frontier node (inr (here.waiting node (inl refl)).1))

      -- a round leaves the frontier alone at a terminal, and else pushes the neighbours
      abbrev PopInv : Front p → Type 0
      PopInv f =
          Inv p connections unique root f next.cone × CutInv p connections unique root f next.cut

      next-PopInv : PopInv (front p next)
      next-PopInv = elim (Bool-cases (is_terminal node.kind)) [
        | inl ends ↦
            subst PopInv
              (sym (consider-front_kept p connections popped node (ground (arith, good.later))))
              (
                subst (Inv p connections unique root (rest, s.visited))
                    (sym (consider-cone_terminal p connections popped node good.later ends))
                    (kept-Inv p connections unique root s.visited node rest s.cone ends here),
                subst (CutInv p connections unique root (rest, s.visited))
                    (sym (consider-cut p connections popped node good.later))
                    (kept-CutInv p connections unique root s.visited node rest s.cone s.cut here
                      cuts_here),
              )
        | inr goes_on ↦
            subst PopInv
              (sym (consider-front_expanded p connections popped node (ground (arith, good.later))))
              (
                subst (Inv p connections unique root pushed)
                    (sym (consider-cone_element p connections popped node good.later goes_on))
                    (expand-Inv p connections unique root s.visited node rest s.cone s.next_address
                      goes_on here),
                subst (CutInv p connections unique root pushed)
                    (sym (consider-cut p connections popped node good.later))
                    (expand-CutInv p connections unique root s.visited node rest s.cone s.cut here
                      cuts_here s.next_address),
              )
      ]

      pub consider-Good : Good next
      consider-Good = record {
        later = consider-first p connections popped node;
        inv = next-PopInv.0;
        cuts = next-PopInv.1;
        inputs = next-Inputs;
      }

    pub search_loop-Good :
        (fuel : ℕ) (s t : State p)
        → Good s
        → search_loop p connections fuel s ≡ ok t
        → Good t × (t.frontier ≡ [])
    search_loop-Good fuel s t good =
        search_loop-Kept p connections Good
          (λ s node rest later e good. consider-Good s node rest good e) fuel s t good.later good
