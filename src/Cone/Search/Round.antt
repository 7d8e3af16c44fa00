-- ===== src/Cone/Search/Round.antt =====
-- What one round of the loop of `LogicCone::search` changes.
use tamara.Common.{
  Bool, ◌≡◌, arith, false, not, true, ◌||◌, if◌then◌else◌, refl, ◌++◌, ◌∙◌, ◌∷◌, [], List, Option,
  ap, is_some, some, ◌&&◌, ap₂, sym,
}
use tamara.Rtlil.Platform.{Platform}
use tamara.Cone.Node.{Node, is_terminal, is_io, compute_neighbours, Kind, is_element_wire, null}
use tamara.Cone.Search.{Front, State, push_neighbours, expand, choose_cut, finish, consider}

terminal_of_io : (k : Kind) → is_terminal k ≡ false → is_io k ≡ false
terminal_of_io k h = ground arith

-- a node that the choice of the cut point passes over
abbrev pub is_passed : Kind → Bool
is_passed k = is_element_wire k || is_io k

module _ (p : Platform) where
  open p use {wire_map}

  abbrev pub front : State p → Front p
  front s = (s.frontier, s.visited)

  abbrev pub expands : State p → Node p → Bool
  expands s node = not (is_terminal node.kind) || s.first

  finish-keeps :
      (s : State p) (node : Node p)
      → (front (finish p s node) ≡ front s)
        × ((finish p s node).cone ≡ s.cone)
        × ((finish p s node).cut ≡ s.cut)
  unfolding finish
  finish-keeps s node = ground arith

  choose_cut-keeps :
      (s : State p) (node : Node p)
      → (front (choose_cut p s node) ≡ front s)
        × ((choose_cut p s node).cone ≡ s.cone)
        × ((choose_cut p s node).input_nodes ≡ s.input_nodes)
  unfolding choose_cut
  choose_cut-keeps s node = ground arith

  abbrev pub next_cut : Option (Node p) → Node p → Option (Node p)
  next_cut cut node = if is_some cut then cut else if is_passed node.kind then cut else some node

  choose_cut-next_cut :
      (s : State p) (node : Node p)
      → s.first ≡ false
      → (choose_cut p s node).cut ≡ next_cut s.cut node
  unfolding choose_cut
  choose_cut-next_cut s node h = ground arith

  choose_cut-first :
      (s : State p) (node : Node p) → s.first ≡ true → (choose_cut p s node).cut ≡ s.cut
  unfolding choose_cut
  choose_cut-first s node h = ground arith

  abbrev pub next_inputs : List (Node p) → List (Node p) → Node p → List (Node p)
  next_inputs frontier inputs node =
      if null frontier && is_terminal node.kind then inputs ++ node ∷ [] else inputs

  finish-next_inputs :
      (s : State p) (node : Node p)
      → (finish p s node).input_nodes ≡ next_inputs s.frontier s.input_nodes node
  unfolding finish
  finish-next_inputs s node = ground arith

  module _ (connections : wire_map.Map) (s : State p) (node : Node p) where
    abbrev pushed : Front p
    pushed = push_neighbours p (front s) (compute_neighbours p connections s.next_address node)

    expanded : State p
    expanded = if expands s node then expand p connections s node else s

    kept_after :
        (front (consider p connections s node) ≡ front expanded)
        × ((consider p connections s node).cone ≡ expanded.cone)
    unfolding consider expanded
    kept_after =
        let finished = finish-keeps (choose_cut p expanded node) node in
        let chosen = choose_cut-keeps expanded node in
        (finished.0 ∙ chosen.0, finished.1 ∙ chosen.1)

    pub consider-front_expanded :
        expands s node ≡ true → front (consider p connections s node) ≡ pushed
    unfolding expand expanded
    consider-front_expanded h = kept_after.0 ∙ rw h refl

    pub consider-front_kept :
        expands s node ≡ false → front (consider p connections s node) ≡ front s
    unfolding expanded
    consider-front_kept h = kept_after.0 ∙ rw h refl

    -- after the first round, a node that is not a terminal joins the cone
    pub consider-cone_element :
        s.first ≡ false
        → is_terminal node.kind ≡ false
        → (consider p connections s node).cone ≡ s.cone ++ node ∷ []
    unfolding expand expanded
    consider-cone_element h e = kept_after.1 ∙ ground (arith, terminal_of_io node.kind)

    pub consider-cone_terminal :
        s.first ≡ false
        → is_terminal node.kind ≡ true
        → (consider p connections s node).cone ≡ s.cone
    unfolding expand expanded
    consider-cone_terminal h e = kept_after.1 ∙ ground arith

    -- the first node never joins it
    pub consider-cone_first : s.first ≡ true → (consider p connections s node).cone ≡ s.cone
    unfolding expand expanded
    consider-cone_first h = kept_after.1 ∙ ground arith

    pub consider-first : (consider p connections s node).first ≡ false
    unfolding consider
    consider-first = refl

    expanded-keeps :
        (expanded.cut ≡ s.cut) × (expanded.first ≡ s.first) × (expanded.input_nodes ≡ s.input_nodes)
    unfolding expand expanded
    expanded-keeps = ground arith

    pub consider-cut : s.first ≡ false → (consider p connections s node).cut ≡ next_cut s.cut node
    unfolding consider expanded
    consider-cut h =
        (finish-keeps (choose_cut p expanded node) node).2
        ∙ choose_cut-next_cut expanded node (expanded-keeps.1 ∙ h)
        ∙ ap (λ cut. next_cut cut node) expanded-keeps.0

    pub consider-cut_first : s.first ≡ true → (consider p connections s node).cut ≡ s.cut
    unfolding consider expanded
    consider-cut_first h =
        (finish-keeps (choose_cut p expanded node) node).2
        ∙ choose_cut-first expanded node (expanded-keeps.1 ∙ h)
        ∙ expanded-keeps.0

    pub consider-inputs :
        (consider p connections s node).input_nodes
        ≡ next_inputs (consider p connections s node).frontier s.input_nodes node
    unfolding consider expanded
    consider-inputs =
        let chosen = choose_cut p expanded node in
        finish-next_inputs chosen node
        ∙ ap₂ (λ f i. next_inputs f i node) (ap (λ f. f.0) (sym (finish-keeps chosen node).0))
            ((choose_cut-keeps expanded node).2 ∙ expanded-keeps.2)
