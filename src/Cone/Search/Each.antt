-- ===== src/Cone/Search/Each.antt =====
-- `LogicCone::search` of src/logic_graph.cpp, whatever a cone starts with: a property that the
-- output node and all neighbours have is one of every node that the search keeps.
use tamara.Util.Connections.{Ptr}
use tamara.Cone.Node.{Node, neighbours_of, is_terminal, null, is_element_wire, is_io}
use tamara.Cone.Search.Push.{compute_neighbours-In, push_neighbours-In}
use tamara.Common.{
  ℕ, zero, suc, true, false, List, ◌≡◌, Bool, In, Option, Bool-cases, if◌then◌else◌, not, ok, some,
  ⊎_elim, ◌++◌, ◌∷◌, List-cases, [], err, is_some, subst, In-snoc, Result, inl, inr, ◌&&◌, ◌||◌,
  Result-cases, err≢ok, ok_injective, refl, length, some_injective,
}
use tamara.Cone.Search.{
  search, Ptr, LogicCone, Node, State, choose_cut, consider, expand, finish, search_loop, start,
  store, verify_input_nodes, all_neighbours,
}
use tamara.Rtlil.Platform.{Platform}

module _ (p : Platform) (connections : p.wire_map.Map) where
  open p use {wire_map}

  abbrev fuel : ℕ
  fuel = suc (length (all_neighbours p connections))

  checked-stores :
      (c : LogicCone p) (s : State p) (t : LogicCone p)
      → (elim (verify_input_nodes p s.input_nodes) [
        | err e ↦ Result.err e
        | ok _ ↦ ok (store p c s)
      ])
        ≡ ok t
      → store p c s ≡ t
  checked-stores c s t h = elim (Result-cases (verify_input_nodes p s.input_nodes)) [
    | inr (e, failed) ↦ absurd (err≢ok (rw failed at h))
    | inl (_, passed) ↦ ok_injective (rw passed at h)
  ]

  -- a search that returns ran its loop to the end, and stored what it found
  search-stores :
      (c t : LogicCone p)
      → search p connections c ≡ ok t
      → (s : State p) × (search_loop p connections fuel (start p c) ≡ ok s) × (store p c s ≡ t)
  unfolding search
  search-stores c t h = elim (Bool-cases (null c.frontier && (null c.cone && null c.input_nodes))) [
    | inr used ↦ absurd (err≢ok (rw (used, search) at h))
    | inl fresh ↦ elim (Result-cases (search_loop p connections fuel (start p c))) [
      | inr (e, failed) ↦ absurd (err≢ok (rw (fresh, failed, search) at h))
      | inl (s, looped) ↦ (s, looped, checked-stores c s t (rw (fresh, looped, search) at h))
    ]
  ]

module _ (p : Platform) (connections : p.wire_map.Map) (P : Ptr p → Type 0) where
  open p use {wire_map}

  -- all neighbours have it
  abbrev pub AllNeighbours : Type 0
  AllNeighbours = (x y : Ptr p) → In y (neighbours_of p connections x) → P y

  abbrev pub EachNode : List (Node p) → Type 0
  EachNode ns = (n : Node p) → In n ns → P n.obj

  abbrev pub CutPoint : Option (Node p) → Type 0
  CutPoint cut = (n : Node p) → cut ≡ some n → P n.obj

  record Each (s : State p) : Type 0 where
    pub waiting : EachNode s.frontier
    pub elements : EachNode s.cone
    pub inputs : EachNode s.input_nodes
    pub cut : CutPoint s.cut

  -- of the nodes of a cone
  pub record EachOf (c : LogicCone p) : Type 0 where
    pub output : P c.output_node.obj
    pub waiting : EachNode c.frontier
    pub elements : EachNode c.cone
    pub inputs : EachNode c.input_nodes
    pub cut : CutPoint c.voter_cut_point

  EachNode-snoc :
      (ns : List (Node p)) (n : Node p) → EachNode ns → P n.obj → EachNode (ns ++ n ∷ [])
  EachNode-snoc ns n old new x at =
      ⊎_elim (old x) (λ e. subst (λ n. P n.obj) e new) ((In-snoc x n ns).0 at)

  module _ (all : AllNeighbours) where
    expand-Each : (s : State p) (n : Node p) → Each s → P n.obj → Each (expand p connections s n)
    unfolding expand
    expand-Each s n old new = record {
      waiting = λ x at.
          ⊎_elim (old.waiting x)
            (λ member.
              all n.obj x.obj (compute_neighbours-In p connections s.next_address n x member).0)
            ((push_neighbours-In p x _ _).1 at);
      elements = elim (Bool-cases (not (is_io n.kind) && not s.first)) [
        | inl added ↦ rw added (EachNode-snoc s.cone n old.elements new)
        | inr same ↦ rw same old.elements
      ];
      inputs = old.inputs;
      cut = old.cut;
    }

    choose_cut-Each : (s : State p) (n : Node p) → Each s → P n.obj → Each (choose_cut p s n)
    unfolding choose_cut
    choose_cut-Each s n old new = elim (Bool-cases (not (is_some s.cut) && not s.first)) [
      | inr kept ↦ rw (kept, choose_cut) old
      | inl free ↦ elim (Bool-cases (is_element_wire n.kind || is_io n.kind)) [
        | inl passed ↦ rw (free, passed, choose_cut) old
        | inr chosen ↦
            rw (free, chosen, choose_cut)
              (record {
                waiting = old.waiting;
                elements = old.elements;
                inputs = old.inputs;
                cut = λ x e. subst (λ n. P n.obj) (some_injective e) new;
              })
      ]
    ]

    finish-Each : (s : State p) (n : Node p) → Each s → P n.obj → Each (finish p s n)
    unfolding finish
    finish-Each s n old new = elim (Bool-cases (null s.frontier && is_terminal n.kind)) [
      | inr kept ↦ rw (kept, finish) old
      | inl ends ↦
          rw (ends, finish)
            (record {
              waiting = old.waiting;
              elements = old.elements;
              inputs = EachNode-snoc s.input_nodes n old.inputs new;
              cut = old.cut;
            })
    ]

    expanded-Each :
        (b : Bool) (s : State p) (n : Node p)
        → Each s
        → P n.obj
        → Each (if b then expand p connections s n else s)
    expanded-Each true s n old new = expand-Each s n old new
    expanded-Each false s n old new = old

    consider-Each :
        (s : State p) (n : Node p) → Each s → P n.obj → Each (consider p connections s n)
    unfolding consider
    consider-Each s n old new =
        let done =
          finish-Each _ n
            (choose_cut-Each _ n (expanded-Each (not (is_terminal n.kind) || s.first) s n old new)
              new)
            new in
        record {
          waiting = done.waiting;
          elements = done.elements;
          inputs = done.inputs;
          cut = done.cut;
        }

    -- the next round, if there is one
    popped-Each :
        (s : State p) (n : Node p) (rest : List (Node p))
        → s.frontier ≡ n ∷ rest
        → Each s
        → Each (consider p connections (record s { frontier = rest }) n)
    popped-Each s n rest e old =
        let all_waiting : EachNode (n ∷ rest) = subst EachNode e old.waiting in
        consider-Each (record s { frontier = rest }) n
          (record {
            waiting = λ x at. all_waiting x (inr at);
            elements = old.elements;
            inputs = old.inputs;
            cut = old.cut;
          })
          (all_waiting n (inl refl))

    search_loop-Each :
        (fuel : ℕ) (s t : State p) → Each s → search_loop p connections fuel s ≡ ok t → Each t
    unfolding search_loop
    search_loop-Each zero s t old h = elim (List-cases s.frontier) [
      | inl empty ↦ subst Each (ok_injective (rw (empty, search_loop) at h)) old
      | inr (n, rest, e) ↦ absurd (err≢ok (rw (e, search_loop) at h))
    ]
    search_loop-Each (suc fuel) s t old h = elim (List-cases s.frontier) [
      | inl empty ↦ subst Each (ok_injective (rw (empty, search_loop) at h)) old
      | inr (n, rest, e) ↦
          search_loop-Each fuel _ t (popped-Each s n rest e old) (rw (e, search_loop) at h)
    ]

    stored-Each :
        (c : LogicCone p) (s : State p) → P c.output_node.obj → Each s → EachOf (store p c s)
    unfolding store
    stored-Each c s output each = record {
      output = output;
      waiting = each.waiting;
      elements = each.elements;
      inputs = each.inputs;
      cut = each.cut;
    }

    started-Each : (c : LogicCone p) → EachOf c → Each (start p c)
    unfolding start
    started-Each c each = record {
      waiting = EachNode-snoc c.frontier c.output_node each.waiting each.output;
      elements = each.elements;
      inputs = each.inputs;
      cut = each.cut;
    }

    -- A search that returns keeps the property, and the output node.
    pub search-Each :
        (c t : LogicCone p)
        → EachOf c
        → search p connections c ≡ ok t
        → EachOf t × (t.output_node ≡ c.output_node)
    unfolding store
    search-Each c t each h =
        let (s, looped, stored) = search-stores p connections c t h in
        (
          subst EachOf stored (
              stored-Each c s each.output
                (search_loop-Each _ (start p c) s (started-Each c each) looped)),
          subst (λ t. t.output_node ≡ c.output_node) stored refl,
        )
