-- ===== src/Cone/Successors/Fresh.antt =====
-- The cones that `LogicCone::buildSuccessors` returns.
use tamara.Cone.Node.{Node, kind_of, get_node_name, is_terminal}
use tamara.Cone.Search.{LogicCone}
use tamara.Cone.Search.First.{IsFresh}
use tamara.Cone.Successors.{
  Globals, new_logic_cone, successors_of, make_cone, cell, is_dff, has_neighbours, build_successors,
  wire,
}
use tamara.Util.Connections.{Ptr, is_dff, get_rtlil_name}
use tamara.Rtlil.Kernel.{cell, wire}
use Prim.Native.Nat.{◌%◌, ◌^◌}
use tamara.Common.{
  length, List, ◌≡◌, In, String, ◌+◌, Yields, false, true, ◌≤◌, yields, ◌<◌, ◌∷◌, arith, Bool-cases,
  ◌&&◌, not, inr, inl, seq, [], refl, ap, sym, subst, ◌∙◌, ⊎_elim, refuted, false≢true,
}
use tamara.Rtlil.Platform.{Platform}

module _ (p : Platform) where
  open p use {kernel, wire_map, name_set}

  abbrev IsExplored : Globals p → String → Type 0
  IsExplored g name = name_set.contains g.explored name ≡ true

  -- made between `g` and `g'`: under a new id, of an object that was not explored before
  pub record IsNew (g g' : Globals p) (c : LogicCone p) : Type 0 where
    pub fresh : IsFresh p c
    pub unexplored : name_set.contains g.explored (get_node_name p c.output_node) ≡ false
    pub explored : name_set.contains g'.explored (get_node_name p c.output_node) ≡ true
    pub id_from : g.next_id ≤ c.id
    pub id_below : c.id < g'.next_id

  pub record Successors (g : Globals p) (cones : List (LogicCone p)) (g' : Globals p) : Type 0 where
    pub new : (c : LogicCone p) → In c cones → IsNew g g' c
    pub keeps : (name : String) → IsExplored g name → IsExplored g' name
    pub ids : g.next_id ≤ g'.next_id

  module _ (connections : wire_map.Map) where
    -- as the search leaves its input nodes
    abbrev pub IsTerminal : Node p → Type 0
    IsTerminal n = (n.kind ≡ kind_of p connections n.obj) × (is_terminal n.kind ≡ true)

    terminal-is_dff :
        (c : kernel.Cell)
        → is_terminal (kind_of p connections (cell c)) ≡ true
        → is_dff kernel c ≡ true
    unfolding kind_of
    terminal-is_dff c h = ground arith

    Made : Ptr p → Globals p → LogicCone p → Globals p → Type 0
    Made obj g c g' =
        IsFresh p c
        × (c.output_node.obj ≡ obj)
        × (c.id ≡ g.next_id)
        × (g'.next_id ≡ (g.next_id + 1) % 2 ^ 32)
        × (g'.explored ≡ g.explored)

    new_logic_cone-Made :
        (obj : Ptr p) (g : Globals p)
        → is_terminal (kind_of p connections obj) ≡ true
        → Yields (Made obj g) (new_logic_cone p obj g)
    unfolding new_logic_cone make_cone Made
    new_logic_cone-Made (wire w) g terminal =
        yields ((refl, refl, refl, refl), refl, refl, refl, refl)
    new_logic_cone-Made (cell c) g terminal =
        rw (terminal-is_dff c terminal, new_logic_cone)
          (yields ((refl, refl, refl, refl), refl, refl, refl, refl))

    new_logic_cone-Yields :
        (n : Node p) (g : Globals p)
        → IsTerminal n
        → Yields (Made n.obj g) (new_logic_cone p n.obj g)
    new_logic_cone-Yields n g (kind, terminal) =
        new_logic_cone-Made n.obj g (ap is_terminal (sym kind) ∙ terminal)

    next-Successors :
        (n : Node p) (g g1 : Globals p) (c : LogicCone p) (cones : List (LogicCone p))
        (g' : Globals p)
        → g.next_id + 1 < 2 ^ 32
        → name_set.contains g.explored (get_node_name p n) ≡ false
        → Made n.obj g c g1
        → Successors
            (record g1 { explored = name_set.insert (get_node_name p n) g1.explored })
            cones
            g'
        → Successors g (c ∷ cones) g'
    unfolding Made
    next-Successors n g g1 c cones g' fits unseen (fresh, of_n, id, counted, same) rest =
        let name = get_node_name p n in
        let named = ap (get_rtlil_name p) of_n in
        let inserted = name_set.contains-insert name in
        let before = λ (x : String) (h : IsExplored g x).
          subst (λ e. name_set.contains e x ≡ true) (sym same) h in
        record {
          new = λ d at.
              ⊎_elim
                (λ e. subst (IsNew g g') e (record {
                  fresh = fresh;
                  unexplored = ap (name_set.contains g.explored) named ∙ unseen;
                  explored =
                      ap (name_set.contains g'.explored) named
                      ∙ rest.keeps name ((inserted name g1.explored).1 (inl refl));
                  id_from = omega (arith, id);
                  id_below = omega (arith, id, counted, rest.ids, fits);
                }))
                (λ later.
                  let is_new = rest.new d later in
                  record {
                    fresh = is_new.fresh;
                    unexplored = refuted (λ h. false≢true (
                        sym is_new.unexplored
                        ∙ (inserted (get_node_name p d.output_node) g1.explored).1
                            (inr (before (get_node_name p d.output_node) h))));
                    explored = is_new.explored;
                    id_from = omega (arith, counted, is_new.id_from, fits);
                    id_below = is_new.id_below;
                  })
                at;
          keeps = λ x h. rest.keeps x ((inserted x g1.explored).1 (inr (before x h)));
          ids = omega (arith, counted, rest.ids, fits);
        }

    pub successors_of-Successors :
        (ns : List (Node p)) (g : Globals p)
        → g.next_id + length ns < 2 ^ 32
        → ((n : Node p) → In n ns → IsTerminal n)
        → Yields (Successors g) (successors_of p connections ns g)
    unfolding successors_of Made
    successors_of-Successors [] g fits terminals =
        yields (record { new = λ c at. absurd at; keeps = λ name h. h; ids = omega arith })
    successors_of-Successors (n ∷ ns) g fits terminals =
        elim (Bool-cases (
          has_neighbours p connections n.obj
          && not (name_set.contains g.explored (get_node_name p n)))) [
            | inr passed ↦
                rw (passed, successors_of)
                  (successors_of-Successors ns g (omega (arith, fits))
                    (λ k at. terminals k (inr at)))
            | inl taken ↦
                rw (taken, successors_of)
                  (seq (new_logic_cone-Yields n g (terminals n (inl refl))) (λ c g1 made.
                    seq
                      (successors_of-Successors ns _ (omega (arith, fits, made.3))
                        (λ k at. terminals k (inr at)))
                      (λ cones g' rest. yields (
                        next-Successors n g g1 c cones g' (omega (arith, fits)) (ground arith) made
                          rest))))
          ]

    -- If the input nodes of a cone are terminals, as the search leaves them, and the counter of the
    -- ids does not come to its end, then `build_successors` succeeds. Each cone that it returns is
    -- fresh and has an id not used before, its output was not explored before, and is afterwards.
    -- What was explored stays explored.
    pub build_successors-Successors :
        (c : LogicCone p) (g : Globals p)
        → g.next_id + length c.input_nodes < 2 ^ 32
        → ((n : Node p) → In n c.input_nodes → IsTerminal n)
        → Yields (Successors g) (build_successors p connections c g)
    unfolding build_successors
    build_successors-Successors c g fits terminals =
        successors_of-Successors c.input_nodes g fits terminals
