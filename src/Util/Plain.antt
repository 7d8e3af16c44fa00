-- ===== src/Util/Plain.antt =====
-- The neighbours that `analyseConnections` of src/util.cpp finds are wires and selected cells.
use tamara.Util.Connections.{Ptr, analyse_all}
use tamara.Cone.Node.{neighbours_of}
use tamara.Util.Neighbours.{Neighbour, analyse_connections-Neighbour}
use tamara.Util.Links.{linked}
use tamara.Common.{true, false, ◌≡◌, In, Option-cases, inl, inr, subst, ⊎_elim}
use tamara.Rtlil.Circuit.{Circuit}
use tamara.Rtlil.Gates.{Gates, Marks}
use tamara.Rtlil.Intact.{Plain}
use tamara.Rtlil.Platform.{Platform}

module _ (p : Platform) (s : Circuit p.kernel) (g : Gates p.kernel s) (marks : Marks p.kernel) where
  open p use {kernel, ptr_set, wire_map}
  open kernel use {Cell, Module, selected_cells}

  -- no selected cell is a gate of a voter
  abbrev pub NoGates : Module → Type 0
  NoGates m = (c : Cell) → In c (selected_cells m) → g.is_gate c ≡ false

  Neighbour-Plain :
      (m : Module) (x y : Ptr p) → NoGates m → Neighbour p m x y → Plain kernel s g marks y
  Neighbour-Plain m x y none_gates (inl (c, at, (_, (port, inside, (w, _, through))))) =
      ⊎_elim (λ (_, _, is). subst (Plain kernel s g marks) is (none_gates c at))
        (λ (_, _, is). subst (Plain kernel s g marks) is tt) through
  Neighbour-Plain m x y none_gates (inr (joint, at, (l, r, _, _, (_, _, _, is)))) =
      subst (Plain kernel s g marks) is tt

  neighbours_of-linked :
      (connections : wire_map.Map) (x y : Ptr p)
      → In y (neighbours_of p connections x)
      → linked ptr_set wire_map connections x y ≡ true
  unfolding neighbours_of
  neighbours_of-linked connections x y at = elim (Option-cases (wire_map.find connections x)) [
    | inl missing ↦ absurd (rw (missing, neighbours_of) at at)
    | inr (found, e) ↦
        rw (e, linked) ((ptr_set.contains-elements found y).1 (rw (e, neighbours_of) at at))
  ]

  pub neighbours_of-Plain :
      (m : Module)
      → NoGates m
      → (x y : Ptr p) → In y (neighbours_of p (analyse_all p m).wires x)
      → Plain kernel s g marks y
  unfolding analyse_all
  neighbours_of-Plain m none_gates x y at = Neighbour-Plain m x y none_gates (
      (analyse_connections-Neighbour p m x y).0
        (neighbours_of-linked (analyse_all p m).wires x y at))
