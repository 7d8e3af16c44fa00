-- ===== src/Cone/Search/Cut.antt =====
-- Which node `LogicCone::search` takes as the voter's cut point.
use tamara.Cone.Search.Behind.{UniqueNames, Behind, Stands}
use tamara.Util.Connections.{Ptr, get_rtlil_name}
use tamara.Cone.Search.Round.{is_passed, next_cut}
use tamara.Cone.Node.{Node, kind_of, compute_neighbours}
use tamara.Cone.Search.{Front, all_neighbours, push_neighbours}
use tamara.Cone.Search.Invariant.{Inv, kept-Stands, node_or_rest, pushed-seen}
use tamara.Cone.Search.Push.{Visits}
use tamara.Common.{
  List, Option, ◌≡◌, false, some, true, none, ◌∷◌, In, Option-cases, arith, inl, inr, ◌⊎◌, ⊎_elim,
  ap, subst, ℕ, sym, ◌∙◌, refl,
}
use tamara.Rtlil.Platform.{Platform}

module _ (p : Platform) where
  open p use {wire_map, name_set}

  module _ (connections : wire_map.Map) (unique : UniqueNames p connections) (root : Ptr p) where
    abbrev Passed : Ptr p → Type 0
    Passed b = is_passed (kind_of p connections b) ≡ true

    -- a cell or a flip flop behind the root
    abbrev pub IsCutPoint : Node p → Type 0
    IsCutPoint n =
        (is_passed n.kind ≡ false)
        × (n.kind ≡ kind_of p connections n.obj)
        × Behind p connections root n.obj

    pub record CutInv (f : Front p) (cut : Option (Node p)) : Type 0 where
      pub chosen : (n : Node p) → cut ≡ some n → IsCutPoint n
      pub unchosen :
          cut ≡ none
          → (b : Ptr p) → In b (all_neighbours p connections)
          → Visits p f.1 (get_rtlil_name p b)
          → Passed b ⊎ Stands p b f.0

    next_cut-some :
        (cut : Option (Node p)) (node n : Node p)
        → next_cut p cut node ≡ some n
        → (cut ≡ some n) ⊎ (node ≡ n) × (is_passed node.kind ≡ false)
    next_cut-some cut node n e = ground (arith, Option-cases cut)

    next_cut-none :
        (cut : Option (Node p)) (node : Node p)
        → next_cut p cut node ≡ none
        → (cut ≡ none) × (is_passed node.kind ≡ true)
    next_cut-none cut node e = ground (arith, Option-cases cut)

    module _ (visited : name_set.Set) (node : Node p) (rest cone : List (Node p))
        (cut : Option (Node p)) (inv : Inv p connections unique root (node ∷ rest, visited) cone)
        (cuts : CutInv (node ∷ rest, visited) cut) where
      chosen_next : (n : Node p) → next_cut p cut node ≡ some n → IsCutPoint n
      chosen_next n e =
          let (kind, behind) = inv.waiting node (inl refl) in
          ⊎_elim (cuts.chosen n) (λ (same, usable). subst IsCutPoint same (usable, kind, behind))
            (next_cut-some cut node n e)

      popped :
          next_cut p cut node ≡ none
          → (b : Ptr p) → In b (all_neighbours p connections)
          → Visits p visited (get_rtlil_name p b)
          → Passed b ⊎ Stands p b rest
      popped e b known h =
          let (unset, passed) = next_cut-none cut node e in
          ⊎_elim inl
            (λ at.
              ⊎_elim
                (λ is. inl (
                  ap (λ a. is_passed (kind_of p connections a)) (sym is)
                  ∙ ap is_passed (sym (inv.waiting node (inl refl)).0)
                  ∙ passed))
                inr (node_or_rest p connections unique root visited node rest cone b at))
            (cuts.unchosen unset b known h)

      pub kept-CutInv : CutInv (rest, visited) (next_cut p cut node)
      kept-CutInv = record { chosen = chosen_next; unchosen = popped }

      pub expand-CutInv :
          (address : ℕ)
          → CutInv
              (push_neighbours p (rest, visited) (compute_neighbours p connections address node))
              (next_cut p cut node)
      expand-CutInv address =
          let f : Front p = (rest, visited) in
          record {
            chosen = chosen_next;
            unchosen = λ e b known h.
                ⊎_elim
                  (λ old.
                    ⊎_elim inl
                      (λ at. inr (kept-Stands p connections unique root f cone node address b at))
                      (popped e b known old))
                  inr (pushed-seen p connections unique root f cone node address b known h);
          }
