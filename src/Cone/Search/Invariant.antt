-- ===== src/Cone/Search/Invariant.antt =====
-- The invariant of the loop of `LogicCone::search`.
use tamara.Common.{
  List, In, ℕ, ◌≡◌, String, false, inr, true, ⊎_elim, ◌⊎◌, ap, inl, ◌∷◌, ◌++◌, [], sym, ◌∙◌, subst,
  refl, In-snoc,
}
use tamara.Rtlil.Platform.{Platform}
use tamara.Util.Connections.{Ptr, get_rtlil_name}
use tamara.Cone.Node.{Node, neighbours_of, compute_neighbours, kind_of, is_terminal}
use tamara.Cone.Search.{Front, all_neighbours, push_neighbours}
use tamara.Cone.Search.Push.{
  Visits, push_neighbours-Visits, push_neighbours-In, push_neighbours-enters, compute_neighbours-In,
  In-compute_neighbours, neighbours_of-all_neighbours,
}
use tamara.Cone.Search.Behind.{Behind, UniqueNames, beyond, Stands}

module _ (p : Platform) where
  open p use {wire_map, name_set}

  module _ (connections : wire_map.Map) (unique : UniqueNames p connections) (root : Ptr p) where
    abbrev pub IsElement : Ptr p → Type 0
    IsElement a = is_terminal (kind_of p connections a) ≡ false

    -- about a frontier with its visited names, and a cone
    pub record Inv (f : Front p) (cone : List (Node p)) : Type 0 where
      pub waiting :
          (n : Node p)
          → In n f.0
          → (n.kind ≡ kind_of p connections n.obj) × Behind p connections root n.obj
      pub collected : (n : Node p) → In n cone → IsElement n.obj × Behind p connections root n.obj
      pub rooted :
          (b : Ptr p) → In b (neighbours_of p connections root) → Visits p f.1 (get_rtlil_name p b)
      pub closed :
          (n : Node p) (b : Ptr p)
          → In n cone
          → In b (neighbours_of p connections n.obj)
          → Visits p f.1 (get_rtlil_name p b)
      pub seen :
          (b : Ptr p)
          → In b (all_neighbours p connections)
          → Visits p f.1 (get_rtlil_name p b)
          → (is_terminal (kind_of p connections b) ≡ true) ⊎ (Stands p b f.0 ⊎ Stands p b cone)

    -- A round that expands a node: `f` is the frontier without it.
    module _ (f : Front p) (cone : List (Node p)) (node : Node p) (address : ℕ) where
      abbrev neighbours : List (Node p)
      neighbours = compute_neighbours p connections address node

      abbrev f' : Front p
      f' = push_neighbours p f neighbours

      mono : (name : String) → Visits p f.1 name → Visits p f'.1 name
      mono name h = (push_neighbours-Visits p neighbours f name).1 (inl h)

      pub neighbour-Visits :
          (b : Ptr p)
          → In b (neighbours_of p connections node.obj)
          → Visits p f'.1 (get_rtlil_name p b)
      neighbour-Visits b h =
          let (n, member, e) = In-compute_neighbours p connections address node b h in
          (push_neighbours-Visits p neighbours f (get_rtlil_name p b)).1
            (inr (n, member, ap (get_rtlil_name p) e))

      pub pushed-waiting :
          ((n : Node p)
            → In n f.0
            → (n.kind ≡ kind_of p connections n.obj) × Behind p connections root n.obj)
          → ((b : Ptr p)
              → In b (neighbours_of p connections node.obj)
              → Behind p connections root b)
          → (n : Node p) → In n f'.0
          → (n.kind ≡ kind_of p connections n.obj) × Behind p connections root n.obj
      pushed-waiting old new n h =
          ⊎_elim (old n)
            (λ member.
              let (at, kind) = compute_neighbours-In p connections address node n member in
              (kind, new n.obj at))
            ((push_neighbours-In p n neighbours f).1 h)

      pub pushed-seen :
          (b : Ptr p)
          → In b (all_neighbours p connections)
          → Visits p f'.1 (get_rtlil_name p b)
          → Visits p f.1 (get_rtlil_name p b) ⊎ Stands p b f'.0
      pushed-seen b known h =
          ⊎_elim inl
            (λ (n, waits, member, e).
              let at = (compute_neighbours-In p connections address node n member).0 in
              inr (
                n,
                waits,
                unique n.obj b (neighbours_of-all_neighbours p connections node.obj n.obj at) known
                    e,
              ))
            (push_neighbours-enters p neighbours f (get_rtlil_name p b) h)

      pub kept-Stands : (b : Ptr p) → Stands p b f.0 → Stands p b f'.0
      kept-Stands b (n, waits, e) = (n, (push_neighbours-In p n neighbours f).0 waits, e)

    -- a round on a node: one that is not a terminal, and a terminal
    module _ (visited : name_set.Set) (node : Node p) (rest cone : List (Node p)) where
      abbrev grown : List (Node p)
      grown = cone ++ node ∷ []

      collected_still : (b : Ptr p) → Stands p b cone → Stands p b grown
      collected_still b (n, at, is) = (n, (In-snoc n node cone).1 (inl at), is)

      pub node_or_rest : (b : Ptr p) → Stands p b (node ∷ rest) → (node.obj ≡ b) ⊎ Stands p b rest
      node_or_rest b (n, inl same, is) = inl (ap (λ n. n.obj) same ∙ is)
      node_or_rest b (n, inr waits, is) = inr (n, waits, is)

      pub expand-Inv :
          (address : ℕ)
          → is_terminal node.kind ≡ false
          → Inv (node ∷ rest, visited) cone
          → Inv
              (push_neighbours p (rest, visited) (compute_neighbours p connections address node))
              grown
      expand-Inv address e inv =
          let f : Front p = (rest, visited) in
          let (kind, behind) = inv.waiting node (inl refl) in
          let element = ap is_terminal (sym kind) ∙ e in
          record {
            waiting =
                pushed-waiting f cone node address (λ n h. inv.waiting n (inr h))
                  (λ b h. beyond behind element h);
            collected = λ n h.
                ⊎_elim (inv.collected n)
                  (λ is.
                    subst (λ n. IsElement n.obj × Behind p connections root n.obj) is
                      (element, behind))
                  ((In-snoc n node cone).0 h);
            rooted = λ b h. mono f cone node address _ (inv.rooted b h);
            closed = λ n b h next.
                ⊎_elim (λ old. mono f cone node address _ (inv.closed n b old next))
                  (λ is.
                    neighbour-Visits f cone node address b
                      (subst (λ n. In b (neighbours_of p connections n.obj)) (sym is) next))
                  ((In-snoc n node cone).0 h);
            seen = λ b known h.
                ⊎_elim
                  (λ old.
                    ⊎_elim inl
                      (λ stands. inr (
                        ⊎_elim
                          (λ at.
                            ⊎_elim (λ is. inr (node, (In-snoc node node cone).1 (inr refl), is))
                              (λ waits. inl (kept-Stands f cone node address b waits))
                              (node_or_rest b at))
                          (λ at. inr (collected_still b at)) stands))
                      (inv.seen b known old))
                  (λ new. inr (inl new)) (pushed-seen f cone node address b known h);
          }

      pub kept-Inv :
          is_terminal node.kind ≡ true → Inv (node ∷ rest, visited) cone → Inv (rest, visited) cone
      kept-Inv e inv = record {
        waiting = λ n h. inv.waiting n (inr h);
        collected = inv.collected;
        rooted = inv.rooted;
        closed = inv.closed;
        seen = λ b known h.
            ⊎_elim inl
              (⊎_elim
                (λ at.
                  ⊎_elim
                    (λ is. inl (
                      ap (λ a. is_terminal (kind_of p connections a)) (sym is)
                      ∙ ap is_terminal (sym (inv.waiting node (inl refl)).0)
                      ∙ e))
                    (λ waits. inr (inl waits)) (node_or_rest b at))
                (λ at. inr (inr at)))
              (inv.seen b known h);
      }
