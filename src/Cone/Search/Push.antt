-- ===== src/Cone/Search/Push.antt =====
-- What a round of `LogicCone::search` puts on its frontier.
use mathlib.Core.Path.{subst}
use tamara.Common.{
  ℕ, foldl-adds, In-append, Bool-cases, List, In, String, ◌⊎◌, Option-cases, inl, ◌↔◌, ◌≡◌, inr,
  true, ⊎_elim, ◌∷◌, [], arith, sym, refl, ◌+◌,
}
use tamara.Rtlil.Platform.{Platform}
use tamara.Util.Connections.{Ptr}
use tamara.Cone.Node.{
  Node, get_node_name, neighbours_of, new_neighbours, compute_neighbours, kind_of,
}
use tamara.Cone.Search.{Front, push_neighbour, push_neighbours, all_elements, all_neighbours}

module _ (p : Platform) where
  open p use {kernel, ptr_set, wire_map, name_set}

  abbrev pub Visits : name_set.Set → String → Type 0
  Visits visited name = name_set.contains visited name ≡ true

  push_neighbour-Visits :
      (name : String) (f : Front p) (n : Node p)
      → Visits (push_neighbour p f n).1 name ↔ (Visits f.1 name ⊎ (get_node_name p n ≡ name))
  unfolding push_neighbour
  push_neighbour-Visits name (frontier, visited) n =
      elim (Bool-cases (name_set.contains visited (get_node_name p n))) [
        | inl old ↦ rw old (inl, ⊎_elim (λ h. h) (λ e. subst (Visits visited) e old))
        | inr new ↦
            rw new (ground (arith, name_set.contains-insert (get_node_name p n) name visited))
      ]

  -- A name is visited afterwards if it was before or one of the nodes has it.
  pub push_neighbours-Visits :
      (ns : List (Node p)) (f : Front p) (name : String)
      → Visits (push_neighbours p f ns).1 name
        ↔ (Visits f.1 name ⊎ ((n : Node p) × In n ns × (get_node_name p n ≡ name)))
  unfolding push_neighbours
  push_neighbours-Visits ns f name =
      foldl-adds (λ g. Visits g.1 name) (λ n. get_node_name p n ≡ name) (push_neighbour p)
        (push_neighbour-Visits name) ns f

  module _ (m : Node p) where
    push_neighbour-In :
        (f : Front p) (n : Node p)
        → (In m f.0 → In m (push_neighbour p f n).0)
          × (In m (push_neighbour p f n).0 → In m f.0 ⊎ (n ≡ m))
    unfolding push_neighbour
    push_neighbour-In (frontier, visited) n =
        elim (Bool-cases (name_set.contains visited (get_node_name p n))) [
          | inl old ↦ rw old (λ h. h, inl)
          | inr new ↦ rw new (ground (arith, In-append m frontier (n ∷ [])))
        ]

    -- What was waiting goes on waiting, and what waits afterwards waited before or is one of the
    -- nodes.
    pub push_neighbours-In :
        (ns : List (Node p)) (f : Front p)
        → (In m f.0 → In m (push_neighbours p f ns).0)
          × (In m (push_neighbours p f ns).0 → In m f.0 ⊎ In m ns)
    unfolding push_neighbours
    push_neighbours-In [] f = (λ h. h, inl)
    push_neighbours-In (n ∷ ns) f =
        let (keep, from) = push_neighbour-In f n in
        let (keep', from') = push_neighbours-In ns (push_neighbour p f n) in
        (
          λ h. keep' (keep h),
          λ h. ⊎_elim (λ x. ⊎_elim inl (λ e. inr (inl e)) (from x)) (λ x. inr (inr x)) (from' h),
        )

  push_neighbour-enters :
      (f : Front p) (n : Node p) → Visits f.1 (get_node_name p n) ⊎ In n (push_neighbour p f n).0
  unfolding push_neighbour
  push_neighbour-enters (frontier, visited) n =
      elim (Bool-cases (name_set.contains visited (get_node_name p n))) [
        | inl old ↦ inl old
        | inr new ↦ inr (rw new ((In-append n frontier (n ∷ [])).1 (inr (inl refl))))
      ]

  -- A name that is new afterwards belongs to a node that now waits.
  pub push_neighbours-enters :
      (ns : List (Node p)) (f : Front p) (name : String)
      → Visits (push_neighbours p f ns).1 name
      → Visits f.1 name
        ⊎ ((n : Node p) × In n (push_neighbours p f ns).0 × In n ns × (get_node_name p n ≡ name))
  unfolding push_neighbours
  push_neighbours-enters [] f name h = inl h
  push_neighbours-enters (n ∷ ns) f name h =
      ⊎_elim
        (λ early.
          ⊎_elim inl
            (λ e.
              ⊎_elim (λ old. inl (subst (Visits f.1) e old))
                (λ new.
                  inr (n, (push_neighbours-In n ns (push_neighbour p f n)).0 new, inl refl, e))
                (push_neighbour-enters f n))
            ((push_neighbour-Visits name f n).0 early))
        (λ (m, waits, member, e). inr (m, waits, inr member, e))
        (push_neighbours-enters ns (push_neighbour p f n) name h)

  module _ (connections : wire_map.Map) where
    new_neighbours-In :
        (id address : ℕ) (objs : List (Ptr p)) (n : Node p)
        → In n (new_neighbours p connections id address objs)
        → In n.obj objs × (n.kind ≡ kind_of p connections n.obj)
    unfolding new_neighbours
    new_neighbours-In id address [] n h = absurd h
    new_neighbours-In id address (obj ∷ objs) n (inl e) = rw (← e) (inl refl, refl)
    new_neighbours-In id address (obj ∷ objs) n (inr h) =
        let (member, kind) = new_neighbours-In id (address + 1) objs n h in (inr member, kind)

    In-new_neighbours :
        (id address : ℕ) (objs : List (Ptr p)) (q : Ptr p)
        → In q objs
        → (n : Node p) × In n (new_neighbours p connections id address objs) × (n.obj ≡ q)
    unfolding new_neighbours
    In-new_neighbours id address [] q h = absurd h
    In-new_neighbours id address (obj ∷ objs) q (inl e) = (_, inl refl, e)
    In-new_neighbours id address (obj ∷ objs) q (inr h) =
        let (n, member, e) = In-new_neighbours id (address + 1) objs q h in (n, inr member, e)

    pub compute_neighbours-In :
        (address : ℕ) (node n : Node p)
        → In n (compute_neighbours p connections address node)
        → In n.obj (neighbours_of p connections node.obj) × (n.kind ≡ kind_of p connections n.obj)
    unfolding compute_neighbours
    compute_neighbours-In address node n =
        new_neighbours-In node.cone_id address (neighbours_of p connections node.obj) n

    pub In-compute_neighbours :
        (address : ℕ) (node : Node p) (q : Ptr p)
        → In q (neighbours_of p connections node.obj)
        → (n : Node p) × In n (compute_neighbours p connections address node) × (n.obj ≡ q)
    unfolding compute_neighbours
    In-compute_neighbours address node =
        In-new_neighbours node.cone_id address (neighbours_of p connections node.obj)

    all_elements-In :
        (es : List (Ptr p × ptr_set.Set)) (a q : Ptr p) (s : ptr_set.Set)
        → In (a, s) es
        → In q (ptr_set.elements s)
        → In q (all_elements p es)
    unfolding all_elements
    all_elements-In [] a q s h member = absurd h
    all_elements-In ((b, t) ∷ es) a q s (inl e) member =
        (In-append q (ptr_set.elements t) (all_elements p es)).1
          (inl (subst (λ x. In q (ptr_set.elements x.1)) (sym e) member))
    all_elements-In ((b, t) ∷ es) a q s (inr h) member =
        (In-append q (ptr_set.elements t) (all_elements p es)).1
          (inr (all_elements-In es a q s h member))

    pub neighbours_of-all_neighbours :
        (a q : Ptr p) → In q (neighbours_of p connections a) → In q (all_neighbours p connections)
    unfolding neighbours_of all_neighbours
    neighbours_of-all_neighbours a q h = elim (Option-cases (wire_map.find connections a)) [
      | inl missing ↦ absurd (rw (missing, neighbours_of) at h)
      | inr (s, found) ↦
          all_elements-In (wire_map.entries connections) a q s
            ((wire_map.find-entries connections a s).0 found) (rw (found, neighbours_of) at h)
    ]
