-- ===== src/Cone/Search/Nearest.antt =====
-- The cut point that `LogicCone::search` of src/logic_graph.cpp takes is a nearest one.
use tamara.Cone.Search.Round.{is_passed}
use mathlib.Core.List.{append_assoc}
use tamara.Common.{
  ℕ, suc, ◌≡◌, List, In, [], ◌∷◌, ◌++◌, none, ◌⊎◌, List-cases, arith, ⊎_elim, ◌∙◌, ap, inr, inl,
  subst, sym, append_nil, refl, Bool-cases, ltb, ltb→lt, ltb-false, false≢true, Option, String,
  some, true, false, In-append,
}
use tamara.Util.Connections.{Ptr, get_rtlil_name}
use tamara.Cone.Node.{Node, neighbours_of, compute_neighbours, kind_of, is_terminal}
use tamara.Cone.Search.{Front, all_neighbours, push_neighbours}
use tamara.Cone.Search.Behind.{UniqueNames, Stands}
use tamara.Cone.Search.Invariant.{Inv, neighbour-Visits}
use tamara.Cone.Search.Cut.{CutInv}
use tamara.Cone.Search.Push.{
  Visits, neighbours_of-all_neighbours, push_neighbours-Visits, compute_neighbours-In,
}
use tamara.Cone.Search.Levels.{
  Reach, Levels, Done, Reach-cases, IsNearest, Passed, AllAt, push_neighbours-appends, far,
}
use tamara.Rtlil.Platform.{Platform}

cons_split :
    {A : Type 0} (a x : A) (rest xs next : List A)
    → a ∷ rest ≡ (x ∷ xs) ++ next
    → (x ≡ a) × (rest ≡ xs ++ next)
cons_split a x rest xs next e = (cc, cc)

cons_not_nil : {A : Type 0} (a : A) (rest : List A) → a ∷ rest ≡ [] → ⊥
cons_not_nil a rest e = cc

suc_injective : (j k : ℕ) → suc j ≡ suc k → j ≡ k
suc_injective j k e = omega arith

module _ (p : Platform) (connections : p.wire_map.Map) (unique : UniqueNames p connections)
    (root : Ptr p) where
  open p use {wire_map, name_set}

  neighbour_known :
      (a b : Ptr p) → In b (neighbours_of p connections a) → In b (all_neighbours p connections)
  neighbour_known a b = neighbours_of-all_neighbours p connections a b

  -- while there is no cut point, what was met waits or is done
  pub waits_or_Done :
      (f : Front p) (cone : List (Node p)) (b : Ptr p)
      → Inv p connections unique root f cone
      → CutInv p connections unique root f none
      → In b (all_neighbours p connections)
      → Visits p f.1 (get_rtlil_name p b)
      → Stands p b f.0 ⊎ Done p connections root f.1 b
  waits_or_Done f cone b inv cuts known visited =
      ⊎_elim
        (λ passed.
          ⊎_elim (λ ends. inr (passed, inl ends))
            (⊎_elim inl (λ (n, at, is). inr (
              passed,
              inr (λ q next.
                  inv.closed n q at
                    (subst (λ a. In q (neighbours_of p connections a)) (sym is) next)),
            )))
            (inv.seen b known visited))
        inl (cuts.unchosen refl b known visited)

  -- the next level, once this one is empty
  next_level :
      (f : Front p) (cone : List (Node p))
      → Inv p connections unique root f cone
      → CutInv p connections unique root f none
      → (levels : Levels p connections root f) → levels.this ≡ []
      → (later : Levels p connections root f) × (later.this ≡ levels.next)
  next_level f cone inv cuts levels empty =
      let d = levels.distance in
      let front_next : f.0 ≡ levels.next = levels.splits ∙ ap (λ l. l ++ levels.next) empty in
      let level_done = λ (b : Ptr p) (r : Reach p connections root d b).
        ⊎_elim {C = Done p connections root f.1 b}
          (λ stands. absurd (subst (Stands p b) empty stands).1) (λ done. done)
          (levels.level b r) in
      let met =
        λ (b : Ptr p) (visited : Visits p f.1 (get_rtlil_name p b))
            (known : In b (all_neighbours p connections)).
          ⊎_elim {C = Stands p b levels.next ⊎ Done p connections root f.1 b}
            (λ stands. inl (subst (Stands p b) front_next stands)) inr
            (waits_or_Done f cone b inv cuts known visited) in
      let later : Levels p connections root f = record {
        distance = suc d;
        this = levels.next;
        next = [];
        splits = front_next ∙ sym (append_nil levels.next);
        all_this = levels.all_next;
        all_next = λ n at. absurd at;
        passed = λ j b r lt. elim (Bool-cases (ltb j d)) [
          | inl earlier ↦ levels.passed j b r (ltb→lt j d earlier)
          | inr other ↦
              (level_done b (
                subst (λ i. Reach p connections root i b) (omega (arith, ltb-false j d other, lt))
                  r)).0
        ];
        level = λ b r.
            ⊎_elim (λ (_, at). met b (inv.rooted b at) (neighbour_known root b at))
              (λ (k, a, e, before, element, at).
                let reach =
                  subst (λ i. Reach p connections root i a) (sym (suc_injective d k e)) before in
                ⊎_elim (λ ends. absurd (false≢true (sym element ∙ ends)))
                  (λ all. met b (all b at) (neighbour_known a b at)) (level_done a reach).1)
              (Reach-cases p connections root (suc d) b r);
      } in
      (later, refl)

  -- the node at the head of the frontier is of the level at hand
  record Ready (f : Front p) (node : Node p) (rest : List (Node p)) : Type 0 where
    pub levels : Levels p connections root f
    pub others : List (Node p)
    pub heads : levels.this ≡ node ∷ others
    pub behind : rest ≡ others ++ levels.next

  head_Ready :
      (visited : name_set.Set) (node : Node p) (rest : List (Node p))
      (levels : Levels p connections root (node ∷ rest, visited)) (x : Node p) (xs : List (Node p))
      → levels.this ≡ x ∷ xs
      → Ready (node ∷ rest, visited) node rest
  head_Ready visited node rest levels x xs e =
      let (same, behind) =
        cons_split node x rest xs levels.next (levels.splits ∙ ap (λ l. l ++ levels.next) e) in
      record { levels = levels; others = xs; heads = e ∙ ap (λ n. n ∷ xs) same; behind = behind }

  Levels-Ready :
      (visited : name_set.Set) (node : Node p) (rest cone : List (Node p))
      → Inv p connections unique root (node ∷ rest, visited) cone
      → CutInv p connections unique root (node ∷ rest, visited) none
      → Levels p connections root (node ∷ rest, visited)
      → Ready (node ∷ rest, visited) node rest
  Levels-Ready visited node rest cone inv cuts levels = elim (List-cases levels.this) [
    | inr (x, xs, e) ↦ head_Ready visited node rest levels x xs e
    | inl empty ↦
        let (later, same) = next_level (node ∷ rest, visited) cone inv cuts levels empty in
        elim (List-cases levels.next) [
          | inr (x, xs, e) ↦ head_Ready visited node rest later x xs (same ∙ e)
          | inl none_next ↦ absurd (
              cons_not_nil node rest (levels.splits ∙ ap (λ l. l ++ levels.next) empty ∙ none_next))
        ]
  ]

  Done-later :
      (visited visited' : name_set.Set) (b : Ptr p)
      → ((name : String) → Visits p visited name → Visits p visited' name)
      → Done p connections root visited b
      → Done p connections root visited' b
  Done-later visited visited' b mono (passed, rest) =
      (passed, ⊎_elim inl (λ all. inr (λ q next. mono (get_rtlil_name p q) (all q next))) rest)

  -- a node that is passed over leaves, and nodes of the next level may come
  left_Levels :
      (visited visited' : name_set.Set) (node : Node p) (rest new : List (Node p))
      → ((name : String) → Visits p visited name → Visits p visited' name)
      → Done p connections root visited' node.obj
      → (ready : Ready (node ∷ rest, visited) node rest)
      → AllAt p connections root (suc ready.levels.distance) new
      → Levels p connections root (rest ++ new, visited')
  left_Levels visited visited' node rest new mono done ready all_new =
      let levels = ready.levels in
      let stands = λ (b : Ptr p) (h : Stands p b (node ∷ ready.others)).
        let (n, at, is) = h in
        ⊎_elim {C = Stands p b ready.others ⊎ Done p connections root visited' b}
          (λ e. inr (subst (Done p connections root visited') (ap (λ n. n.obj) e ∙ is) done))
          (λ later. inl (n, later, is)) at in
      record {
        distance = levels.distance;
        this = ready.others;
        next = levels.next ++ new;
        splits = ap (λ l. l ++ new) ready.behind ∙ append_assoc ready.others levels.next new;
        all_this = λ n at. levels.all_this n (subst (In n) (sym ready.heads) (inr at));
        all_next =
            λ n at. ⊎_elim (levels.all_next n) (all_new n) ((In-append n levels.next new).0 at);
        passed = levels.passed;
        level = λ b r.
            ⊎_elim (λ h. stands b (subst (Stands p b) ready.heads h))
              (λ old. inr (Done-later visited visited' b mono old)) (levels.level b r);
      }

  abbrev pub Near : Front p → Option (Node p) → Type 0
  Near f none = Levels p connections root f
  Near f (some n) = IsNearest p connections root n

  module _ (visited : name_set.Set) (node : Node p) (rest cone : List (Node p)) (address : ℕ)
      (inv : Inv p connections unique root (node ∷ rest, visited) cone)
      (cuts : CutInv p connections unique root (node ∷ rest, visited) none)
      (levels : Levels p connections root (node ∷ rest, visited)) where
    ready : Ready (node ∷ rest, visited) node rest
    ready = Levels-Ready visited node rest cone inv cuts levels

    at_level :
        Reach p connections root ready.levels.distance node.obj
        × (node.kind ≡ kind_of p connections node.obj)
    at_level = ready.levels.all_this node (subst (In node) (sym ready.heads) (inl refl))

    pub chosen_IsNearest : IsNearest p connections root node
    chosen_IsNearest = (
      ready.levels.distance,
      at_level.0,
      λ j b r usable. elim (Bool-cases (ltb j ready.levels.distance)) [
        | inl nearer ↦ absurd (
            false≢true
              (sym usable ∙ ready.levels.passed j b r (ltb→lt j ready.levels.distance nearer)))
        | inr other ↦ ltb-false j ready.levels.distance other
      ],
    )

    passed_here : is_passed node.kind ≡ true → Passed p connections root node.obj
    passed_here passed = ap is_passed (sym at_level.1) ∙ passed

    pub kept-Levels :
        is_passed node.kind ≡ true
        → is_terminal node.kind ≡ true
        → Levels p connections root (rest, visited)
    kept-Levels passed ends =
        subst (λ l. Levels p connections root (l, visited)) (append_nil rest)
          (left_Levels visited visited node rest [] (λ name h. h)
            (passed_here passed, inl (ap is_terminal (sym at_level.1) ∙ ends)) ready
            (λ n at. absurd at))

    abbrev neighbours : List (Node p)
    neighbours = compute_neighbours p connections address node

    abbrev pushed : Front p
    pushed = push_neighbours p (rest, visited) neighbours

    pub expand-Levels :
        is_passed node.kind ≡ true
        → is_terminal node.kind ≡ false
        → Levels p connections root pushed
    expand-Levels passed goes_on =
        let (new, e, inside) = push_neighbours-appends p neighbours (rest, visited) in
        let element = ap is_terminal (sym at_level.1) ∙ goes_on in
        subst (λ l. Levels p connections root (l, pushed.1)) (sym e)
          (left_Levels visited pushed.1 node rest new
            (λ name h. (push_neighbours-Visits p neighbours (rest, visited) name).1 (inl h))
            (
              passed_here passed,
              inr (neighbour-Visits p connections unique root (rest, visited) cone node address),
            )
            ready
            (λ n at.
              let (member, kind) =
                compute_neighbours-In p connections address node n (inside n at) in
              (far at_level.0 element member, kind)))
