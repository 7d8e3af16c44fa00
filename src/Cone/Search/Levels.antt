-- ===== src/Cone/Search/Levels.antt =====
-- The frontier of `LogicCone::search` in src/logic_graph.cpp holds two levels at most: the objects of one
-- distance from the output, and behind them those of the next.
use tamara.Cone.Search.Round.{is_passed}
use tamara.Cone.Search.Behind.{Stands}
use tamara.Cone.Search.Push.{Visits}
use tamara.Util.Connections.{get_rtlil_name}
use mathlib.Core.List.{append_assoc}
use tamara.Common.{
  ℕ, suc, ◌≡◌, ◌<◌, ◌≤◌, true, false, List, In, [], ◌∷◌, ◌++◌, arith, ◌⊎◌, inl, sym, append_nil,
  inr, Bool-cases, refl, ◌∙◌, ⊎_elim, ap, In-append,
}
use tamara.Util.Connections.{Ptr}
use tamara.Cone.Node.{Node, neighbours_of, kind_of, is_terminal, get_node_name}
use tamara.Cone.Search.{Front, push_neighbours, push_neighbour}
use tamara.Rtlil.Platform.{Platform}

module _ (p : Platform) where
  open p use {wire_map, name_set}

  -- `b` is met on a walk of that many steps back from `root` that passes through no terminal.
  pub data Reach (connections : wire_map.Map) (root : Ptr p) : ℕ → Ptr p → Type 0 where
    near : {b : Ptr p} → In b (neighbours_of p connections root) → Reach connections root 1 b
    far :
        {k : ℕ} {a b : Ptr p}
        → Reach connections root k a
        → is_terminal (kind_of p connections a) ≡ false
        → In b (neighbours_of p connections a)
        → Reach connections root (suc k) b

  push_neighbour-appends :
      (f : Front p) (x : Node p)
      → (new : List (Node p)) × ((push_neighbour p f x).0 ≡ f.0 ++ new)
        × ((n : Node p) → In n new → x ≡ n)
  unfolding push_neighbour
  push_neighbour-appends (frontier, visited) x =
      elim (Bool-cases (name_set.contains visited (get_node_name p x))) [
        | inl old ↦ ([], rw old (sym (append_nil frontier)), λ n at. absurd at)
        | inr fresh ↦
            (x ∷ [], rw fresh refl, λ n at. ⊎_elim (λ e. e) (λ none_left. absurd none_left) at)
      ]

  -- what is pushed comes behind what waits
  pub push_neighbours-appends :
      (ns : List (Node p)) (f : Front p)
      → (new : List (Node p)) × ((push_neighbours p f ns).0 ≡ f.0 ++ new)
        × ((n : Node p) → In n new → In n ns)
  unfolding push_neighbours
  push_neighbours-appends [] f = ([], sym (append_nil f.0), λ n at. absurd at)
  push_neighbours-appends (x ∷ ns) f =
      let (one, e, is) = push_neighbour-appends f x in
      let (more, e', inside) = push_neighbours-appends ns (push_neighbour p f x) in
      (
        one ++ more,
        e' ∙ ap (λ l. l ++ more) e ∙ append_assoc f.0 one more,
        λ n at. ⊎_elim (λ h. inl (is n h)) (λ h. inr (inside n h)) ((In-append n one more).0 at),
      )

  module _ (connections : wire_map.Map) (root : Ptr p) where
    abbrev pub Passed : Ptr p → Type 0
    Passed b = is_passed (kind_of p connections b) ≡ true

    pub Reach-cases :
        (j : ℕ) (b : Ptr p)
        → Reach connections root j b
        → (j ≡ 1) × In b (neighbours_of p connections root)
          ⊎ ((k : ℕ) × (a : Ptr p) × (j ≡ suc k)
              × Reach connections root k a
              × (is_terminal (kind_of p connections a) ≡ false)
              × In b (neighbours_of p connections a))
    Reach-cases _ b (near at) = inl (refl, at)
    Reach-cases _ b (far {k} {a} before element at) = inr (k, a, refl, before, element, at)

    pub Reach-positive : (j : ℕ) (b : Ptr p) → Reach connections root j b → 0 < j
    Reach-positive _ b (near at) = omega arith
    Reach-positive _ b (far before element at) = omega arith

    -- a node for an object at that distance
    abbrev pub AllAt : ℕ → List (Node p) → Type 0
    AllAt d ns =
        (n : Node p)
        → In n ns
        → Reach connections root d n.obj × (n.kind ≡ kind_of p connections n.obj)

    -- it is no cut point, and all behind it was met
    abbrev pub Done : name_set.Set → Ptr p → Type 0
    Done visited b =
        Passed b
        × ((is_terminal (kind_of p connections b) ≡ true)
            ⊎ ((q : Ptr p)
                → In q (neighbours_of p connections b)
                → Visits p visited (get_rtlil_name p q)))

    pub record Levels (f : Front p) : Type 0 where
      pub distance : ℕ
      pub this : List (Node p)
      pub next : List (Node p)
      pub splits : f.0 ≡ this ++ next
      pub all_this : AllAt distance this
      pub all_next : AllAt (suc distance) next
      pub passed : (j : ℕ) (b : Ptr p) → Reach connections root j b → j < distance → Passed b
      pub level : (b : Ptr p) → Reach connections root distance b → Stands p b this ⊎ Done f.1 b

    -- of all cells and flip flops behind the root, none is nearer
    abbrev pub IsNearest : Node p → Type 0
    IsNearest n =
        (k : ℕ) × Reach connections root k n.obj
        × ((j : ℕ) (b : Ptr p)
            → Reach connections root j b
            → is_passed (kind_of p connections b) ≡ false
            → k ≤ j)
