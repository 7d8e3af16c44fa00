-- ===== src/Cone/Search/Tally.antt =====
-- How often a name stands in a list of nodes, and what pushing neighbours adds to that.
use tamara.Cone.Node.{Node, get_node_name}
use tamara.Common.{
  List, String, ℕ, ◌≡◌, bit, false, ◌++◌, ◌+◌, ◌∷◌, Bool-cases, arith, str_eq, [], inl, refl, inr,
}
use text.Mathlib.TextEquality.{eq_iff}
use tamara.Cone.Search.{push_neighbour, push_neighbours, Front, Node}
use tamara.Rtlil.Platform.{Platform}

module _ (p : Platform) where
  open p use {name_set}

  -- the nodes of a name
  abbrev pub tally : String → List (Node p) → ℕ
  tally name [] = 0
  tally name (n ∷ ns) = bit (str_eq (get_node_name p n) name) + tally name ns

  pub tally-append :
      (name : String) (ns ks : List (Node p))
      → tally name (ns ++ ks) ≡ tally name ns + tally name ks
  tally-append name [] ks = omega arith
  tally-append name (n ∷ ns) ks = omega (arith, tally-append name ns ks)

  abbrev pub seen_bit : Front p → String → ℕ
  seen_bit f name = bit (name_set.contains f.1 name)

  pub inserted_bit :
      (x name : String) (e : name_set.Set)
      → name_set.contains e x ≡ false
      → bit (name_set.contains (name_set.insert x e) name)
        ≡ bit (str_eq x name) + bit (name_set.contains e name)
  inserted_bit x name e unseen = ground (arith, name_set.contains-insert x name e, eq_iff x name)

  -- a node enters the frontier with its name
  push_neighbour-tally :
      (name : String) (f : Front p) (n : Node p)
      → tally name (push_neighbour p f n).0 + seen_bit f name
        ≡ tally name f.0 + seen_bit (push_neighbour p f n) name
  unfolding push_neighbour
  push_neighbour-tally name (frontier, visited) n =
      elim (Bool-cases (name_set.contains visited (get_node_name p n))) [
        | inl old ↦ rw old refl
        | inr new ↦ rw new (
            omega (
              arith,
              tally-append name frontier (n ∷ []),
              inserted_bit (get_node_name p n) name visited new,
            ))
      ]

  pub push_neighbours-tally :
      (name : String) (ns : List (Node p)) (f : Front p)
      → tally name (push_neighbours p f ns).0 + seen_bit f name
        ≡ tally name f.0 + seen_bit (push_neighbours p f ns) name
  unfolding push_neighbours
  push_neighbours-tally name [] f = refl
  push_neighbours-tally name (n ∷ ns) f =
      omega
        (arith, push_neighbour-tally name f n, push_neighbours-tally name ns (push_neighbour p f n))
