-- ===== src/Cone/Search/Closest.antt =====
-- `LogicCone::search` of src/logic_graph.cpp, from its first round to its last, and the distance of the
-- cut point that it takes.
use tamara.Cone.Search.Nearest.{Near}
use tamara.Common.{◌≡◌, false, List, [], ◌∷◌, none, some, Option}
use tamara.Util.Connections.{Ptr}
use tamara.Cone.Node.{Node, kind_of, compute_neighbours}
use tamara.Cone.Search.{State, Front, push_neighbours, LogicCone, consider}
use tamara.Cone.Search.Behind.{UniqueNames, Behind}
use tamara.Cone.Search.First.{IsFresh, next}
use tamara.Cone.Search.Round.{is_passed, front, next_cut}
use tamara.Cone.Search.Loop.{Good}
use tamara.Cone.Search.Levels.{Levels, IsNearest}
use tamara.Rtlil.Platform.{Platform}

module _ (p : Platform) (connections : p.wire_map.Map) (unique : UniqueNames p connections) where
  open p use {wire_map, name_set}

  -- a cell or a flip flop behind the root, none of which is nearer, unless there is none
  abbrev pub CutNearest : Ptr p → Option (Node p) → Type 0
  CutNearest root none =
      ¬ ((b : Ptr p) × Behind p connections root b × (is_passed (kind_of p connections b) ≡ false))
  CutNearest root (some n) =
      (is_passed n.kind ≡ false)
      × (n.kind ≡ kind_of p connections n.obj)
      × IsNearest p connections root n

  module _ (root : Ptr p) where
    abbrev IsNear : State p → Type 0
    IsNear s = Near p connections unique root (front p s) s.cut

    module _ (s : State p) (node : Node p) (rest : List (Node p))
        (good : Good p connections unique root s) (e : s.frontier ≡ node ∷ rest) where
      abbrev left : State p
      left = record s { frontier = rest }

      abbrev after : State p
      after = consider p connections left node

      abbrev cut_after : Option (Node p) → Option (Node p)
      cut_after cut = next_cut p cut node

  module _ (c : LogicCone p) (fresh : IsFresh p c) where
    abbrev output : Node p
    output = c.output_node

    abbrev pushed : Front p
    pushed =
        push_neighbours p ([], name_set.empty)
          (compute_neighbours p connections c.next_address output)

    abbrev second : State p
    second = next p connections unique c fresh
