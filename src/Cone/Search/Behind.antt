-- ===== src/Cone/Search/Behind.antt =====
-- What a logic cone is: the objects behind its output, up to the next terminals.
use tamara.Common.{◌≡◌, false, In, List}
use tamara.Rtlil.Platform.{Platform}
use tamara.Util.Connections.{Ptr, get_rtlil_name}
use tamara.Cone.Node.{neighbours_of, kind_of, is_terminal, Node}
use tamara.Cone.Search.{all_neighbours}

module _ (p : Platform) where
  open p use {wire_map}

  -- `b` is met on a walk back from `root` that passes through no terminal.
  pub data Behind (connections : wire_map.Map) (root : Ptr p) : Ptr p → Type 0 where
    beside : {b : Ptr p} → In b (neighbours_of p connections root) → Behind connections root b
    beyond :
        {a b : Ptr p}
        → Behind connections root a
        → is_terminal (kind_of p connections a) ≡ false
        → In b (neighbours_of p connections a)
        → Behind connections root b

  -- Yosys gives no two objects of a module one name; the search tells objects apart by it.
  abbrev pub UniqueNames : wire_map.Map → Type 0
  UniqueNames connections =
      (a b : Ptr p)
      → In a (all_neighbours p connections)
      → In b (all_neighbours p connections)
      → get_rtlil_name p a ≡ get_rtlil_name p b
      → a ≡ b

  -- one of the nodes stands for the object
  abbrev pub Stands : Ptr p → List (Node p) → Type 0
  Stands a ns = (n : Node p) × In n ns × (n.obj ≡ a)
