-- ===== src/Examples/Cones.antt =====
-- `LogicCone::search` on the sample platform.
use tamara.Cone.Search.{
  search, LogicCone, all_neighbours, start, search_loop, consider, expand, choose_cut, finish,
  push_neighbours, push_neighbour, verify_input_nodes, store,
}
use tamara.Cone.Replicate.{replicate}
use tamara.Cone.Replicate.Marks.{Keeps, HasCone}
use tamara.Cone.Replicate.Searched.{search-replicate}
use tamara.Sample.Laws.{attributes}
use tamara.Sample.Netlist.{empty_netlist, Item, Object, platform, object}
use tamara.Rtlil.Kernel.{wire, cell}
use tamara.Cone.Search.First.{IsFresh}
use tamara.Cone.Search.Behind.{UniqueNames, Stands, Behind}
use tamara.Cone.Node.{
  Node, Kind, get_node_name, compute_neighbours, neighbours_of, new_neighbours, kind_of,
  is_terminal,
}
use tamara.Sample.Names.{UniqueNames-are_apart}
use tamara.Cone.Search.Correct.{search-Behind, search-inputs}
use tamara.Cone.Successors.{Globals, build_successors}
use tamara.Cone.Successors.Fresh.{IsTerminal, Successors, build_successors-Successors}
use tamara.Cone.Search.Tally.{tally}
use tamara.Cone.Search.Once.{search-once}
use tamara.Common.{
  List, Result, String, none, ok, refl, ◌∷◌, ◌≡◌, [], false, map, some, true, err, ◌⊎◌, ◌↔◌, In,
  Yields, inl, subst, inr, ◌≤◌, length, arith,
}

abbrev plain : String → Object
plain name = object name "" 1 false false

abbrev output : Object
output = object "out" "" 1 false true

abbrev gate : Object
gate = object "g" "$and" 0 false false

abbrev flop : Object
flop = object "f" "$dff" 0 false false

abbrev Links : Type 0
Links = platform.wire_map.Map

abbrev links_of : Item → List Item → Links → Links
links_of = platform.wire_map.put

-- out ← y ← g ← (q, in), q ← f ← d
abbrev links : Links
links = links_of (wire output) (wire (plain "y") ∷ []) (
    links_of (wire (plain "y")) (cell gate ∷ []) (
      links_of (cell gate) (wire (plain "q") ∷ wire (object "in" "" 1 true false) ∷ []) (
        links_of (wire (plain "q")) (cell flop ∷ [])
          (links_of (cell flop) (wire (plain "d") ∷ []) platform.wire_map.empty))))

unique : UniqueNames platform links
unfolding all_neighbours
unique = UniqueNames-are_apart links refl

abbrev new_cone : LogicCone platform
new_cone = record {
  id = 0;
  output_node = record { kind = Kind.io; obj = wire output; cone_id = 0; address = 0 };
  input_nodes = [];
  cone = [];
  voter_cut_point = none;
  frontier = [];
  next_address = 1;
}

fresh : IsFresh platform new_cone
fresh = (refl, refl, refl, refl)

abbrev names_of : List (Node platform) → List String
names_of = map (get_node_name platform)

abbrev found : Result (LogicCone platform) → List String × List String × List String
found (ok c) = (
  names_of c.cone,
  names_of c.input_nodes,
  elim c.voter_cut_point [ none ↦ [] | some n ↦ get_node_name platform n ∷ [] ],
)
found (err _) = ([], [], [])

-- the input is not kept, since the flip flop was considered last
search-found : found (search platform links new_cone) ≡ ("y" ∷ "g" ∷ "q" ∷ [], "f" ∷ [], "g" ∷ [])
unfolding search start search_loop consider expand choose_cut finish push_neighbours push_neighbour
    compute_neighbours neighbours_of new_neighbours kind_of verify_input_nodes store all_neighbours
search-found = refl

search-Behind_example :
    (c' : LogicCone platform) × (search platform links new_cone ≡ ok c')
    × (c'.frontier ≡ [])
    × ((b : Item)
        → Stands platform b c'.cone ↔ (
            Behind platform links (wire output) b
            × (is_terminal (kind_of platform links b) ≡ false)))
search-Behind_example = search-Behind platform links unique new_cone fresh

search-inputs_example :
    (c' : LogicCone platform) × (search platform links new_cone ≡ ok c')
    × ((c'.input_nodes ≡ [])
        ⊎ ((n : Node platform) × (c'.input_nodes ≡ n ∷ [])
            × (is_terminal n.kind ≡ true)
            × ((n.obj ≡ wire output) ⊎ Behind platform links (wire output) n.obj)))
search-inputs_example = search-inputs platform links unique new_cone fresh

search-once_example :
    (c' : LogicCone platform) × (search platform links new_cone ≡ ok c')
    × ((name : String) → tally platform name c'.cone ≤ 1)
    × (length c'.cone ≤ length (all_neighbours platform links))
search-once_example = search-once platform links unique new_cone fresh

abbrev ended_cone : LogicCone platform
ended_cone = record new_cone {
  input_nodes = (record { kind = Kind.ff; obj = cell flop; cone_id = 0; address = 6 }) ∷ [];
}

abbrev no_globals : Globals platform
no_globals = record { next_id = 1; explored = [] }

terminals : (n : Node platform) → In n ended_cone.input_nodes → IsTerminal platform links n
unfolding kind_of
terminals n (inl e) = subst (IsTerminal platform links) e (refl, refl)
terminals n (inr z) = absurd z

build_successors-Successors_example :
    Yields (Successors platform no_globals) (build_successors platform links ended_cone no_globals)
build_successors-Successors_example =
    build_successors-Successors platform links ended_cone no_globals (omega arith) terminals

search-replicate_example :
    (c' : LogicCone platform) × (search platform links new_cone ≡ ok c')
    × Yields
        (λ _ m'.
          Keeps platform attributes empty_netlist m'
          × ((b : Item)
              → Behind platform links (wire output) b
                × (is_terminal (kind_of platform links b) ≡ false)
              → HasCone platform attributes m' b))
        (replicate platform c' (λ _. []) empty_netlist)
search-replicate_example =
    search-replicate platform attributes links unique new_cone fresh empty_netlist
