-- ===== src/Examples/Rewiring.antt =====
-- src/fix_walker.cpp on the sample platform.
use tamara.FixWalker.Reconnect.{reconnect-Reconnected, Reconnected}
use tamara.Sample.Netlist.{
  Netlist, Object, platform, empty_netlist, object, kernel, same_object, whole, Item,
}
use text.Mathlib.Text.{starts_with}
use tamara.FixWalker.{
  port_at, reconnect, rewire, find_by_approx_name, run_walker, visit_cells, visit_ports,
  visit_wires, visit_wire, process_wire, multi_driver_fixer,
}
use tamara.FixWalker.Rewire.{BothPairs, rewire-BothPairs}
use tamara.Rtlil.Kernel.{wire, cell}
use tamara.Util.Lookups.{rtlil_inverse_lookup}
use tamara.Sample.Shared.{plain}
use tamara.Util.Connections.{sig_spec_to_wire}
use tamara.Sample.Laws.{port_laws}
use tamara.Sample.Objects.{Item}
use tamara.FixWalker.Once.{Rounds, run_walker-once}
use tamara.Common.{
  false, ◌∷◌, [], ◌≡◌, if◌then◌else◌, some, refl, String, Yields, ◌≢◌, List, false≢true, sym, ◌∙◌,
  ok,
}

abbrev driver : Object
driver = object "d$replica1" "$not" 0 false false

abbrev reader : Object
reader = object "r$replica1" "$not" 0 false false

-- d and r meet on the wire t
abbrev meeting : Netlist
meeting = record empty_netlist {
  wires = plain "t" ∷ plain "x" ∷ plain "z" ∷ [];
  cells = driver ∷ reader ∷ [];
  ports = λ c.
      if same_object c driver
      then ("A", whole (plain "x")) ∷ ("Y", whole (plain "t")) ∷ []
      else ("A", whole (plain "t")) ∷ ("Y", whole (plain "z")) ∷ [];
}

reconnect-Reconnected_example :
    Reconnected platform
      (plain "t")
      driver
      reader
      meeting
      (port_at platform (kernel.cell_output "$not") (plain "t") (meeting.ports driver))
      (port_at platform (kernel.cell_input "$not") (plain "t") (meeting.ports reader))
      (reconnect platform (plain "t") driver reader meeting)
reconnect-Reconnected_example =
    reconnect-Reconnected platform port_laws (plain "t") driver reader meeting

found-ports :
    (port_at platform (kernel.cell_output "$not") (plain "t") (meeting.ports driver) ≡ some "Y")
    × (port_at platform (kernel.cell_input "$not") (plain "t") (meeting.ports reader) ≡ some "A")
unfolding port_at sig_spec_to_wire
found-ports = (refl, refl)

abbrev inverter : String → Object
inverter name = object name "$not" 0 false false

abbrev links_of : Item → List Item → platform.wire_map.Map → platform.wire_map.Map
links_of = platform.wire_map.put

-- d and its replicas drive t, and r and its replicas read it
abbrev contested : platform.wire_map.Map
contested =
    links_of (wire (plain "t"))
      (cell (inverter "d") ∷ cell driver ∷ cell (inverter "d$replica2") ∷ [])
      (links_of (cell (inverter "r")) (wire (plain "t") ∷ []) (
        links_of (cell reader) (wire (plain "t") ∷ []) (
          links_of (cell (inverter "r$replica2")) (wire (plain "t") ∷ []) platform.wire_map.empty)))

abbrev drivers_and_readers : Netlist
drivers_and_readers = record meeting {
  ports = λ c.
      if starts_with (kernel.cell_name c) "d"
      then ("A", whole (plain "x")) ∷ ("Y", whole (plain "t")) ∷ []
      else ("A", whole (plain "t")) ∷ ("Y", whole (plain "z")) ∷ [];
}

differ : (a b : Object) → kernel.same_cell a b ≡ false → a ≢ b
differ a b h = λ e. false≢true (sym h ∙ (kernel.same_cell_iff a b).1 e)

rewire-BothPairs_example :
    Yields
      (λ _.
        BothPairs platform port_laws
          (plain "t")
          driver
          reader
          (inverter "d$replica2")
          (inverter "r$replica2")
          "Y"
          "A"
          "Y"
          "A"
          drivers_and_readers
          (differ _ _ refl)
          (differ _ _ refl)
          (differ _ _ refl)
          (differ _ _ refl))
      (rewire platform (plain "t") contested drivers_and_readers)
unfolding port_at sig_spec_to_wire find_by_approx_name rtlil_inverse_lookup
rewire-BothPairs_example =
    rewire-BothPairs platform port_laws (plain "t") driver reader (inverter "d$replica2")
      (inverter "r$replica2") "Y" "A" "Y" "A" drivers_and_readers (differ _ _ refl)
      (differ _ _ refl) (differ _ _ refl) (differ _ _ refl) contested
      (cell (inverter "d") ∷ cell driver ∷ cell (inverter "d$replica2") ∷ []) refl refl refl refl
      refl refl refl refl refl refl

-- no object of `meeting` is annotated, so that the fixer looks at every wire and changes none
abbrev walked : List Item
walked = cell reader ∷ wire (plain "t") ∷ cell driver ∷ []

run_walker-meeting :
    run_walker platform (multi_driver_fixer platform) contested meeting ≡ ok (walked, meeting)
unfolding run_walker visit_cells visit_ports visit_wires visit_wire process_wire port_at
    sig_spec_to_wire rtlil_inverse_lookup
run_walker-meeting = refl

run_walker-once_example :
    Rounds platform (multi_driver_fixer platform) contested meeting walked meeting
run_walker-once_example =
    run_walker-once platform (multi_driver_fixer platform) contested meeting walked meeting
      run_walker-meeting
