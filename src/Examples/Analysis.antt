-- ===== src/Examples/Analysis.antt =====
-- src/util.cpp on the sample platform.
use tamara.Util.Neighbours.{Linked, Neighbour, analyse_connections-Neighbour}
use tamara.Util.Connections.{
  analyse_connections, note_cell, note_port, note_connection, sig_spec_to_wire,
  should_consider_for_tmr, link_wire, Analysis, get_rtlil_name, analyse_cell_outputs,
}
use tamara.Rtlil.Kernel.{wire, cell}
use tamara.Util.Lookups.{rtlil_inverse_lookup, rtlil_inverse_lookup-inverse}
use tamara.Util.Outputs.{HasSignal, Drives, analyse_cell_outputs-Drives}
use tamara.Util.Signals.{Signals, SignalOf, analyse_connections-SignalOf}
use tamara.Util.Links.{linked}
use tamara.Common.{String, false, ◌∷◌, [], if◌then◌else◌, refl, ◌↔◌, In, ◌≡◌, true}
use tamara.Sample.Netlist.{
  object, Netlist, Object, empty_netlist, platform, whole, same_object, Item,
}

abbrev signal_wire : String → Object
signal_wire name = object name "" 1 false false

abbrev gate : Object
gate = object "g" "$and" 0 false false

-- y = a & b, with the connection out = y, and with b ignored
abbrev and_netlist : Netlist
and_netlist = record empty_netlist {
  wires = signal_wire "a" ∷ signal_wire "b" ∷ signal_wire "y" ∷ signal_wire "out" ∷ [];
  cells = gate ∷ [];
  connections = (whole (signal_wire "out"), whole (signal_wire "y")) ∷ [];
  ports = λ c.
      if same_object c gate
      then ("A", whole (signal_wire "a"))
        ∷ ("B", whole (signal_wire "b"))
        ∷ ("Y", whole (signal_wire "y"))
        ∷ []
      else [];
}

analyse_connections-Neighbour_example :
    Linked platform (analyse_connections platform and_netlist) (wire (signal_wire "y")) (cell gate)
    ↔ Neighbour platform and_netlist (wire (signal_wire "y")) (cell gate)
analyse_connections-Neighbour_example =
    analyse_connections-Neighbour platform and_netlist (wire (signal_wire "y")) (cell gate)

-- the neighbours run back from the outputs: out, y, the cell, its inputs
analysis-links :
    (Linked platform
      (analyse_connections platform and_netlist)
      (wire (signal_wire "out"))
      (wire (signal_wire "y")))
    × (Linked platform
        (analyse_connections platform and_netlist)
        (wire (signal_wire "y"))
        (cell gate))
    × (Linked platform
        (analyse_connections platform and_netlist)
        (cell gate)
        (wire (signal_wire "b")))
unfolding analyse_connections note_cell note_port note_connection sig_spec_to_wire
    should_consider_for_tmr link_wire
analysis-links = (refl, refl, refl)

abbrev analysed : Analysis platform
analysed = analyse_connections platform and_netlist

rtlil_inverse_lookup-inverse_example :
    In (cell gate) (rtlil_inverse_lookup platform analysed.wires (signal_wire "a")) ↔ (
      (b : Item) × (linked platform.ptr_set platform.wire_map analysed.wires (cell gate) b ≡ true)
      × (get_rtlil_name platform b ≡ "a"))
rtlil_inverse_lookup-inverse_example =
    rtlil_inverse_lookup-inverse platform analysed.wires (signal_wire "a") (cell gate)

analyse_cell_outputs-Drives_example :
    HasSignal platform
      (analyse_cell_outputs platform and_netlist)
      (cell gate)
      (whole (signal_wire "y"))
    ↔ ((c : Object) × In c and_netlist.cells
        × Drives platform and_netlist (cell gate) (whole (signal_wire "y")) c)
analyse_cell_outputs-Drives_example =
    analyse_cell_outputs-Drives platform and_netlist (cell gate) (whole (signal_wire "y"))

analyse_connections-SignalOf_example :
    Signals platform
      (analyse_connections platform and_netlist)
      (wire (signal_wire "out"))
      (whole (signal_wire "y"))
    ↔ SignalOf platform and_netlist (wire (signal_wire "out")) (whole (signal_wire "y"))
analyse_connections-SignalOf_example =
    analyse_connections-SignalOf platform and_netlist (wire (signal_wire "out"))
      (whole (signal_wire "y"))
