-- ===== src/Util/Connections.antt =====
-- src/util.cpp: which wires and cells a design connects, seen backwards from its outputs.
use tamara.Common.{
  Bool, not, ◌&&◌, Option, none, some, List, [], ◌∷◌, foldl, String, str_eq, if◌then◌else◌, any_of,
}
use tamara.Rtlil.Kernel.{AnyPtr, wire, cell, Kernel}
use tamara.Rtlil.Platform.{Platform}
use tamara.Util.Names.{ignore_annotation}

-- the types that `isDFF` lists
abbrev dff_types : List String
dff_types =
    "$dff" ∷ "$dffe" ∷ "$adff" ∷ "$adffe" ∷ "$sdff" ∷ "$sdffe" ∷ "$sdffce" ∷ "$dlatch" ∷ "$adlatch"
    ∷ []

module _ (k : Kernel) where
  open k use {
    Wire, Cell, SigSpec, Module, is_wire, as_wire, is_bit, as_bit_wire, chunk_wires, has_attribute,
    cell_type,
  }

  unfoldable pub is_dff : Cell → Bool
  is_dff c = any_of (str_eq (cell_type c)) dff_types

  first_wire : List (Option Wire) → Option Wire
  first_wire [] = none
  first_wire (w ∷ _) = w

  -- `sigSpecToWire`; `none` is nullptr
  unfoldable pub sig_spec_to_wire : SigSpec → Option Wire
  unfolding first_wire
  sig_spec_to_wire sig =
      if is_wire sig
      then as_wire sig
      else if is_bit sig
      then as_bit_wire sig
      else first_wire (chunk_wires sig)

  unfoldable pub should_consider_for_tmr : Module → AnyPtr Wire Cell → Bool
  should_consider_for_tmr m obj = not (has_attribute m obj ignore_annotation)

module _ (p : Platform) where
  open p use {kernel, ptr_set, signal_set, wire_map, signal_map}
  open kernel use {
    Wire, Cell, SigSpec, Module, selected_cells, cells, cell_type, cell_connections, connections,
    cell_input, cell_output, wire_name, cell_name,
  }

  abbrev pub Ptr : Type 0
  Ptr = AnyPtr Wire Cell

  -- `getRTLILName`
  abbrev pub get_rtlil_name : Ptr → String
  get_rtlil_name (wire w) = wire_name w
  get_rtlil_name (cell c) = cell_name c

  -- `map[key].insert(value)`, where a missing key starts with an empty set
  unfoldable pub link_wire : Ptr → Ptr → wire_map.Map → wire_map.Map
  link_wire key value m = elim (wire_map.find m key) [
    | none ↦ wire_map.put key (ptr_set.insert value ptr_set.empty) m
    | some old ↦ wire_map.put key (ptr_set.insert value old) m
  ]

  unfoldable pub link_signal : Ptr → SigSpec → signal_map.Map → signal_map.Map
  link_signal key value m = elim (signal_map.find m key) [
    | none ↦ signal_map.put key (signal_set.insert value signal_set.empty) m
    | some old ↦ signal_map.put key (signal_set.insert value old) m
  ]

  -- the pair that `analyseConnections` returns
  pub record Analysis : Type 0 where
    pub wires : wire_map.Map
    pub signals : signal_map.Map

  -- wireConnections[key].insert(value); signalConnections[key].insert(signal)
  abbrev pub note : Ptr → Ptr → SigSpec → Analysis → Analysis
  note key value signal acc = record {
    wires = link_wire key value acc.wires;
    signals = link_signal key signal acc.signals;
  }

  -- one port of a cell: an output leads from the wire to the cell, an input from the cell to the
  -- wire
  unfoldable pub note_port : Cell → Analysis → String × SigSpec → Analysis
  note_port c acc (name, signal) = elim (sig_spec_to_wire kernel signal) [
    | none ↦ acc
    | some w ↦
        let after_output =
          if cell_output (cell_type c) name then note (wire w) (cell c) signal acc else acc in
        if cell_input (cell_type c) name
        then note (cell c) (wire w) signal after_output
        else after_output
  ]

  unfoldable pub note_cell : Module → Analysis → Cell → Analysis
  note_cell m acc c =
      if should_consider_for_tmr kernel m (cell c)
      then foldl (note_port c) acc (cell_connections m c)
      else acc

  -- a connection of the module itself, lhs to rhs
  unfoldable pub note_connection : Module → Analysis → SigSpec × SigSpec → Analysis
  note_connection m acc (lhs, rhs) = elim (sig_spec_to_wire kernel lhs) [
    | none ↦ acc
    | some l ↦
        let signals = link_signal (wire l) rhs acc.signals in
        elim (sig_spec_to_wire kernel rhs) [
          | none ↦ record { wires = acc.wires; signals = signals }
          | some r ↦
              if should_consider_for_tmr kernel m (wire l)
                && should_consider_for_tmr kernel m (wire r)
              then record { wires = link_wire (wire l) (wire r) acc.wires; signals = signals }
              else record { wires = acc.wires; signals = signals }
        ]
  ]

  -- `analyseConnections`
  unfoldable pub analyse_connections : Module → Analysis
  analyse_connections m =
      let after_cells =
        foldl (note_cell m) (record { wires = wire_map.empty; signals = signal_map.empty })
          (selected_cells m) in
      foldl (note_connection m) after_cells (connections m)

  unfoldable pub note_output : Cell → signal_map.Map → String × SigSpec → signal_map.Map
  note_output c acc (name, signal) =
      if cell_output (cell_type c) name then link_signal (cell c) signal acc else acc

  -- `analyseCellOutputs`
  unfoldable pub analyse_cell_outputs : Module → signal_map.Map
  analyse_cell_outputs m =
      foldl (λ acc c. foldl (note_output c) acc (cell_connections m c)) signal_map.empty (cells m)

  -- RTLILConnections of util.hpp, and `analyseAll`
  pub record Connections : Type 0 where
    pub wires : wire_map.Map
    pub signals : signal_map.Map
    pub cell_outputs : signal_map.Map

  unfoldable pub analyse_all : Module → Connections
  analyse_all m =
      let analysis = analyse_connections m in
      record {
        wires = analysis.wires;
        signals = analysis.signals;
        cell_outputs = analyse_cell_outputs m;
      }
