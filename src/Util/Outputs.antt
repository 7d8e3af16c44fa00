-- ===== src/Util/Outputs.antt =====
-- `analyseCellOutputs` of src/util.cpp against the relation that it is to compute.
use tamara.Util.Connections.{Ptr, note_output, analyse_cell_outputs}
use tamara.Util.Links.{linked, linked-empty, linked-link_signal}
use tamara.Rtlil.Kernel.{cell}
use tamara.Common.{
  foldl-adds, sym, false≢true, String, foldl, ◌↔◌, ◌≡◌, In, true, ◌⊎◌, arith, ⊎_elim, ◌∙◌, inr,
}
use tamara.Rtlil.Platform.{Platform}

module _ (p : Platform) where
  open p use {kernel, signal_set, signal_map}
  open kernel use {Cell, SigSpec, Module, cells, cell_type, cell_connections, cell_output}

  abbrev pub HasSignal : signal_map.Map → Ptr p → SigSpec → Type 0
  HasSignal m a s = linked signal_set signal_map m a s ≡ true

  -- an output port of the cell has the signal
  abbrev pub Drives : Module → Ptr p → SigSpec → Cell → Type 0
  Drives m a s c =
      (port : String × SigSpec) × In port (cell_connections m c)
      × ((cell_output (cell_type c) port.0 ≡ true) × (cell c ≡ a) × (port.1 ≡ s))

  module _ (m : Module) (a : Ptr p) (s : SigSpec) where
    note_output-adds :
        (c : Cell) (acc : signal_map.Map) (port : String × SigSpec)
        → HasSignal (note_output p c acc port) a s ↔ (
            HasSignal acc a s
            ⊎ ((cell_output (cell_type c) port.0 ≡ true) × (cell c ≡ a) × (port.1 ≡ s)))
    unfolding note_output
    note_output-adds c acc (name, signal) =
        ground (arith, linked-link_signal p (cell c) signal acc a s)

    cell-adds :
        (acc : signal_map.Map) (c : Cell)
        → HasSignal (foldl (note_output p c) acc (cell_connections m c)) a s
          ↔ (HasSignal acc a s ⊎ Drives m a s c)
    cell-adds acc c =
        foldl-adds (λ acc. HasSignal acc a s) _ (note_output p c) (note_output-adds c)
          (cell_connections m c) acc

    -- The map of cell outputs has a signal for a cell exactly if the cell is in the module and has
    -- the signal on one of its output ports, and no signal for a wire.
    pub analyse_cell_outputs-Drives :
        HasSignal (analyse_cell_outputs p m) a s ↔ ((c : Cell) × In c (cells m) × Drives m a s c)
    unfolding analyse_cell_outputs
    analyse_cell_outputs-Drives =
        let (from, to) =
          foldl-adds (λ acc. HasSignal acc a s) (Drives m a s)
            (λ acc c. foldl (note_output p c) acc (cell_connections m c)) cell-adds (cells m)
            signal_map.empty in
        (
          λ h.
              ⊎_elim
                (λ early.
                  absurd (false≢true (sym (linked-empty signal_set signal_map a s) ∙ early)))
                (λ found. found) (from h),
          λ found. to (inr found),
        )
