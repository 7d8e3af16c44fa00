-- ===== src/Util/Signals.antt =====
-- The map of signals that `analyseConnections` returns, against the relation that it is to compute.
use tamara.Util.Connections.{
  Ptr, Analysis, note_port, note_cell, note_connection, analyse_connections, sig_spec_to_wire,
  link_signal, link_wire, note, should_consider_for_tmr,
}
use tamara.Util.Links.{linked-empty, linked-link_signal}
use tamara.Util.Outputs.{HasSignal}
use tamara.Util.Neighbours.{Considered}
use tamara.Rtlil.Kernel.{cell, wire}
use tamara.Common.{
  foldl-adds, sym, false≢true, Bool, In, String, ◌↔◌, foldl, if◌then◌else◌, ◌≡◌, ◌⊎◌, Bool-cases,
  Option-cases, some, true, ⊎_elim, arith, inl, ◌∙◌, false, inr, ap, some_unique, subst,
}
use tamara.Rtlil.Platform.{Platform}

module _ (p : Platform) where
  open p use {kernel, signal_set, signal_map, wire_map}
  open kernel use {
    Wire, Cell, SigSpec, Module, selected_cells, cell_type, cell_connections, cell_output,
    cell_input, connections,
  }

  abbrev pub Signals : Analysis p → Ptr p → SigSpec → Type 0
  Signals acc a s = HasSignal p acc.signals a s

  -- the object that a port notes its signal for: its wire on an output, its cell on an input
  abbrev Notes : Cell → String → Wire → Ptr p → Type 0
  Notes c name w a =
      (cell_output (cell_type c) name ≡ true) × (wire w ≡ a)
      ⊎ (cell_input (cell_type c) name ≡ true) × (cell c ≡ a)

  abbrev PortSignal : Cell → Ptr p → SigSpec → String × SigSpec → Type 0
  PortSignal c a s (name, signal) =
      (w : Wire) × (sig_spec_to_wire kernel signal ≡ some w) × (Notes c name w a × (signal ≡ s))

  -- the wire on the left of a connection of the module has the signal on its right, ignored or not
  abbrev JointSignal : Ptr p → SigSpec → SigSpec × SigSpec → Type 0
  JointSignal a s (lhs, rhs) =
      (l : Wire) × (sig_spec_to_wire kernel lhs ≡ some l) × (wire l ≡ a) × (rhs ≡ s)

  abbrev pub SignalOf : Module → Ptr p → SigSpec → Type 0
  SignalOf m a s =
      ((c : Cell) × In c (selected_cells m)
        × (Considered p m (cell c)
            × ((port : String × SigSpec) × In port (cell_connections m c) × PortSignal c a s port)))
      ⊎ ((joint : SigSpec × SigSpec) × In joint (connections m) × JointSignal a s joint)

  module _ (m : Module) (a : Ptr p) (s : SigSpec) where
    tests-add :
        (c : Cell) (w : Wire) (signal : SigSpec) (acc : Analysis p) (o i : Bool)
        → let after_output = if o then note p (wire w) (cell c) signal acc else acc in
          Signals (if i then note p (cell c) (wire w) signal after_output else after_output) a s ↔ (
            Signals acc a s
            ⊎ (((o ≡ true) × (wire w ≡ a) ⊎ (i ≡ true) × (cell c ≡ a)) × (signal ≡ s)))
    tests-add c w signal acc true true = ground (
      arith,
      linked-link_signal p (wire w) signal acc.signals a s,
      linked-link_signal p (cell c) signal (link_signal p (wire w) signal acc.signals) a s,
    )
    tests-add c w signal acc true false =
        ground (arith, linked-link_signal p (wire w) signal acc.signals a s)
    tests-add c w signal acc false true =
        ground (arith, linked-link_signal p (cell c) signal acc.signals a s)
    tests-add c w signal acc false false = ground arith

    note_port-Signals :
        (c : Cell) (acc : Analysis p) (port : String × SigSpec)
        → Signals (note_port p c acc port) a s ↔ (Signals acc a s ⊎ PortSignal c a s port)
    unfolding note_port
    note_port-Signals c acc (name, signal) = elim (Option-cases (sig_spec_to_wire kernel signal)) [
      | inl no_wire ↦ rw (no_wire, note_port) (inl, ⊎_elim (λ l. l) (λ (w, is, _). cc))
      | inr (w, is_w) ↦
          let tests =
            tests-add c w signal acc (cell_output (cell_type c) name)
              (cell_input (cell_type c) name) in
          let same =
            λ (u : Wire) (is : sig_spec_to_wire kernel signal ≡ some u). some_unique _ is is_w in
          (
            λ h. ⊎_elim inl (λ x. inr (w, is_w, x)) (tests.0 (rw (is_w, note_port) at h)),
            λ h.
                rw (is_w, note_port)
                  (tests.1 (
                    ⊎_elim inl
                      (λ (u, is, x).
                        inr (subst (λ t. Notes c name t a × (signal ≡ s)) (same u is) x))
                      h)),
          )
    ]

    note_cell-Signals :
        (acc : Analysis p) (c : Cell)
        → Signals (note_cell p m acc c) a s ↔ (
            Signals acc a s
            ⊎ (Considered p m (cell c)
                × ((port : String × SigSpec) × In port (cell_connections m c)
                    × PortSignal c a s port)))
    unfolding note_cell
    note_cell-Signals acc c =
        let ports =
          foldl-adds (λ acc. Signals acc a s) (PortSignal c a s) (note_port p c)
            (note_port-Signals c) (cell_connections m c) acc in
        elim (Bool-cases (should_consider_for_tmr kernel m (cell c))) [
          | inl considered ↦ (
            λ h. ⊎_elim inl (λ x. inr (considered, x)) (ports.0 (rw (considered, note_cell) at h)),
            λ h. rw (considered, note_cell) (ports.1 (⊎_elim inl (λ (_, x). inr x) h)),
          )
          | inr ignored ↦ (
            λ h. inl (rw (ignored, note_cell) at h),
            ⊎_elim (λ l. rw (ignored, note_cell) l) (λ (considered, _). cc),
          )
        ]

    -- the test of the two wires changes the other map only
    joint-signals :
        (l r : Wire) (rhs : SigSpec) (acc : Analysis p) (both : Bool)
        → let signals = link_signal p (wire l) rhs acc.signals in
          Signals
            (if both
              then record { wires = link_wire p (wire l) (wire r) acc.wires; signals = signals }
              else record { wires = acc.wires; signals = signals })
            a
            s
          ↔ (Signals acc a s ⊎ (wire l ≡ a) × (rhs ≡ s))
    joint-signals l r rhs acc true = linked-link_signal p (wire l) rhs acc.signals a s
    joint-signals l r rhs acc false = linked-link_signal p (wire l) rhs acc.signals a s

    left-Signals :
        (l : Wire) (lhs rhs : SigSpec) (acc : Analysis p)
        → sig_spec_to_wire kernel lhs ≡ some l
        → Signals (note_connection p m acc (lhs, rhs)) a s
          ↔ (Signals acc a s ⊎ (wire l ≡ a) × (rhs ≡ s))
    unfolding note_connection
    left-Signals l lhs rhs acc is_l = elim (Option-cases (sig_spec_to_wire kernel rhs)) [
      | inl no_right ↦
          rw (is_l, no_right, note_connection) (linked-link_signal p (wire l) rhs acc.signals a s)
      | inr (r, is_r) ↦ rw (is_l, is_r, note_connection) (joint-signals l r rhs acc _)
    ]

    note_connection-Signals :
        (acc : Analysis p) (joint : SigSpec × SigSpec)
        → Signals (note_connection p m acc joint) a s ↔ (Signals acc a s ⊎ JointSignal a s joint)
    unfolding note_connection
    note_connection-Signals acc (lhs, rhs) = elim (Option-cases (sig_spec_to_wire kernel lhs)) [
      | inl no_left ↦ rw (no_left, note_connection) (inl, ⊎_elim (λ h. h) (λ (l, is, _, _). cc))
      | inr (l, is_l) ↦
          let (from, to) = left-Signals l lhs rhs acc is_l in
          (
            λ h. ⊎_elim inl (λ (at, e). inr (l, is_l, at, e)) (from h),
            λ h.
                to (⊎_elim inl (λ (u, is, at, e). inr (ap wire (some_unique _ is_l is) ∙ at, e)) h),
          )
    ]

    -- The map of signals has a signal for an object exactly if a selected cell that is not ignored
    -- has the signal on a port, where the signal has a wire and the object is that wire, for an
    -- output, or the cell, for an input, or if a connection of the module has the signal on its
    -- right and the object as the wire on its left.
    pub analyse_connections-SignalOf : Signals (analyse_connections p m) a s ↔ SignalOf m a s
    unfolding analyse_connections
    analyse_connections-SignalOf =
        let nothing : Analysis p = record { wires = wire_map.empty; signals = signal_map.empty } in
        let after_cells = foldl (note_cell p m) nothing (selected_cells m) in
        let (from, to) =
          foldl-adds (λ acc. Signals acc a s) _ (note_cell p m) note_cell-Signals (selected_cells m)
            nothing in
        let (from', to') =
          foldl-adds (λ acc. Signals acc a s) _ (note_connection p m) note_connection-Signals
            (connections m) after_cells in
        (
          λ h.
              ⊎_elim
                (λ cells.
                  ⊎_elim
                    (λ early.
                      absurd (false≢true (sym (linked-empty signal_set signal_map a s) ∙ early)))
                    inl (from cells))
                inr (from' h),
          λ h. to' (⊎_elim (λ by_cell. inl (to (inr by_cell))) inr h),
        )
