-- ===== src/Util/Neighbours.antt =====
-- `analyseConnections` of src/util.cpp against the relation that it is to compute.
use mathlib.Core.Path.{subst₂}
use mathlib.Core.Bool.{false≢true}
use tamara.Common.{
  some_unique, ◌&&◌, subst, ◌≡◌, sym, ◌∙◌, ◌↔◌, ◌⊎◌, inl, inr, ⊎_elim, Bool, true, false, some, In,
  arith, Bool-cases, Option-cases, foldl-adds, String, if◌then◌else◌,
}
use tamara.Rtlil.Kernel.{wire, cell}
use tamara.Rtlil.Platform.{Platform}
use tamara.Util.Connections.{
  Ptr, Analysis, sig_spec_to_wire, should_consider_for_tmr, note_port, note_cell, note_connection,
  analyse_connections, note, link_wire, link_signal,
}
use tamara.Util.Links.{linked, linked-empty, linked-link_wire}

module _ (p : Platform) where
  open p use {kernel, ptr_set, wire_map, signal_map}
  open kernel use {
    Wire, Cell, SigSpec, Module, selected_cells, cell_type, cell_connections, connections,
    cell_input, cell_output,
  }

  abbrev pub Considered : Module → Ptr p → Type 0
  Considered m x = should_consider_for_tmr kernel m x ≡ true

  abbrev pub Through : Cell → String → Wire → Ptr p → Ptr p → Type 0
  Through c name w a b =
      (cell_output (cell_type c) name ≡ true) × (wire w ≡ a) × (cell c ≡ b)
      ⊎ (cell_input (cell_type c) name ≡ true) × (cell c ≡ a) × (wire w ≡ b)

  -- What a port of a cell connects, where its signal has a wire: on an output the wire with the
  -- cell, on an input the cell with the wire.
  abbrev pub Port : Cell → String × SigSpec → Ptr p → Ptr p → Type 0
  Port c (name, signal) a b =
      (w : Wire) × (sig_spec_to_wire kernel signal ≡ some w) × Through c name w a b

  -- two wires that are not ignored
  abbrev pub Between : Module → Wire → Wire → Ptr p → Ptr p → Type 0
  Between m l r a b = Considered m (wire l) × Considered m (wire r) × (wire l ≡ a) × (wire r ≡ b)

  -- what a connection of the module connects, where both sides have a wire
  abbrev pub Joined : Module → SigSpec × SigSpec → Ptr p → Ptr p → Type 0
  Joined m (lhs, rhs) a b =
      (l : Wire) × (r : Wire) × (sig_spec_to_wire kernel lhs ≡ some l)
      × (sig_spec_to_wire kernel rhs ≡ some r)
      × Between m l r a b

  -- `b` is a neighbour of `a` on the way back from the outputs
  abbrev pub Neighbour : Module → Ptr p → Ptr p → Type 0
  Neighbour m a b =
      ((c : Cell) × In c (selected_cells m)
        × (Considered m (cell c)
            × ((port : String × SigSpec) × In port (cell_connections m c) × Port c port a b)))
      ⊎ ((joint : SigSpec × SigSpec) × In joint (connections m) × Joined m joint a b)

  abbrev pub Linked : Analysis p → Ptr p → Ptr p → Type 0
  Linked acc a b = linked ptr_set wire_map acc.wires a b ≡ true

  module _ (m : Module) (a b : Ptr p) where
    -- the two tests of a port, with their results `o` and `i`
    ports-add :
        (c : Cell) (w : Wire) (signal : SigSpec) (acc : Analysis p) (o i : Bool)
        → let after_output = if o then note p (wire w) (cell c) signal acc else acc in
          Linked (if i then note p (cell c) (wire w) signal after_output else after_output) a b ↔ (
            Linked acc a b
            ⊎ ((o ≡ true) × (wire w ≡ a) × (cell c ≡ b) ⊎ (i ≡ true) × (cell c ≡ a) × (wire w ≡ b)))
    ports-add c w signal acc true true = ground (
      arith,
      linked-link_wire p (wire w) (cell c) acc.wires a b,
      linked-link_wire p (cell c) (wire w) (link_wire p (wire w) (cell c) acc.wires) a b,
    )
    ports-add c w signal acc true false =
        ground (arith, linked-link_wire p (wire w) (cell c) acc.wires a b)
    ports-add c w signal acc false true =
        ground (arith, linked-link_wire p (cell c) (wire w) acc.wires a b)
    ports-add c w signal acc false false = ground arith

    note_port-adds :
        (c : Cell) (acc : Analysis p) (port : String × SigSpec)
        → Linked (note_port p c acc port) a b ↔ (Linked acc a b ⊎ Port c port a b)
    unfolding note_port
    note_port-adds c acc (name, signal) = elim (Option-cases (sig_spec_to_wire kernel signal)) [
      | inl no_wire ↦ rw (no_wire, note_port) (inl, ⊎_elim (λ l. l) (λ (w, is, _). cc))
      | inr (w, is_w) ↦
          let ports =
            ports-add c w signal acc (cell_output (cell_type c) name)
              (cell_input (cell_type c) name) in
          let same =
            λ (u : Wire) (is : sig_spec_to_wire kernel signal ≡ some u). some_unique _ is is_w in
          (
            λ h. ⊎_elim inl (λ x. inr (w, is_w, x)) (ports.0 (rw (is_w, note_port) at h)),
            λ h.
                rw (is_w, note_port)
                  (ports.1 (
                    ⊎_elim inl (λ (u, is, x). inr (subst (λ t. Through c name t a b) (same u is) x))
                      h)),
          )
    ]

    note_cell-adds :
        (acc : Analysis p) (c : Cell)
        → Linked (note_cell p m acc c) a b ↔ (
            Linked acc a b
            ⊎ (Considered m (cell c)
                × ((port : String × SigSpec) × In port (cell_connections m c) × Port c port a b)))
    unfolding note_cell
    note_cell-adds acc c =
        let ports =
          foldl-adds (λ acc. Linked acc a b) (λ port. Port c port a b) (note_port p c)
            (note_port-adds c) (cell_connections m c) acc in
        elim (Bool-cases (should_consider_for_tmr kernel m (cell c))) [
          | inl considered ↦ (
            λ h. ⊎_elim inl (λ x. inr (considered, x)) (ports.0 (rw (considered, note_cell) at h)),
            λ h. rw (considered, note_cell) (ports.1 (⊎_elim inl (λ (_, x). inr x) h)),
          )
          | inr ignored ↦ (
            λ h. inl (rw (ignored, note_cell) at h),
            ⊎_elim (λ l. rw (ignored, note_cell) l) (λ (considered, _). cc),
          )
        ]

    joint-adds :
        (l r : Wire) (signals : signal_map.Map) (acc : Analysis p) (left right : Bool)
        → Linked
            (if left && right
              then record { wires = link_wire p (wire l) (wire r) acc.wires; signals = signals }
              else record { wires = acc.wires; signals = signals })
            a
            b
          ↔ (Linked acc a b ⊎ (left ≡ true) × (right ≡ true) × (wire l ≡ a) × (wire r ≡ b))
    joint-adds l r signals acc true true =
        ground (arith, linked-link_wire p (wire l) (wire r) acc.wires a b)
    joint-adds l r signals acc true false = ground arith
    joint-adds l r signals acc false right = ground arith

    note_connection-adds :
        (acc : Analysis p) (joint : SigSpec × SigSpec)
        → Linked (note_connection p m acc joint) a b ↔ (Linked acc a b ⊎ Joined m joint a b)
    unfolding note_connection
    note_connection-adds acc (lhs, rhs) = elim (Option-cases (sig_spec_to_wire kernel lhs)) [
      | inl no_left ↦
          rw (no_left, note_connection) (inl, ⊎_elim (λ h. h) (λ (l, r, is, is', _). cc))
      | inr (l, is_l) ↦ elim (Option-cases (sig_spec_to_wire kernel rhs)) [
        | inl no_right ↦
            rw (is_l, no_right, note_connection) (inl, ⊎_elim (λ h. h) (λ (l', r', _, is, _). cc))
        | inr (r, is_r) ↦
            let joints =
              joint-adds l r (link_signal p (wire l) rhs acc.signals) acc
                (should_consider_for_tmr kernel m (wire l))
                (should_consider_for_tmr kernel m (wire r)) in
            (
              λ h.
                  ⊎_elim inl (λ x. inr (l, r, is_l, is_r, x))
                    (joints.0 (rw (is_l, is_r, note_connection) at h)),
              λ h.
                  rw (is_l, is_r, note_connection)
                    (joints.1 (
                      ⊎_elim inl
                        (λ (l', r', is, is', x). inr (
                          subst₂ (λ t u. Between m t u a b) (some_unique _ is is_l)
                            (some_unique _ is' is_r) x))
                        h)),
            )
      ]
    ]

  -- The map that `analyseConnections` returns relates two objects exactly if they are neighbours:
  -- by a port of a selected cell that is not ignored, or by a connection of the module between two
  -- wires that are not ignored.
  pub analyse_connections-Neighbour :
      (m : Module) (a b : Ptr p) → Linked (analyse_connections p m) a b ↔ Neighbour m a b
  unfolding analyse_connections
  analyse_connections-Neighbour m a b =
      let by_cells =
        foldl-adds (λ acc. Linked acc a b) _ (note_cell p m) (note_cell-adds m a b)
          (selected_cells m) _ in
      let by_joints =
        foldl-adds (λ acc. Linked acc a b) _ (note_connection p m) (note_connection-adds m a b)
          (connections m) _ in
      (
        λ h.
            ⊎_elim
              (λ cells.
                ⊎_elim
                  (λ none_yet.
                    absurd (false≢true (sym (linked-empty ptr_set wire_map a b) ∙ none_yet)))
                  inl (by_cells.0 cells))
              inr (by_joints.0 h),
        λ h. by_joints.1 (⊎_elim (λ c. inl (by_cells.1 (inr c))) inr h),
      )
