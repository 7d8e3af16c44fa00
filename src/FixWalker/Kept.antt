-- ===== src/FixWalker/Kept.antt =====
-- The walk of src/fix_walker.cpp over a whole netlist leaves its voters intact.
use tamara.FixWalker.{
  execute_walkers, run_walker, visit_cells, visit_ports, visit_wire, visit_wires,
  multi_driver_fixer, run_walkers, analyse_connections, wire_at, signal_at,
}
use tamara.Util.Connections.{analyse_connections}
use tamara.Rtlil.Ports.{signal_at}
use tamara.Common.{List, Option-cases, String, inl, ◌∷◌, Bool-cases, inr, [], succeeds}
use tamara.Rtlil.Circuit.{Circuit}
use tamara.Rtlil.Gates.{Gates, Marks}
use tamara.Rtlil.Intact.{Keeps, Keeps-then, Keeps-pure, Keeps-seq, Intact-refl}
use tamara.Rtlil.Platform.{Platform}
use tamara.Rtlil.Kernel.{wire, cell}
use tamara.FixWalker.Intact.{Keeps-process_wire}

module _ (p : Platform) (s : Circuit p.kernel) (g : Gates p.kernel s) (marks : Marks p.kernel) where
  open p use {kernel, ptr_set, wire_map}
  open kernel use {
    Wire, Cell, Module, width, of_wire, cells, wires, cell_type, cell_connections, cell_output,
    has_attribute,
  }

  module _ (connections : wire_map.Map) where
    visit_wire-Intact :
        (w : Wire) (processed : ptr_set.Set)
        → Keeps kernel s g marks (visit_wire p (multi_driver_fixer p) connections w processed)
    unfolding visit_wire
    visit_wire-Intact w processed = elim (Bool-cases (ptr_set.contains processed (wire w))) [
      | inl done ↦ rw (done, visit_wire) (Keeps-pure kernel s g marks processed)
      | inr fresh ↦ elim (Option-cases (wire_map.find connections (wire w))) [
        | inl missing ↦ rw (fresh, missing, visit_wire) (Keeps-pure kernel s g marks processed)
        | inr (drivers, found) ↦
            rw (fresh, found, visit_wire)
              (Keeps-then kernel s g marks _ _ (Keeps-process_wire p s g marks w _ _ connections)
                (Keeps-pure kernel s g marks _))
      ]
    ]

    visit_ports-Intact :
        (c : Cell) (names : List String) (processed : ptr_set.Set)
        → Keeps kernel s g marks
            (visit_ports p (multi_driver_fixer p) connections c names processed)
    unfolding visit_ports
    visit_ports-Intact c [] processed = Keeps-pure kernel s g marks processed
    visit_ports-Intact c (name ∷ names) processed = record {
      at = λ m tidy.
          elim (Option-cases (
            wire_at p (multi_driver_fixer p) connections (signal_at name (cell_connections m c)))) [
              | inl missing ↦
                  rw (missing, visit_ports) ((visit_ports-Intact c names processed).at m tidy)
              | inr (w, found) ↦
                  rw (found, visit_ports)
                    (Keeps-seq kernel s g marks ((visit_wire-Intact w processed).at m tidy)
                      (λ done m' kept. (visit_ports-Intact c names done).at m' kept.tidy))
            ];
    }

    visit_cells-Intact :
        (cs : List Cell) (processed : ptr_set.Set)
        → Keeps kernel s g marks (visit_cells p (multi_driver_fixer p) connections cs processed)
    unfolding visit_cells
    visit_cells-Intact [] processed = Keeps-pure kernel s g marks processed
    visit_cells-Intact (c ∷ cs) processed = record {
      at = λ m tidy. elim (Bool-cases (ptr_set.contains processed (cell c))) [
        | inl done ↦ rw (done, visit_cells) ((visit_cells-Intact cs processed).at m tidy)
        | inr fresh ↦
            rw (fresh, visit_cells)
              (Keeps-seq kernel s g marks ((visit_ports-Intact c _ _).at m tidy)
                (λ done m' kept. (visit_cells-Intact cs done).at m' kept.tidy))
      ];
    }

    visit_wires-Intact :
        (ws : List Wire) (processed : ptr_set.Set)
        → Keeps kernel s g marks (visit_wires p (multi_driver_fixer p) connections ws processed)
    unfolding visit_wires
    visit_wires-Intact [] processed = Keeps-pure kernel s g marks processed
    visit_wires-Intact (w ∷ ws) processed = record {
      at = λ m tidy.
          Keeps-seq kernel s g marks ((visit_wire-Intact w processed).at m tidy)
            (λ done m' kept. (visit_wires-Intact ws done).at m' kept.tidy);
    }

    run_walker-Intact : Keeps kernel s g marks (run_walker p (multi_driver_fixer p) connections)
    unfolding run_walker
    run_walker-Intact = record {
      at = λ m tidy.
          Keeps-seq kernel s g marks ((visit_cells-Intact (cells m) ptr_set.empty).at m tidy)
            (λ done m' kept. (visit_wires-Intact (wires m') done).at m' kept.tidy);
    }

  pub execute_walkers-Intact :
      Keeps kernel s g marks (execute_walkers p (multi_driver_fixer p ∷ []))
  unfolding execute_walkers run_walkers
  execute_walkers-Intact = record {
    at = λ m tidy.
        Keeps-seq kernel s g marks ((run_walker-Intact (analyse_connections p m).wires).at m tidy)
          (λ _ m' kept. succeeds (Intact-refl kernel s g marks m' kept.tidy));
  }
