-- ===== src/FixWalker/Calm.antt =====
-- The fix walkers leave a netlist in which no wire has three replicated drivers and three readers.
use tamara.FixWalker.{
  process_wire, visit_wire, multi_driver_fixer, execute_walkers, run_walker, visit_cells,
  visit_ports, visit_wires, wire, rtlil_inverse_lookup, run_walkers, analyse_connections, cell,
  wire_at, signal_at, all_annotated,
}
use tamara.Util.Connections.{analyse_connections}
use tamara.Rtlil.Kernel.{wire, cell}
use tamara.Util.Lookups.{rtlil_inverse_lookup}
use tamara.Rtlil.Ports.{signal_at}
use tamara.Common.{
  List, Bool, Bool-cases, Result, M, String, inl, ◌∷◌, ◌≡◌, Option-cases, [], and_then, inr, length,
  ok, some, false, map, refl, ◌==◌, ◌&&◌,
}
use tamara.Rtlil.Platform.{Platform}

module _ (p : Platform) where
  open p use {kernel, ptr_set, wire_map}
  open kernel use {Wire, Cell, Module, cells, wires, cell_connections}

  module _ (connections : wire_map.Map) (m : Module) where
    -- three on either side, all of them replicated
    abbrev pub is_contested : Wire → ptr_set.Set → Bool
    is_contested w readers =
        let drivers = rtlil_inverse_lookup p connections w in
        (length drivers == 3 && length (ptr_set.elements readers) == 3)
        && (all_annotated p m (ptr_set.elements readers) && all_annotated p m drivers)

    abbrev pub IsCalm : Wire → Type 0
    IsCalm w =
        (readers : ptr_set.Set)
        → wire_map.find connections (wire w) ≡ some readers
        → is_contested w readers ≡ false

    process_wire-calm :
        (w : Wire) (readers : ptr_set.Set)
        → wire_map.find connections (wire w) ≡ some readers
        → is_contested w readers ≡ false
        → process_wire p w
            (length (rtlil_inverse_lookup p connections w))
            (length (ptr_set.elements readers))
            connections
            m
          ≡ ok (tt, m)
    unfolding process_wire
    process_wire-calm w readers found calm =
        let drivers = rtlil_inverse_lookup p connections w in
        let inputs = ptr_set.elements readers in
        elim (Bool-cases (length drivers == 3 && length inputs == 3)) [
          | inl three ↦
              let unmarked : (all_annotated p m inputs && all_annotated p m drivers) ≡ false =
                rw three at calm in
              rw (three, found, unmarked, process_wire) refl
          | inr fewer ↦ rw (fewer, process_wire) refl
        ]

    abbrev Stays : Result (ptr_set.Set × Module) → Type 0
    Stays r = (processed : ptr_set.Set) × (r ≡ ok (processed, m))

    module _ (calm : (w : Wire) → IsCalm w) where
      visit_wire-Stays :
          (w : Wire) (processed : ptr_set.Set)
          → Stays (visit_wire p (multi_driver_fixer p) connections w processed m)
      unfolding visit_wire
      visit_wire-Stays w processed = elim (Bool-cases (ptr_set.contains processed (wire w))) [
        | inl done ↦ rw (done, visit_wire) (_, refl)
        | inr new ↦ elim (Option-cases (wire_map.find connections (wire w))) [
          | inl missing ↦ rw (new, missing, visit_wire) (_, refl)
          | inr (readers, found) ↦
              rw (new, found, visit_wire)
                (rw (process_wire-calm w readers found (calm w readers found)) (_, refl))
        ]
      ]

      then_Stays :
          (r : Result (ptr_set.Set × Module)) (next : ptr_set.Set → M Module ptr_set.Set)
          → Stays r
          → ((processed : ptr_set.Set) → Stays (next processed m))
          → Stays (and_then r next)
      then_Stays r next (processed, e) rest = rw e (rest processed)

      visit_ports-Stays :
          (c : Cell) (names : List String) (processed : ptr_set.Set)
          → Stays (visit_ports p (multi_driver_fixer p) connections c names processed m)
      unfolding visit_ports
      visit_ports-Stays c [] processed = (processed, refl)
      visit_ports-Stays c (name ∷ names) processed =
          elim (Option-cases (
            wire_at p (multi_driver_fixer p) connections (signal_at name (cell_connections m c)))) [
              | inl none_there ↦ rw (none_there, visit_ports) (visit_ports-Stays c names processed)
              | inr (w, there) ↦
                  rw (there, visit_ports)
                    (then_Stays _ _ (visit_wire-Stays w processed)
                      (λ processed. visit_ports-Stays c names processed))
            ]

      visit_cells-Stays :
          (cs : List Cell) (processed : ptr_set.Set)
          → Stays (visit_cells p (multi_driver_fixer p) connections cs processed m)
      unfolding visit_cells
      visit_cells-Stays [] processed = (processed, refl)
      visit_cells-Stays (c ∷ cs) processed =
          elim (Bool-cases (ptr_set.contains processed (cell c))) [
            | inl done ↦ rw (done, visit_cells) (visit_cells-Stays cs processed)
            | inr new ↦
                rw (new, visit_cells)
                  (then_Stays _ _
                    (visit_ports-Stays c (map (λ port. port.0) (cell_connections m c))
                      (ptr_set.insert (cell c) processed))
                    (λ processed. visit_cells-Stays cs processed))
          ]

      visit_wires-Stays :
          (ws : List Wire) (processed : ptr_set.Set)
          → Stays (visit_wires p (multi_driver_fixer p) connections ws processed m)
      unfolding visit_wires
      visit_wires-Stays [] processed = (processed, refl)
      visit_wires-Stays (w ∷ ws) processed =
          then_Stays _ _ (visit_wire-Stays w processed)
            (λ processed. visit_wires-Stays ws processed)

      run_walker-Stays : Stays (run_walker p (multi_driver_fixer p) connections m)
      unfolding run_walker
      run_walker-Stays =
          then_Stays _ _ (visit_cells-Stays (cells m) ptr_set.empty)
            (λ processed. visit_wires-Stays (wires m) processed)

  -- If no wire of the netlist has three drivers and three readers that are all annotated with a
  -- cone, then the run of the fix walkers succeeds and changes nothing.
  pub execute_walkers-calm :
      (m : Module)
      → ((w : Wire) → IsCalm (analyse_connections p m).wires m w)
      → execute_walkers p (multi_driver_fixer p ∷ []) m ≡ ok (tt, m)
  unfolding execute_walkers run_walkers
  execute_walkers-calm m calm =
      let (processed, stays) = run_walker-Stays (analyse_connections p m).wires m calm in
      rw stays refl
