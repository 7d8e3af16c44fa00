-- ===== src/Pass/Ends.antt =====
-- The command ends: the loop of the search does, and the loop over the successors.
use tamara.Cone.Search.{LogicCone, search}
use tamara.Cone.Search.Ends.{search-ends}
use tamara.Cone.Successors.Explored.{unexplored, keys, successors_of-unexplored}
use tamara.Cone.Successors.{build_successors, Globals}
use tamara.Cone.Search.Fuel.{unvisited}
use tamara.Cone.Replicate.{replicate}
use tamara.Cone.Wiring.{wire_cone}
use tamara.Voter.{new_builder}
use tamara.Common.{
  List, Option, ℕ, Result, length, IfOk, ◌+◌, ◌≡◌, some, ◌≤◌, Result-cases, arith, ◌∷◌, inr, suc,
  fails, inl, IfOk-seq, none, ◌++◌, IfOk-any, IfOk-at, refl, length-append, [], succeeds, zero, ◌≢◌,
  err, Error,
}
use tamara.Util.Connections.{Connections, Ptr, analyse_all}
use tamara.Pass.{
  Session, execute, process_cone, process_successors, build_successors, run_module,
  locate_error_sink, replicate, wire_cone, mark_memories_ignored, sink_after, analyse_all,
  new_builder, process_outputs, get_output_ports, enough_rounds,
}
use tamara.Rtlil.Platform.{Platform}

module _ (p : Platform) where
  open p use {kernel, wire_map}
  open kernel use {Module}

  module _ (connections : Connections p) where
    abbrev left : Session p → ℕ
    left s = unexplored p connections.wires s.globals

    process_cone-left :
        (c : LogicCone p) (s : Session p)
        → IfOk (λ cones s'. length cones + left s' ≤ left s) (process_cone p connections c s)
    unfolding process_cone build_successors
    process_cone-left c s = elim (Result-cases (search p connections.wires c)) [
      | inr (e, failed) ↦ rw (failed, process_cone) fails
      | inl (c', found) ↦
          rw (found, process_cone)
            (IfOk-seq (IfOk-any (replicate p c' (λ _. []) s.netlist)) (λ replicas m _.
              IfOk-seq (IfOk-any (wire_cone p c' replicas connections s.builder m)) (λ builder m' _.
                IfOk-seq (successors_of-unexplored p connections.wires c'.input_nodes s.globals)
                  (λ cones globals h. succeeds h))))
    ]

    abbrev Ended : Option (Result (Unit {0} × Session p)) → Type 0
    Ended o = (r : Result (Unit {0} × Session p)) × (o ≡ some r)

    process_successors-Ended :
        (rounds : ℕ) (queue : List (LogicCone p)) (s : Session p)
        → length queue + left s ≤ rounds
        → Ended (process_successors p connections rounds queue s)
    unfolding process_successors
    process_successors-Ended rounds [] s h = (_, refl)
    process_successors-Ended zero (c ∷ queue) s h = absurd (omega arith)
    process_successors-Ended (suc rounds) (c ∷ queue) s h =
        elim (Result-cases (process_cone p connections c s)) [
          | inr (e, failed) ↦ rw (failed, process_successors) (_, refl)
          | inl ((cones, s'), done) ↦
              rw (done, process_successors)
                (process_successors-Ended rounds (queue ++ cones) s' (
                  omega
                    (arith, h, IfOk-at (process_cone-left c s) done, length-append queue cones)))
        ]

  keys-length :
      (es : List (Ptr p × p.ptr_set.Set)) (visited : p.name_set.Set)
      → unvisited p (keys p es) visited ≤ length es
  keys-length [] visited = omega arith
  keys-length ((a, s) ∷ es) visited = ground (arith, keys-length es visited)

  sink_after-Ended :
      (sink : Option kernel.Wire) (o : Option (Result (Unit {0} × Session p)))
      → (r : Result (Unit {0} × Session p)) × (o ≡ some r)
      → (r : Result (Unit {0} × Session p)) × (sink_after p sink o ≡ some r)
  sink_after-Ended sink o (r, e) = rw e (_, refl)

  run_module-Ended :
      (top : Module) (sink : Option kernel.Wire) (globals : Globals p)
      → (r : Result (Unit {0} × Session p)) × (run_module p top sink globals ≡ some r)
  unfolding run_module
  run_module-Ended top sink globals =
      let m = mark_memories_ignored p top in
      let connections = analyse_all p m in
      let s : Session p = record { netlist = m; builder = new_builder kernel; globals = globals } in
      elim (Result-cases (process_outputs p connections (get_output_ports p m) [] s)) [
        | inr (e, failed) ↦ rw (failed, run_module) (_, refl)
        | inl ((queue, s'), done) ↦
            rw (done, run_module)
              (sink_after-Ended sink _ (
                process_successors-Ended connections (enough_rounds p connections queue) queue s' (
                  omega
                    (arith, keys-length (wire_map.entries connections.wires) s'.globals.explored))))
      ]

  command-Ended :
      (top : Option Module) (globals : Globals p)
      → (r : Result (Unit {0} × Session p)) × (execute p top globals ≡ some r)
  unfolding execute
  command-Ended none globals = (_, refl)
  command-Ended (some top) globals = elim (Result-cases (locate_error_sink p top)) [
    | inr (e, failed) ↦ rw (failed, execute) (_, refl)
    | inl (sink, found) ↦ rw (found, execute) (run_module-Ended top sink globals)
  ]

  -- Both loops of the command that count their rounds end before these run out. On whatever map and
  -- whatever cone, the search needs no more rounds than the map has neighbours, and one. Whatever the
  -- design, the loop over the successors needs no more rounds than its queue has cones and the map has
  -- entries.
  pub execute-Ended :
      (connections : wire_map.Map) (c : LogicCone p) (top : Option Module) (globals : Globals p)
      → (search p connections c ≢ err Error.out_of_fuel)
        × ((r : Result (Unit {0} × Session p)) × (execute p top globals ≡ some r))
  execute-Ended connections c top globals = (search-ends p connections c, command-Ended top globals)
