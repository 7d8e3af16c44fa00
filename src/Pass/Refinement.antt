-- ===== src/Pass/Refinement.antt =====
-- The loops of `execute` do the work that the specification describes.
use mathlib.Core.List.{map-append, append_assoc}
use Prim.Native.Nat.{◌%◌, ◌^◌}
use tamara.Cone.Node.{Node, get_node_name}
use tamara.Cone.Search.{search, LogicCone}
use tamara.Pass.{process_cone, Session, wire_cone}
use tamara.Cone.Replicate.{replicate}
use tamara.Cone.Wiring.{wire_cone}
use tamara.Common.{
  refl, List, map, ◌++◌, IfOk, true, ◌≡◌, ◌+◌, succeeds, Bool-cases, inl, inr, fails, ok, ◌∷◌, [],
  append_nil, false, IfOk-at, Result-cases, IfOk-seq, ◌&&◌, IfOk-any, not, arith,
}
use tamara.Cone.Successors.{
  Globals, new_logic_cone, make_cone, successors_of, build_successors, has_neighbours,
}
use tamara.Pass.Runs.{job, Stage, Runs, output_round, successor_round, stop}
use tamara.Rtlil.Kernel.{wire, cell}
use tamara.Pass.Worklist.{
  onward, ◌⟶◌, ◌⟶*◌, Job, Board, here, finish, discover, open_output, ⟶*-trans,
}
use tamara.Util.Connections.{Connections, Ptr, is_dff}
use tamara.Rtlil.Platform.{Platform}

module _ (p : Platform) where
  open p use {kernel, name_set, wire_map}
  open kernel use {Module, Wire}

  abbrev pub board : List (Job p) → List (Job p) → Globals p → Board p
  board pending finished g = record {
    pending = pending;
    finished = finished;
    next_id = g.next_id;
    explored = g.explored;
  }

  abbrev found : List (LogicCone p) → List (Job p)
  found = map (job p true)

  -- from whatever is pending and finished
  abbrev Finds : Globals p → List (LogicCone p) → Globals p → Type 0
  Finds g cones g' =
      (pending finished : List (Job p))
      → ◌⟶*◌ p (board pending finished g) (board (pending ++ found cones) finished g')

  new_logic_cone-job :
      (x : Ptr p) (g : Globals p)
      → IfOk
          (λ c g'.
            (c.id ≡ g.next_id)
            × (c.output_node.obj ≡ x)
            × (g' ≡ record g { next_id = (g.next_id + 1) % 2 ^ 32 }))
          (new_logic_cone p x g)
  unfolding new_logic_cone make_cone
  new_logic_cone-job (wire w) g = succeeds (refl, refl, refl)
  new_logic_cone-job (cell c) g = elim (Bool-cases (is_dff kernel c)) [
    | inl dff ↦ rw dff (succeeds (refl, refl, refl))
    | inr other ↦ rw other fails
  ]

  found_job :
      (n : Node p) (c : LogicCone p) (g g' : Globals p) (pending finished : List (Job p))
      → name_set.contains g.explored (get_node_name p n) ≡ false
      → c.id ≡ g.next_id
      → c.output_node.obj ≡ n.obj
      → g' ≡ record g { next_id = (g.next_id + 1) % 2 ^ 32 }
      → ◌⟶◌ p (board pending finished g) (
          board
            (pending ++ job p true c ∷ [])
            finished
            (record g' { explored = name_set.insert (get_node_name p n) g'.explored }))
  found_job n c g g' pending finished unseen id obj next =
      rw (id, obj, next) (discover (board pending finished g) n.obj unseen)

  successors_of-Finds :
      (connections : wire_map.Map) (ns : List (Node p)) (g : Globals p)
      → IfOk (Finds g) (successors_of p connections ns g)
  unfolding successors_of
  successors_of-Finds connections [] g = succeeds (λ pending finished. rw (append_nil pending) here)
  successors_of-Finds connections (n ∷ ns) g =
      elim (Bool-cases (
        has_neighbours p connections n.obj
        && not (name_set.contains g.explored (get_node_name p n)))) [
          | inr passed ↦ rw (passed, successors_of) (successors_of-Finds connections ns g)
          | inl taken ↦
              rw (taken, successors_of)
                (IfOk-seq (new_logic_cone-job n.obj g) (λ c g' (id, obj, next).
                  IfOk-seq (successors_of-Finds connections ns _) (λ cones g'' more.
                    succeeds (λ pending finished.
                      onward (found_job n c g g' pending finished (ground arith) id obj next) (
                        rw (← append_assoc pending (job p true c ∷ []) (found cones))
                          (more (pending ++ job p true c ∷ []) finished))))))
        ]

  module _ (connections : Connections p) where
    process_cone-Finds :
        (c : LogicCone p) (s : Session p)
        → IfOk (λ cones s'. Finds s.globals cones s'.globals) (process_cone p connections c s)
    unfolding process_cone build_successors
    process_cone-Finds c s = elim (Result-cases (search p connections.wires c)) [
      | inr (e, failed) ↦ rw (failed, process_cone) fails
      | inl (c', found_cone) ↦
          rw (found_cone, process_cone)
            (IfOk-seq (IfOk-any (replicate p c' (λ _. []) s.netlist)) (λ replicas m _.
              IfOk-seq (IfOk-any (wire_cone p c' replicas connections s.builder m)) (λ builder m' _.
                IfOk-seq (successors_of-Finds connections.wires c'.input_nodes s.globals)
                  (λ cones globals h. succeeds h))))
    ]

    abbrev stage : Stage p connections → List (Job p) → Board p
    stage (queue, s) finished = board (found queue) finished s.globals

    -- the job at the front is finished, and its cones are found
    processed :
        (j : Job p) (queue cones : List (LogicCone p)) (g g' : Globals p) (finished : List (Job p))
        → Finds g cones g'
        → ◌⟶*◌ p
            (board (j ∷ found queue) finished g)
            (board (found (queue ++ cones)) (finished ++ j ∷ []) g')
    processed j queue cones g g' finished finds =
        onward (finish (board (j ∷ found queue) finished g) [] j (found queue) refl)
          (rw (map-append (job p true) queue cones) (finds (found queue) (finished ++ j ∷ [])))

    opened :
        (w : Wire) (c : LogicCone p) (g g' : Globals p) (pending finished : List (Job p))
        → new_logic_cone p (wire w) g ≡ ok (c, g')
        → ◌⟶◌ p (board pending finished g) (board (job p false c ∷ pending) finished g')
    opened w c g g' pending finished made =
        let (id, obj, next) = IfOk-at (new_logic_cone-job (wire w) g) made in
        rw (id, obj, next) (open_output (board pending finished g) (wire w))

    pub Runs-⟶* :
        {a b : Stage p connections} {done : List (Job p)}
        → Runs p connections a done b
        → (finished : List (Job p)) → ◌⟶*◌ p (stage a finished) (stage b (finished ++ done))
    Runs-⟶* stop finished = rw (append_nil finished) here
    Runs-⟶* (output_round {queue} {cones} {s} {s1} {done = js} w c g made done more) finished =
        onward (opened w c s.globals g (found queue) finished made) (
          ⟶*-trans p
            (processed (job p false c) queue cones g s1.globals finished
              (IfOk-at (process_cone-Finds c (record s { globals = g })) done))
            (rw (← append_assoc finished (job p false c ∷ []) js)
              (Runs-⟶* more (finished ++ job p false c ∷ []))))
    Runs-⟶* (successor_round {queue} {cones} {s} {s1} {done = js} c done more) finished =
        ⟶*-trans p
          (processed (job p true c) queue cones s.globals s1.globals finished
            (IfOk-at (process_cone-Finds c s) done))
          (rw (← append_assoc finished (job p true c ∷ []) js)
            (Runs-⟶* more (finished ++ job p true c ∷ [])))
