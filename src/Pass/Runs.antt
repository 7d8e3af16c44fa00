-- ===== src/Pass/Runs.antt =====
-- What the loops of `execute` do with their cones, round by round.
use tamara.Cone.Search.{LogicCone}
use tamara.Pass.Worklist.{Job}
use tamara.Pass.{
  Session, process_outputs, process_successors, Globals, process_output, wire, process_cone,
  error_sink_annotation,
}
use tamara.Cone.Successors.{Globals, new_logic_cone}
use tamara.Rtlil.Kernel.{wire}
use tamara.Util.Names.{error_sink_annotation}
use tamara.Common.{
  List, Bool, [], ◌++◌, IfOk, ℕ, and_then, succeeds, ◌≡◌, some, ◌∷◌, Bool-cases, ok, Result-cases,
  false, subst, ap, inl, inr, true, append_nil, fails, ok_injective, IfOk-seq, some_injective,
  IfOk-itself, suc, IfOk-weaken, err≢ok, zero,
}
use tamara.Util.Connections.{Connections}
use tamara.Rtlil.Platform.{Platform}

module _ (p : Platform) where
  open p use {kernel}
  open kernel use {Wire}

  abbrev pub job : Bool → LogicCone p → Job p
  job found c = record { id = c.id; obj = c.output_node.obj; found = found }

  module _ (connections : Connections p) where
    -- the queue of successors and the session
    abbrev pub Stage : Type 0
    Stage = List (LogicCone p) × Session p

    -- A run between two stages, with the cones that were processed, in order. A round of either
    -- loop of `execute` is one step.
    pub data Runs : Stage → List (Job p) → Stage → Type 0 where
      stop : {a : Stage} → Runs a [] a
      output_round :
          {queue cones : List (LogicCone p)} {s s1 : Session p} {done : List (Job p)} {b : Stage}
          (w : Wire) (c : LogicCone p) (g : Globals p)
          → new_logic_cone p (wire w) s.globals ≡ ok (c, g)
          → process_cone p connections c (record s { globals = g }) ≡ ok (cones, s1)
          → Runs (queue ++ cones, s1) done b
          → Runs (queue, s) (job false c ∷ done) b
      successor_round :
          {queue cones : List (LogicCone p)} {s s1 : Session p} {done : List (Job p)} {b : Stage}
          (c : LogicCone p)
          → process_cone p connections c s ≡ ok (cones, s1)
          → Runs (queue ++ cones, s1) done b
          → Runs (c ∷ queue, s) (job true c ∷ done) b

    pub Runs-trans :
        {a b c : Stage} {js ks : List (Job p)} → Runs a js b → Runs b ks c → Runs a (js ++ ks) c
    Runs-trans stop rest = rest
    Runs-trans (output_round w c g made done more) rest =
        output_round w c g made done (Runs-trans more rest)
    Runs-trans (successor_round c done more) rest = successor_round c done (Runs-trans more rest)

    abbrev pub RunsTo : Stage → Stage → Type 0
    RunsTo a b = (done : List (Job p)) × Runs a done b

    outputs_round :
        (w : Wire) (ws : List Wire) (queue : List (LogicCone p)) (s : Session p)
        → ((queue : List (LogicCone p)) (s : Session p)
            → IfOk
                (λ queue' s'. RunsTo (queue, s) (queue', s'))
                (process_outputs p connections ws queue s))
        → IfOk
            (λ queue' s'. RunsTo (queue, s) (queue', s'))
            (and_then
              (and_then
                (new_logic_cone p (wire w) s.globals)
                (λ c g. process_cone p connections c (record s { globals = g })))
              (λ cones s1. process_outputs p connections ws (queue ++ cones) s1))
    outputs_round w ws queue s rest = elim (Result-cases (new_logic_cone p (wire w) s.globals)) [
      | inr (e, failed) ↦ rw failed fails
      | inl ((c, g), made) ↦ rw made (
          IfOk-seq (IfOk-itself (process_cone p connections c (record s { globals = g })))
            (λ cones s1 done.
              IfOk-weaken (rest (queue ++ cones) s1)
                (λ queue' s' (js, more). (_, output_round w c g made done more))))
    ]

    -- the first loop, over the output ports
    pub process_outputs-RunsTo :
        (outputs : List Wire) (queue : List (LogicCone p)) (s : Session p)
        → IfOk
            (λ queue' s'. RunsTo (queue, s) (queue', s'))
            (process_outputs p connections outputs queue s)
    unfolding process_outputs process_output
    process_outputs-RunsTo [] queue s = succeeds ([], stop)
    process_outputs-RunsTo (w ∷ ws) queue s =
        elim (Bool-cases (kernel.has_attribute s.netlist (wire w) error_sink_annotation)) [
          | inl sink ↦
              rw (sink, process_outputs, process_output, append_nil queue)
                (process_outputs-RunsTo ws queue s)
          | inr other ↦
              rw (other, process_outputs, process_output)
                (outputs_round w ws queue s (process_outputs-RunsTo ws))
        ]

    -- the second loop, over the queue
    pub process_successors-RunsTo :
        (rounds : ℕ) (queue : List (LogicCone p)) (s s' : Session p)
        → process_successors p connections rounds queue s ≡ some (ok (tt, s'))
        → RunsTo (queue, s) ([], s')
    unfolding process_successors
    process_successors-RunsTo rounds [] s s' h = (
      [],
      subst (λ t. Runs ([], s) [] ([], t)) (ap (λ x. x.1) (ok_injective (some_injective h))) stop,
    )
    process_successors-RunsTo zero (c ∷ queue) s s' h = cc
    process_successors-RunsTo (suc rounds) (c ∷ queue) s s' h =
        elim (Result-cases (process_cone p connections c s)) [
          | inr (e, failed) ↦
              absurd (err≢ok (some_injective (rw (failed, process_successors) at h)))
          | inl ((cones, s1), done) ↦
              let (js, more) =
                process_successors-RunsTo rounds (queue ++ cones) s1 s'
                  (rw (done, process_successors) at h) in
              (_, successor_round c done more)
        ]
