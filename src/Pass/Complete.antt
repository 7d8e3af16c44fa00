-- ===== src/Pass/Complete.antt =====
-- `execute` as a whole, against the specification of its work.
use Prim.Native.Nat.{◌^◌}
use tamara.Pass.{
  execute, run_module, sink_errors, Session, mark_memories_ignored, new_builder, sink_after,
  get_output_ports, locate_error_sink, process_outputs, finalise,
}
use tamara.Cone.Successors.{Globals}
use tamara.Voter.{new_builder, finalise}
use tamara.Pass.Runs.{Runs, process_outputs-RunsTo, process_successors-RunsTo, Runs-trans}
use tamara.Common.{
  List, refl, Option, Result, [], IfOk, some, ◌≡◌, ok, succeeds, IfOk-seq, Result-cases, err, subst,
  ℕ, IfOk-any, err≢ok, inr, some_injective, IfOk-at, inl, none, ◌+◌, ltb, String, ◌++◌, arith, bit,
  ◌≤◌, length, ◌⊎◌, Bool-cases, ltb→lt, ltb-false,
}
use tamara.Pass.Worklist.{◌⟶*◌, Job, Board, count, has_id, is_found, steps-Sound, start-Sound}
use tamara.Pass.Refinement.{board, Runs-⟶*}
use tamara.Util.Connections.{Connections, analyse_all}
use tamara.Rtlil.Platform.{Platform}

module _ (p : Platform) where
  open p use {kernel, name_set}
  open kernel use {Module, Wire}

  sink_errors-globals :
      (sink : Option Wire) (s : Session p)
      → IfOk (λ _ s'. s.globals ≡ s'.globals) (sink_errors p sink s)
  unfolding sink_errors
  sink_errors-globals none s = succeeds refl
  sink_errors-globals (some sink) s =
      IfOk-seq (IfOk-any (finalise kernel s.builder sink s.netlist)) (λ _ m _. succeeds refl)

  sink_after-some :
      (sink : Option Wire) (o : Option (Result (Unit {0} × Session p))) (s' : Session p)
      → sink_after p sink o ≡ some (ok (tt, s'))
      → (s : Session p) × (o ≡ some (ok (tt, s))) × (sink_errors p sink s ≡ ok (tt, s'))
  sink_after-some sink none s' h = cc
  sink_after-some sink (some (err e)) s' h = absurd (err≢ok (some_injective h))
  sink_after-some sink (some (ok (tt, s))) s' h = (s, refl, some_injective h)

  abbrev pub top_connections : Module → Connections p
  top_connections top = analyse_all p (mark_memories_ignored p top)

  abbrev pub first_session : Module → Globals p → Session p
  first_session top g = record {
    netlist = mark_memories_ignored p top;
    builder = new_builder kernel;
    globals = g;
  }

  -- The run on `top` processes these cones, from an empty queue to an empty queue.
  abbrev pub Processes : Module → Globals p → List (Job p) → Session p → Type 0
  Processes top g done s' =
      (s : Session p) × Runs p (top_connections top) ([], first_session top g) done ([], s)
      × (s.globals ≡ s'.globals)

  -- and then the reports come to the sink
  abbrev pub Sinks : Module → Option Wire → Globals p → List (Job p) → Session p → Type 0
  Sinks top sink g done s' =
      (s : Session p) × Runs p (top_connections top) ([], first_session top g) done ([], s)
      × (sink_errors p sink s ≡ ok (tt, s'))

  run_module-Sinks :
      (top : Module) (sink : Option Wire) (g : Globals p) (s' : Session p)
      → run_module p top sink g ≡ some (ok (tt, s'))
      → (done : List (Job p)) × Sinks top sink g done s'
  unfolding run_module
  run_module-Sinks top sink g s' h =
      let connections = top_connections top in
      let outputs = get_output_ports p (mark_memories_ignored p top) in
      let s0 = first_session top g in
      elim (Result-cases (process_outputs p connections outputs [] s0)) [
        | inr (e, failed) ↦ absurd (err≢ok (some_injective (rw (failed, run_module) at h)))
        | inl ((queue, s1), first_ends) ↦
            let (s2, drained, sunk) =
              sink_after-some sink _ s' (rw (first_ends, run_module) at h) in
            let (js, first) =
              IfOk-at (process_outputs-RunsTo p connections outputs [] s0) first_ends in
            let (ks, second) = process_successors-RunsTo p connections _ queue s1 s2 drained in
            (js ++ ks, (s2, Runs-trans p connections first second, sunk))
      ]

  pub execute-Sinks :
      (top : Module) (g : Globals p) (s' : Session p)
      → execute p (some top) g ≡ some (ok (tt, s'))
      → (sink : Option Wire) × (locate_error_sink p top ≡ ok sink)
        × (done : List (Job p)) × Sinks top sink g done s'
  unfolding execute
  execute-Sinks top g s' h = elim (Result-cases (locate_error_sink p top)) [
    | inr (e, failed) ↦ absurd (err≢ok (some_injective (rw (failed, execute) at h)))
    | inl (sink, located) ↦
        let (done, sinks) = run_module-Sinks top sink g s' (rw (located, execute) at h) in
        (sink, located, done, sinks)
  ]

  pub Sinks-Processes :
      (top : Module) (sink : Option Wire) (g : Globals p) (done : List (Job p)) (s' : Session p)
      → Sinks top sink g done s'
      → Processes top g done s'
  Sinks-Processes top sink g done s' (s, runs, sunk) =
      (s, runs, IfOk-at (sink_errors-globals sink s) sunk)

  execute-Processes :
      (top : Module) (g : Globals p) (s' : Session p)
      → execute p (some top) g ≡ some (ok (tt, s'))
      → (done : List (Job p)) × Processes top g done s'
  execute-Processes top g s' h =
      let (sink, _, done, sinks) = execute-Sinks top g s' h in
      (done, Sinks-Processes top sink g done s' sinks)

  abbrev pub start_board : Globals p → Board p
  start_board g = board p [] [] g

  -- If the command succeeds, then its rounds, from an empty queue to an empty queue, are a run of
  -- the specification: it opens, discovers and finishes cones, discovers no name twice, and ends
  -- with nothing pending and exactly the processed cones finished, at the ids and the explored
  -- names of the session.
  pub execute-Refines :
      (top : Module) (g : Globals p) (s' : Session p)
      → execute p (some top) g ≡ some (ok (tt, s'))
      → (done : List (Job p)) × Processes top g done s'
        × ◌⟶*◌ p (start_board g) (board p [] done s'.globals)
  execute-Refines top g s' h =
      let (done, (s, runs, same)) = execute-Processes top g s' h in
      (
        done,
        (s, runs, same),
        subst (λ g'. ◌⟶*◌ p (start_board g) (board p [] done g')) same
            (Runs-⟶* p (top_connections top) runs []),
      )

  -- If the command succeeds, then the counter of the ids came to its end, or each id that it gave
  -- to a cone belongs to exactly one processed cone and no other id to any. Each name that it
  -- explored anew belongs to exactly one processed cone that another cone found, and no other name
  -- to any.
  pub execute-once :
      (top : Module) (g : Globals p) (s' : Session p)
      → execute p (some top) g ≡ some (ok (tt, s'))
      → (done : List (Job p)) × Processes top g done s'
        × ((2 ^ 32 ≤ g.next_id + length done)
            ⊎ ((k : ℕ)
                → count p (has_id p k) done + bit (ltb k g.next_id)
                  ≡ bit (ltb k s'.globals.next_id)))
        × ((name : String)
            → count p (is_found p name) done + bit (name_set.contains g.explored name)
              ≡ bit (name_set.contains s'.globals.explored name))
  execute-once top g s' h =
      let (done, processes, run) = execute-Refines top g s' h in
      let sound = steps-Sound p run (start-Sound p (start_board g) refl refl) in
      (
        done,
        processes,
        elim (Bool-cases (ltb (g.next_id + length done) (2 ^ 32))) [
          | inl fits ↦
              inr (λ k. omega (arith, (sound.ids (omega (arith, ltb→lt _ _ fits))).unique k))
          | inr ended ↦ inl (ltb-false _ _ ended)
        ],
        λ name. omega (arith, sound.names name),
      )
