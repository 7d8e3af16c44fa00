-- ===== src/Pass/Votes.antt =====
-- What the netlist that `execute` of src/tamara_tmr_pass.cpp leaves behind says about the voters of
-- all cones and about the error sink.
use tamara.Pass.{
  Session, mark_memories_ignored, mark_memory, sink_errors, execute, finalise, locate_error_sink,
  ignore_annotation,
}
use tamara.Voter.Finalise.{any_set, AllBits, finalise-Fails, finalise-any}
use tamara.Voter.{VoterBuilder, finalise}
use tamara.Voter.Cast.{IsDecided}
use tamara.Rtlil.Intact.Calls.{Keeps-mark}
use tamara.Util.Names.{ignore_annotation}
use tamara.Pass.Voted.{Runs-Added}
use tamara.Common.{
  ℕ, false, List, ◌≡◌, [], ◌∷◌, Bool, Option, foldl, Bool-cases, In, map, ok, ap, inr, refl, some,
  ◌≢◌, any_of, inl, ok_injective, ◌∙◌, Error, IfOk-at, subst, ◌||◌, err, sym, Result-cases, err≢ok,
  at_ok, ◌==◌, same→eq, arith, some_injective, none,
}
use tamara.Rtlil.Circuit.{Circuit}
use tamara.Rtlil.Gates.{Gates, Marks}
use tamara.Rtlil.Intact.{Intact, IsTidy, Intact-refl, Intact-trans}
use tamara.Rtlil.Platform.{Platform}
use tamara.Util.Connections.{Connections}
use tamara.Util.Plain.{NoGates, neighbours_of-Plain}
use tamara.Pass.Worklist.{Job}
use tamara.Cone.Successors.{Globals}
use tamara.Cone.Wiring.Polled.{Carries}
use tamara.Pass.Ballots.{Ballot, Covers, Counted, AllPolled, report_of}
use tamara.Pass.Complete.{Processes, top_connections, first_session, execute-Sinks, Sinks-Processes}
use tamara.Rtlil.Kernel.{cell}

module _ (p : Platform) (s : Circuit p.kernel) where
  open p use {kernel}
  open kernel use {Wire, Module}
  open s use {Allows}

  -- The reports are those of the builder. Whatever the netlist allows decides every voter and
  -- drives the outputs of their cones, and has the error sink set exactly if some voter reports.
  pub record Upheld (connections : Connections p) (sink : Option Wire) (ts : List (Ballot p))
      (s' : Session p) : Type 0 where
    -- these are all voters of the builder
    pub reported : s'.builder.reductions ≡ map (report_of p) ts
    pub decided :
        (v : Wire → ℕ → Bool)
        → Allows s'.netlist v
        → (t : Ballot p) → In t ts
        → IsDecided kernel v t.poll × Carries p connections t.owner.obj t.poll.out v
    pub collected :
        (v : Wire → ℕ → Bool)
        → Allows s'.netlist v
        → (w : Wire) → sink ≡ some w
        → v w 0 ≡ any_of (λ t. v (report_of p t) 0) ts

  module _ (g : Gates kernel s) (marks : Marks kernel) where
    abbrev Kept : Module → Module → Type 0
    Kept m m' = Intact kernel s g marks m m' × (kernel.selected_cells m' ≡ kernel.selected_cells m)

    mark_memory-Kept :
        (m : Module) (c : kernel.Cell) → IsTidy kernel s g marks m → Kept m (mark_memory p m c)
    unfolding mark_memory
    mark_memory-Kept m c tidy = elim (Bool-cases (kernel.is_mem_cell c)) [
      | inr other ↦ rw (other, mark_memory) (Intact-refl kernel s g marks m tidy, refl)
      | inl memory ↦
          rw (memory, mark_memory)
            (
              IfOk-at ((Keeps-mark kernel s g marks (cell c) ignore_annotation refl).at m tidy)
                  refl,
              marks.set_bool_attribute-selected (cell c) ignore_annotation m,
            )
    ]

    marked_Kept :
        (cs : List kernel.Cell) (m : Module)
        → IsTidy kernel s g marks m
        → Kept m (foldl (mark_memory p) m cs)
    marked_Kept [] m tidy = (Intact-refl kernel s g marks m tidy, refl)
    marked_Kept (c ∷ cs) m tidy =
        let (kept, same) = mark_memory-Kept m c tidy in
        let (more, rest) = marked_Kept cs (mark_memory p m c) kept.tidy in
        (Intact-trans kernel s g marks kept more, rest ∙ same)

    mark_memories_ignored-Kept :
        (m : Module) → IsTidy kernel s g marks m → Kept m (mark_memories_ignored p m)
    unfolding mark_memories_ignored
    mark_memories_ignored-Kept m tidy = marked_Kept (kernel.cells m) m tidy

    start-Counted :
        (top : Module) (globals : Globals p)
        → IsTidy kernel s g marks (mark_memories_ignored p top)
        → Counted p s g marks (top_connections p top) ([], first_session p top globals) []
    start-Counted top globals tidy = record {
      tidy = tidy;
      plain = λ c at. absurd at;
      polled = λ t at. absurd at;
      reported = refl;
    }

    module _ (connections : Connections p) (v : Wire → ℕ → Bool) where
      reports-AllBits :
          (m : Module) (ts : List (Ballot p))
          → AllPolled p s g marks connections m ts
          → AllBits kernel s v (map (report_of p) ts)
      reports-AllBits m [] polled = tt
      reports-AllBits m (t ∷ ts) polled =
          ((polled t (inl refl)).cast.sized.3, reports-AllBits m ts (λ x at. polled x (inr at)))

      any_set-reports :
          (ts : List (Ballot p))
          → any_set kernel s v (map (report_of p) ts) ≡ any_of (λ t. v (report_of p t) 0) ts
      any_set-reports [] = refl
      any_set-reports (t ∷ ts) = ap (λ b. v (report_of p t) 0 || b) (any_set-reports ts)

      upholds_all :
          (m : Module) (ts : List (Ballot p))
          → AllPolled p s g marks connections m ts
          → Allows m v
          → (t : Ballot p) → In t ts
          → IsDecided kernel v t.poll × Carries p connections t.owner.obj t.poll.out v
      upholds_all m ts polled allowed t at =
          let polled_t = polled t at in
          (polled_t.cast.decided v allowed, polled_t.carries v allowed)

    -- `finalise` returned on this sink
    finalised :
        (builder : VoterBuilder kernel) (w : Wire) (m m' : Module)
        → finalise kernel builder w m ≡ ok (tt, m')
        → (kernel.width w ≡ 1) × (builder.reductions ≢ [])
    finalised builder w m m' returned =
        let fails_if = (finalise-Fails kernel builder w m).1 in
        let never =
          λ (e : Error) (f : finalise kernel builder w m ≡ err e). err≢ok (sym f ∙ returned) in
        (
          elim (Bool-cases (kernel.width w == 1)) [
            | inl one ↦ sym (same→eq (kernel.width w) 1 one)
            | inr other ↦ let (e, f) = fails_if (inl (λ one. ground arith)) in absurd (never e f)
          ],
          λ none_there. let (e, f) = fails_if (inr none_there) in never e f,
        )

    sunk-Upheld :
        (connections : Connections p) (sink : Option Wire) (ts : List (Ballot p))
        (s1 s2 : Session p)
        → Counted p s g marks connections ([], s1) ts
        → sink_errors p sink s1 ≡ ok (tt, s2)
        → Upheld connections sink ts s2
    unfolding sink_errors
    sunk-Upheld connections none ts s1 s2 counted sunk =
        let same = ap (λ r. r.1.netlist) (ok_injective sunk) in
        record {
          reported = sym (ap (λ r. r.1.builder.reductions) (ok_injective sunk)) ∙ counted.reported;
          decided = λ v allowed.
              upholds_all connections v s1.netlist ts counted.polled
                (subst (λ m. Allows m v) (sym same) allowed);
          collected = λ v allowed w e. cc;
        }
    sunk-Upheld connections (some w) ts s1 s2 counted sunk =
        elim (Result-cases (finalise kernel s1.builder w s1.netlist)) [
          | inr (e, failed) ↦ absurd (err≢ok (rw (failed, sink_errors) at sunk))
          | inl ((tt, m'), returned) ↦
              let same =
                ap (λ r. r.1.netlist) (ok_injective (rw (returned, sink_errors) at sunk)) in
              let (bit, some_report) = finalised s1.builder w s1.netlist m' returned in
              let joined = λ (v : Wire → ℕ → Bool) (allowed : Allows s2.netlist v).
                at_ok
                  (finalise-any kernel s v s1.builder w s1.netlist bit some_report (
                    subst (AllBits kernel s v) (sym counted.reported)
                      (reports-AllBits connections v s1.netlist ts counted.polled)))
                  returned (subst (λ m. Allows m v) (sym same) allowed) in
              record {
                reported =
                    sym (
                      ap (λ r. r.1.builder.reductions)
                        (ok_injective (rw (returned, sink_errors) at sunk)))
                    ∙ counted.reported;
                decided = λ v allowed.
                    upholds_all connections v s1.netlist ts counted.polled (joined v allowed).0;
                collected = λ v allowed x e.
                    subst (λ x. v x 0 ≡ any_of (λ t. v (report_of p t) 0) ts) (some_injective e)
                      ((joined v allowed).1
                        ∙ ap (any_set kernel s v) counted.reported
                        ∙ any_set-reports connections v ts);
              }
        ]

    -- If no gate of the design has the annotation of a cone, none of its selected cells is such a
    -- gate, and the command succeeds, then the error sink was located, and the processed cones have
    -- one voter each, in their order, but for those whose search finds nothing to replicate. The
    -- voter was built by `build` on the wires that were taken from the cut point of the cone and
    -- from its three copies, and the reports of the voters are those of the builder, in order.
    -- Whatever the netlist at the end allows has the majority of the three inputs on the output of
    -- each voter, has its report set exactly if these differ somewhere, where they are not empty,
    -- has on the output of its cone the voter's output, if that is a wire of the same width with
    -- one signal at most, and has the error sink, if there is one, set exactly if some report is.
    pub execute-Votes :
        (top : Module) (globals : Globals p) (s' : Session p)
        → IsTidy kernel s g marks top
        → NoGates p s g marks top
        → execute p (some top) globals ≡ some (ok (tt, s'))
        → (sink : Option Wire) × (locate_error_sink p top ≡ ok sink)
          × (done : List (Job p)) × Processes p top globals done s'
          × (ts : List (Ballot p)) × Covers p (top_connections p top) done ts
          × Upheld (top_connections p top) sink ts s'
    execute-Votes top globals s' tidy none_gates ran =
        let (kept, selected) = mark_memories_ignored-Kept top tidy in
        let (sink, located, done, sinks) = execute-Sinks p top globals s' ran in
        let (s1, runs, sunk) = sinks in
        let all = neighbours_of-Plain p s g marks (mark_memories_ignored p top) (
          subst (λ cs. (c : kernel.Cell) → In c cs → g.is_gate c ≡ false) (sym selected)
            none_gates) in
        let (ts, covers, counted) =
          Runs-Added p s g marks (top_connections p top) all runs []
            (start-Counted top globals kept.tidy) in
        (
          sink,
          located,
          done,
          Sinks-Processes p top sink globals done s' sinks,
          ts,
          covers,
          sunk-Upheld (top_connections p top) sink ts s1 s' counted sunk,
        )
