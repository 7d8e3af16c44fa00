-- ===== src/Pass/Voted.antt =====
-- The voters of the whole run of `execute` in src/tamara_tmr_pass.cpp.
use tamara.Cone.Wiring.Polled.{Polled, Polled-kept}
use tamara.Cone.Search.{LogicCone}
use tamara.Pass.{Session}
use tamara.Cone.Successors.Each.{new_logic_cone-Each}
use mathlib.Core.List.{append_assoc}
use tamara.Common.{
  true, false, List, ◌≡◌, [], ◌∷◌, Bool, map, subst, ◌++◌, sym, ⊎_elim, In-append, In-snoc, ap,
  append_nil, IfOk-at, inl, refl, ◌∙◌, inr,
}
use tamara.Rtlil.Circuit.{Circuit}
use tamara.Rtlil.Gates.{Gates, Marks}
use tamara.Rtlil.Intact.{Plain, Intact}
use tamara.Rtlil.Platform.{Platform}
use tamara.Util.Connections.{Connections}
use tamara.Cone.Search.Each.{AllNeighbours}
use tamara.Pass.Worklist.{Job}
use tamara.Pass.Runs.{Stage, job, Runs, stop, output_round, successor_round}
use tamara.Pass.Ballots.{
  Ballot, Covers, voted, bare, none_left, Counted, PlainCones, AllPolled, report_of, Next,
  process_cone-Next,
}
use tamara.Rtlil.Kernel.{wire}

module _ (p : Platform) (s : Circuit p.kernel) (g : Gates p.kernel s) (marks : Marks p.kernel)
    (connections : Connections p)
    (all : AllNeighbours p connections.wires (Plain p.kernel s g marks)) where
  open p use {kernel}
  open kernel use {Wire, Module}

  -- after a cone more
  abbrev Round : Job p → Stage p connections → List (Ballot p) → Type 0
  Round j b ts =
      (new : List (Ballot p)) × Counted p s g marks connections b (ts ++ new)
      × ((done : List (Job p)) (more : List (Ballot p))
          → Covers p connections done more
          → Covers p connections (j ∷ done) (new ++ more))

  AllPolled-kept :
      (m m' : Module) (ts : List (Ballot p))
      → Intact kernel s g marks m m'
      → AllPolled p s g marks connections m ts
      → AllPolled p s g marks connections m' ts
  AllPolled-kept m m' ts kept old t at =
      Polled-kept p s g marks connections t.owner.obj t.poll m m' kept (old t at)

  PlainCones-append :
      (xs ys : List (LogicCone p))
      → PlainCones p s g marks connections xs
      → PlainCones p s g marks connections ys
      → PlainCones p s g marks connections (xs ++ ys)
  PlainCones-append xs ys first second c at = ⊎_elim (first c) (second c) ((In-append c xs ys).0 at)

  AllPolled-snoc :
      (m : Module) (ts : List (Ballot p)) (t : Ballot p)
      → AllPolled p s g marks connections m ts
      → Polled p s connections t.owner.obj t.poll m
      → AllPolled p s g marks connections m (ts ++ t ∷ [])
  AllPolled-snoc m ts t old new x at =
      ⊎_elim (old x) (λ e. subst (λ t. Polled p s connections t.owner.obj t.poll m) e new)
        ((In-snoc x t ts).0 at)

  map-snoc :
      (ts : List (Ballot p)) (t : Ballot p)
      → map (report_of p) (ts ++ t ∷ []) ≡ map (report_of p) ts ++ report_of p t ∷ []
  map-snoc [] t = refl
  map-snoc (x ∷ ts) t = ap (λ ws. report_of p x ∷ ws) (map-snoc ts t)

  one_more_cone :
      (found : Bool) (c : LogicCone p) (queue cones : List (LogicCone p)) (s0 s1 s2 : Session p)
      (ts : List (Ballot p))
      → Counted p s g marks connections (queue, s0) ts
      → s1.netlist ≡ s0.netlist
      → s1.builder ≡ s0.builder
      → Next p s g marks connections c s1 cones s2
      → Round (job p found c) (queue ++ cones, s2) ts
  one_more_cone found c queue cones s0 s1 s2 ts old same_netlist same_builder
        (kept0, plain, c', searched, same, replicas, after, replicated, outcome) =
      let kept = subst (λ m. Intact kernel s g marks m s2.netlist) same_netlist kept0 in
      let polled = AllPolled-kept s0.netlist s2.netlist ts kept old.polled in
      let cones_plain = PlainCones-append queue cones old.plain plain in
      elim outcome [
        | inl (empty, unchanged) ↦ (
          [],
          record {
            tidy = kept.tidy;
            plain = cones_plain;
            polled =
                subst (AllPolled p s g marks connections s2.netlist) (sym (append_nil ts)) polled;
            reported =
                ap (λ b. b.reductions) (unchanged ∙ same_builder)
                ∙ old.reported
                ∙ ap (map (report_of p)) (sym (append_nil ts));
          },
          λ done more covers. bare (job p found c) (c, c', refl, refl, searched, empty) covers,
        )
        | inr (t, new_polled, reported, (cut, chosen, taken)) ↦
            let ballot : Ballot p = record { owner = job p found c; poll = t } in
            (
              ballot ∷ [],
              record {
                tidy = kept.tidy;
                plain = cones_plain;
                polled =
                    AllPolled-snoc s2.netlist ts ballot polled
                      (subst (λ n. Polled p s connections n.obj t s2.netlist) same new_polled);
                reported =
                    reported
                    ∙ ap (λ b. b.reductions ++ t.report ∷ []) same_builder
                    ∙ ap (λ ws. ws ++ t.report ∷ []) old.reported
                    ∙ sym (map-snoc ts ballot);
              },
              λ done more covers.
                  voted ballot
                    (record {
                      cone = c;
                      searched = c';
                      cut = cut;
                      replicas = replicas;
                      before = s1.netlist;
                      after = after;
                      same_id = refl;
                      same_output = refl;
                      searches = searched;
                      replicates = replicated;
                      cuts = chosen;
                      taken = taken;
                    })
                    covers,
            )
      ]

  -- the voters of a run, behind those that were there
  abbrev Added : List (Job p) → Stage p connections → List (Ballot p) → Type 0
  Added done b ts =
      (new : List (Ballot p)) × Covers p connections done new
      × Counted p s g marks connections b (ts ++ new)

  go_on :
      (j : Job p) (a b : Stage p connections) (done : List (Job p)) (ts : List (Ballot p))
      → Round j a ts
      → ((us : List (Ballot p)) → Counted p s g marks connections a us → Added done b us)
      → Added (j ∷ done) b ts
  go_on j a b done ts (new, counted, covers) later =
      let (more, covered, ends) = later (ts ++ new) counted in
      (
        new ++ more,
        covers done more covered,
        subst (Counted p s g marks connections b) (append_assoc ts new more) ends,
      )

  pub Runs-Added :
      {a b : Stage p connections} {done : List (Job p)}
      → Runs p connections a done b
      → (ts : List (Ballot p)) → Counted p s g marks connections a ts
      → Added done b ts
  Runs-Added {a = a} stop ts counted =
      ([], none_left, subst (Counted p s g marks connections a) (sym (append_nil ts)) counted)
  Runs-Added {b = b}
        (output_round {queue} {cones} {s = s0} {s1 = s2} {done} w c globals made processed runs) ts
        counted =
      let plain =
        IfOk-at
          (new_logic_cone-Each p connections.wires (Plain kernel s g marks) (wire w) s0.globals tt)
          made in
      let next =
        IfOk-at
          (process_cone-Next p s g marks connections all c (record s0 { globals = globals })
            counted.tidy plain)
          processed in
      go_on (job p false c) (queue ++ cones, s2) b done ts
        (one_more_cone false c queue cones s0 (record s0 { globals = globals }) s2 ts counted refl
          refl next)
        (Runs-Added runs)
  Runs-Added {b = b} (successor_round {queue} {cones} {s = s0} {s1 = s2} {done} c processed runs) ts
        counted =
      let next =
        IfOk-at
          (process_cone-Next p s g marks connections all c s0 counted.tidy
            (counted.plain c (inl refl)))
          processed in
      let popped : Counted p s g marks connections (queue, s0) ts = record {
        tidy = counted.tidy;
        plain = λ x at. counted.plain x (inr at);
        polled = counted.polled;
        reported = counted.reported;
      } in
      go_on (job p true c) (queue ++ cones, s2) b done ts
        (one_more_cone true c queue cones s0 s0 s2 ts popped refl refl next) (Runs-Added runs)
