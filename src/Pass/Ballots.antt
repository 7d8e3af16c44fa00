-- ===== src/Pass/Ballots.antt =====
-- The voters that `execute` of src/tamara_tmr_pass.cpp has built so far, one for each cone that is
-- not empty, and what a further cone adds.
use tamara.Pass.{process_cone, Session, replicate, wire_cone, build_successors}
use tamara.Cone.Node.{null, Node}
use tamara.Cone.Replicate.{replicate, Replicas}
use tamara.Cone.Wiring.{wire_cone}
use tamara.Cone.Successors.{build_successors}
use tamara.Cone.Replicate.Intact.{replicate-Given}
use tamara.Cone.Successors.Each.{build_successors-Each}
use tamara.Common.{
  true, List, ◌≡◌, [], ◌∷◌, In, map, ok, IfOk, Result-cases, and_then, inr, fails, inl, IfOk-seq,
  subst, sym, refl, succeeds, IfOk-known, some, ◌++◌,
}
use tamara.Rtlil.Circuit.{Circuit}
use tamara.Rtlil.Gates.{Gates, Marks}
use tamara.Rtlil.Intact.{Plain, Intact, IsTidy, Intact-trans}
use tamara.Rtlil.Platform.{Platform}
use tamara.Util.Connections.{Connections}
use tamara.Cone.Search.Each.{EachOf, AllNeighbours, search-Each}
use tamara.Cone.Search.{search, LogicCone}
use tamara.Voter.Cast.{Poll}
use tamara.Cone.Wiring.Polled.{Polled, Taken}
use tamara.Cone.Wiring.Wired.{AddsVoter, wire_cone-Wired}
use tamara.Pass.Worklist.{Job}
use tamara.Pass.Runs.{Stage}

module _ (p : Platform) where
  open p use {kernel}
  open kernel use {Wire}

  -- a voter, and the processed cone that it belongs to
  pub record Ballot : Type 0 where
    pub owner : Job p
    pub poll : Poll kernel

  abbrev pub report_of : Ballot → Wire
  report_of t = t.poll.report

  -- the search from this output finds nothing to replicate
  abbrev pub IsBare : Connections p → Job p → Type 0
  IsBare connections j =
      (c : LogicCone p) × (c' : LogicCone p) × (c.id ≡ j.id)
      × (c.output_node.obj ≡ j.obj)
      × (search p connections.wires c ≡ ok c')
      × (null c'.cone ≡ true)

  -- The cone of the voter was searched and replicated, and the wires of the voter are those of its
  -- cut point and of the three copies of it.
  pub record Origin (connections : Connections p) (t : Ballot) : Type 0 where
    pub cone : LogicCone p
    pub searched : LogicCone p
    pub cut : Node p
    pub replicas : Replicas p
    pub before : kernel.Module
    pub after : kernel.Module
    pub same_id : cone.id ≡ t.owner.id
    pub same_output : cone.output_node.obj ≡ t.owner.obj
    pub searches : search p connections.wires cone ≡ ok searched
    pub replicates : replicate p searched (λ _. []) before ≡ ok (replicas, after)
    pub cuts : searched.voter_cut_point ≡ some cut
    pub taken : Taken p cut (replicas cut.address ++ cut.obj ∷ []) t.poll

  -- Each processed cone has exactly one voter, in the same order, except for the bare ones.
  pub data Covers (connections : Connections p) : List (Job p) → List Ballot → Type 0 where
    none_left : Covers connections [] []
    voted :
        {done : List (Job p)} {ts : List Ballot} (t : Ballot)
        → Origin connections t
        → Covers connections done ts
        → Covers connections (t.owner ∷ done) (t ∷ ts)
    bare :
        {done : List (Job p)} {ts : List Ballot} (j : Job p)
        → IsBare connections j
        → Covers connections done ts
        → Covers connections (j ∷ done) ts

module _ (p : Platform) (s : Circuit p.kernel) (g : Gates p.kernel s) (marks : Marks p.kernel)
    (connections : Connections p) where
  open p use {kernel}
  open kernel use {Wire, Module}

  abbrev pub PlainCone : LogicCone p → Type 0
  PlainCone = EachOf p connections.wires (Plain kernel s g marks)

  abbrev pub PlainCones : List (LogicCone p) → Type 0
  PlainCones cones = (c : LogicCone p) → In c cones → PlainCone c

  abbrev pub AllPolled : Module → List (Ballot p) → Type 0
  AllPolled m ts = (t : Ballot p) → In t ts → Polled p s connections t.owner.obj t.poll m

  -- the voters that are built, of a stage of the run
  pub record Counted (a : Stage p connections) (ts : List (Ballot p)) : Type 0 where
    pub tidy : IsTidy kernel s g marks a.1.netlist
    pub plain : PlainCones a.0
    pub polled : AllPolled a.1.netlist ts
    pub reported : a.1.builder.reductions ≡ map (report_of p) ts

  abbrev pub Next : LogicCone p → Session p → List (LogicCone p) → Session p → Type 0
  Next c s1 cones s2 =
      Intact kernel s g marks s1.netlist s2.netlist
      × PlainCones cones
      × (c' : LogicCone p) × (search p connections.wires c ≡ ok c')
      × (c'.output_node ≡ c.output_node)
      × (replicas : Replicas p) × (after : Module) × (replicate p c' (λ _. []) s1.netlist
          ≡ ok (replicas, after))
      × AddsVoter p s g marks connections c' replicas s1.builder s2.builder s2.netlist

  module _ (all : AllNeighbours p connections.wires (Plain kernel s g marks)) where
    -- `replicate`, `wire` and `buildSuccessors` on a cone that was searched
    searched-Next :
        (c c' : LogicCone p) (s1 : Session p)
        → IsTidy kernel s g marks s1.netlist
        → PlainCone c'
        → search p connections.wires c ≡ ok c'
        → c'.output_node ≡ c.output_node
        → IfOk (Next c s1) (
            and_then (replicate p c' (λ _. []) s1.netlist) (λ replicas m.
              and_then (wire_cone p c' replicas connections s1.builder m) (λ builder m.
                and_then (build_successors p connections.wires c' s1.globals) (λ cones globals.
                  ok (cones, record { netlist = m; builder = builder; globals = globals })))))
    searched-Next c c' s1 tidy plain found same =
        IfOk-seq
          (IfOk-known (
            replicate-Given p s g marks c' (λ _. []) s1.netlist plain.elements plain.inputs
              plain.output (λ a x at. absurd at) tidy))
          (λ replicas m1 ((kept1, plain_replicas), replicated).
            IfOk-seq
              (wire_cone-Wired p s g marks connections c' replicas s1.builder m1 plain.cut
                plain.output plain_replicas kept1.tidy)
              (λ builder m2 (kept2, outcome).
                IfOk-seq
                  (build_successors-Each p connections.wires (Plain kernel s g marks) c' s1.globals
                    plain.inputs)
                  (λ cones globals plain_cones. succeeds (
                    Intact-trans kernel s g marks kept1 kept2,
                    plain_cones,
                    c',
                    found,
                    same,
                    replicas,
                    m1,
                    replicated,
                    outcome,
                  ))))

    pub process_cone-Next :
        (c : LogicCone p) (s1 : Session p)
        → IsTidy kernel s g marks s1.netlist
        → PlainCone c
        → IfOk (Next c s1) (process_cone p connections c s1)
    unfolding process_cone
    process_cone-Next c s1 tidy plain = elim (Result-cases (search p connections.wires c)) [
      | inr (e, failed) ↦ rw (failed, process_cone) fails
      | inl (c', found) ↦
          let (plain', same) =
            search-Each p connections.wires (Plain kernel s g marks) all c c' plain found in
          subst (IfOk (Next c s1)) (sym (simp (found, process_cone) refl))
            (searched-Next c c' s1 tidy plain' found same)
    ]
