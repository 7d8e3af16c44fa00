-- ===== src/Cone/Wiring/Polled.antt =====
-- What `LogicCone::wire` of src/logic_graph.cpp leaves behind whenever it returns: a voter, and all
-- voters that were there.
use tamara.Cone.Wiring.{
  connect_output, insert_voter, Connections, LogicCone, extract_replica_wire, Node, Ptr, build,
  signals_of, extract_at,
}
use tamara.Voter.{VoterBuilder, build}
use tamara.Cone.Search.{LogicCone}
use tamara.Util.Connections.{Ptr}
use tamara.Cone.Node.{Node, null}
use tamara.Cone.Wiring.Intact.{Keeps-extract_replica_wire, Keeps-connect_output, Keeps-extract_at}
use tamara.Rtlil.Wires.{connected_bits}
use tamara.Voter.Intact.{Keeps-build}
use tamara.Common.{
  ℕ, false, List, ◌≡◌, Bool, ◌<◌, IfOk, Option, some, IfOk-weaken, ltb, ◌++◌, IfOk-itself, IfOk-seq,
  length, ◌∷◌, IfOk-at, [], succeeds, refl, IfOk-known, ok,
}
use tamara.Rtlil.Circuit.{Circuit}
use tamara.Rtlil.Gates.{Gates, Marks}
use tamara.Rtlil.Intact.{Plain, Intact, IsTidy, Intact-trans}
use tamara.Rtlil.Kernel.{wire}
use tamara.Rtlil.Platform.{Platform}
use tamara.Cone.Replicate.Intact.{AllPlain}
use tamara.Voter.Cast.{Poll, Cast, Cast-kept, build-Cast}

module _ (p : Platform) where
  open p use {kernel}
  open kernel use {Wire, width}

  -- the output of a cone has the bits of the voter's output, if it is a wire of the same width on
  -- which the analysis found one signal at most
  abbrev pub Carries : Connections p → Ptr p → Wire → (Wire → ℕ → Bool) → Type 0
  Carries connections x out v =
      (w : Wire)
      → x ≡ wire w
      → ltb 1 (length (signals_of p connections.signals (wire w))) ≡ false
      → width w ≡ width out
      → (i : ℕ) → i < width out
      → v w i ≡ v out i

  -- How the wires of a voter came about: one was taken from the cut point for the output, and one
  -- from each of the three copies for the inputs, and then `build` was called, which added the
  -- report.
  pub record Taken (cut : Node p) (copies : List (Ptr p)) (t : Poll kernel) : Type 0 where
    pub start : kernel.Module
    pub with_out : kernel.Module
    pub with_a : kernel.Module
    pub with_b : kernel.Module
    pub with_c : kernel.Module
    pub voted : kernel.Module
    pub old : VoterBuilder kernel
    pub new : VoterBuilder kernel
    pub takes_out : extract_replica_wire p cut.obj start ≡ ok (t.out, with_out)
    pub takes_a : extract_at p copies 0 with_out ≡ ok (t.a, with_a)
    pub takes_b : extract_at p copies 1 with_a ≡ ok (t.b, with_b)
    pub takes_c : extract_at p copies 2 with_b ≡ ok (t.c, with_c)
    pub builds :
        build kernel old (some t.a) (some t.b) (some t.c) (some t.out) with_c ≡ ok (new, voted)
    pub reports : new.reductions ≡ old.reductions ++ t.report ∷ []

module _ (p : Platform) (s : Circuit p.kernel) where
  open p use {kernel}
  open kernel use {Module, Wire}
  open s use {Allows}

  -- the voter of a cone with this output
  pub record Polled (connections : Connections p) (x : Ptr p) (t : Poll kernel) (m : Module)
      : Type 0 where
    pub cast : Cast kernel s t m
    pub carries : (v : Wire → ℕ → Bool) → Allows m v → Carries p connections x t.out v

  module _ (g : Gates kernel s) (marks : Marks kernel) where
    pub Polled-kept :
        (connections : Connections p) (x : Ptr p) (t : Poll kernel) (m m' : Module)
        → Intact kernel s g marks m m'
        → Polled connections x t m
        → Polled connections x t m'
    Polled-kept connections x t m m' kept old = record {
      cast = Cast-kept kernel s g marks t m m' kept old.cast;
      carries = λ v allowed. old.carries v (kept.before v allowed);
    }

    connect_output-bits :
        (connections : Connections p) (cut output : Node p) (out w : Wire) (v : Wire → ℕ → Bool)
        (m : Module)
        → output.obj ≡ wire w
        → ltb 1 (length (signals_of p connections.signals (wire w))) ≡ false
        → kernel.width w ≡ kernel.width out
        → IfOk
            (λ _ m'. Allows m' v → (i : ℕ) → i < kernel.width out → v w i ≡ v out i)
            (connect_output p connections cut output out m)
    unfolding connect_output extract_replica_wire
    connect_output-bits connections cut output out w v m is_wire one_signal wide =
        rw (is_wire, one_signal)
          (succeeds (λ allowed. (connected_bits kernel s v w out m wide allowed).1))

    abbrev pub Connected : Connections p → Node p → Wire → Module → Module → Type 0
    Connected connections output out m m' =
        Intact kernel s g marks m m'
        × ((v : Wire → ℕ → Bool) → Allows m' v → Carries p connections output.obj out v)

    pub connect_output-Connected :
        (connections : Connections p) (cut output : Node p) (out : Wire) (m : Module)
        → Plain kernel s g marks output.obj
        → IsTidy kernel s g marks m
        → IfOk
            (λ _. Connected connections output out m)
            (connect_output p connections cut output out m)
    connect_output-Connected connections cut output out m plain tidy =
        IfOk-weaken (IfOk-itself (connect_output p connections cut output out m)) (λ _ m' returned.
          (
            IfOk-at ((Keeps-connect_output p s g marks connections cut output out plain).at m tidy)
                returned,
            λ v allowed w is_wire one_signal wide.
                IfOk-at
                  (connect_output-bits connections cut output out w v m is_wire one_signal wide)
                  returned allowed,
          ))

    abbrev pub Inserted :
        Node p
        → List (Ptr p)
        → VoterBuilder kernel
        → Module
        → Option Wire × VoterBuilder kernel
        → Module
        → Type 0
    Inserted cut copies old m r m' =
        Intact kernel s g marks m m'
        × ((t : Poll kernel) × (r.0 ≡ some t.out)
            × Cast kernel s t m'
            × (r.1.reductions ≡ old.reductions ++ t.report ∷ [])
            × Taken p cut copies t)

    pub later-Inserted :
        (cut : Node p) (copies : List (Ptr p)) (old : VoterBuilder kernel) (m m1 : Module)
        (r : Option Wire × VoterBuilder kernel) (m' : Module)
        → Intact kernel s g marks m m1
        → Inserted cut copies old m1 r m'
        → Inserted cut copies old m r m'
    later-Inserted cut copies old m m1 r m' kept (more, found) =
        (Intact-trans kernel s g marks kept more, found)

    module _ (cut : Node p) (copies : List (Ptr p)) where
      built-Inserted :
          (old : VoterBuilder kernel) (a b c out : Wire) (m m1 m2 m3 m4 : Module)
          → extract_replica_wire p cut.obj m ≡ ok (out, m1)
          → extract_at p copies 0 m1 ≡ ok (a, m2)
          → extract_at p copies 1 m2 ≡ ok (b, m3)
          → extract_at p copies 2 m3 ≡ ok (c, m4)
          → IsTidy kernel s g marks m4
          → IfOk
              (λ new m'. Inserted cut copies old m4 (some out, new) m')
              (build kernel old (some a) (some b) (some c) (some out) m4)
      built-Inserted old a b c out m m1 m2 m3 m4 takes_out takes_a takes_b takes_c tidy =
          IfOk-weaken (IfOk-itself (build kernel old (some a) (some b) (some c) (some out) m4))
            (λ new m' returned.
              let (report, cast, reported) =
                IfOk-at (build-Cast kernel s old a b c out m4) returned in
              let t : Poll kernel = record { a = a; b = b; c = c; out = out; report = report } in
              (
                IfOk-at
                    ((Keeps-build kernel s g marks old (some a) (some b) (some c) (some out)).at m4
                      tidy)
                    returned,
                (
                  t,
                  refl,
                  cast,
                  reported,
                  record {
                    start = m;
                    with_out = m1;
                    with_a = m2;
                    with_b = m3;
                    with_c = m4;
                    voted = m';
                    old = old;
                    new = new;
                    takes_out = takes_out;
                    takes_a = takes_a;
                    takes_b = takes_b;
                    takes_c = takes_c;
                    builds = returned;
                    reports = reported;
                  },
                ),
              ))

      pub insert_voter-Inserted :
          (c : LogicCone p) (old : VoterBuilder kernel) (m : Module)
          → null c.cone ≡ false
          → c.voter_cut_point ≡ some cut
          → Plain kernel s g marks cut.obj
          → AllPlain p s g marks copies
          → IsTidy kernel s g marks m
          → IfOk (Inserted cut copies old m) (insert_voter p c old copies m)
      unfolding insert_voter
      insert_voter-Inserted c old m elements set plain plain_copies tidy =
          let extracts = λ (i : ℕ) (m : Module) (tidy : IsTidy kernel s g marks m).
            IfOk-known ((Keeps-extract_at p s g marks copies i plain_copies).at m tidy) in
          rw (elements, set, insert_voter)
            (IfOk-seq
              (IfOk-known ((Keeps-extract_replica_wire p s g marks cut.obj plain).at m tidy))
              (λ out m1 (k1, e1). IfOk-seq (extracts 0 m1 k1.tidy) (λ a m2 (k2, e2).
                IfOk-seq (extracts 1 m2 k2.tidy) (λ b m3 (k3, e3).
                  IfOk-seq (extracts 2 m3 k3.tidy) (λ c m4 (k4, e4).
                    IfOk-seq (built-Inserted old a b c out m m1 m2 m3 m4 e1 e2 e3 e4 k4.tidy)
                      (λ new m' inserted. succeeds (
                        later-Inserted cut copies old m m4 (some out, new) m'
                          (Intact-trans kernel s g marks k1 (
                            Intact-trans kernel s g marks k2 (Intact-trans kernel s g marks k3 k4)))
                          inserted)))))))
