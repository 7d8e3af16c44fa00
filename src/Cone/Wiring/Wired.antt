-- ===== src/Cone/Wiring/Wired.antt =====
-- What `LogicCone::wire` of src/logic_graph.cpp leaves behind whenever it returns: one voter more
-- for a cone that is not empty, and all voters that were there.
use tamara.Cone.Wiring.{
  insert_voter, Connections, LogicCone, Node, Ptr, connect_voter, wire_cone, execute_walkers,
  get_replicas, multi_driver_fixer,
}
use tamara.Voter.{VoterBuilder}
use tamara.Cone.Search.{LogicCone}
use tamara.Util.Connections.{Ptr}
use tamara.Cone.Node.{Node, null, is_io}
use tamara.FixWalker.{execute_walkers, multi_driver_fixer}
use tamara.Cone.Replicate.{get_replicas, Replicas}
use tamara.Cone.Search.Each.{CutPoint}
use tamara.FixWalker.Kept.{execute_walkers-Intact}
use tamara.Common.{
  false, List, ◌≡◌, IfOk, Option, some, ◌++◌, IfOk-seq, length, ◌∷◌, [], succeeds, refl, and_then,
  true, ⊎_elim, require, subst, ◌⊎◌, In-snoc, ◌==◌, Error, ok, Bool-cases, inr, inl, Option-cases,
  fails, Result, none, sym, err,
}
use tamara.Rtlil.Circuit.{Circuit}
use tamara.Rtlil.Gates.{Gates, Marks}
use tamara.Rtlil.Intact.{Plain, Intact, IsTidy, Intact-trans, Keeps-require, Intact-refl}
use tamara.Rtlil.Platform.{Platform}
use tamara.Cone.Replicate.Intact.{AllPlain, PlainReplicas}
use tamara.Voter.Cast.{Poll, Cast-kept}
use tamara.Cone.Wiring.Polled.{
  Polled, Inserted, insert_voter-Inserted, connect_output-Connected, later-Inserted, Polled-kept,
  Taken,
}

module _ (p : Platform) (s : Circuit p.kernel) (g : Gates p.kernel s) (marks : Marks p.kernel) where
  open p use {kernel}
  open kernel use {Module, Wire}
  open s use {Allows}

  -- an empty cone gets no voter, and any other exactly one
  abbrev pub AddsVoter :
      Connections p
      → LogicCone p
      → Replicas p
      → VoterBuilder kernel
      → VoterBuilder kernel
      → Module
      → Type 0
  AddsVoter connections c replicas old new m' =
      (null c.cone ≡ true) × (new ≡ old)
      ⊎ ((t : Poll kernel) × Polled p s connections c.output_node.obj t m'
          × (new.reductions ≡ old.reductions ++ t.report ∷ [])
          × ((cut : Node p) × (c.voter_cut_point ≡ some cut)
              × Taken p cut (replicas cut.address ++ cut.obj ∷ []) t))

  abbrev Wired :
      Connections p
      → LogicCone p
      → Replicas p
      → VoterBuilder kernel
      → Module
      → VoterBuilder kernel
      → Module
      → Type 0
  Wired connections c replicas old m new m' =
      Intact kernel s g marks m m' × AddsVoter connections c replicas old new m'

  pub with_cut-Plain :
      (xs : List (Ptr p)) (x : Ptr p)
      → AllPlain p s g marks xs
      → Plain kernel s g marks x
      → AllPlain p s g marks (xs ++ x ∷ [])
  with_cut-Plain xs x plain plain_x y at =
      ⊎_elim (plain y) (λ e. subst (Plain kernel s g marks) e plain_x) ((In-snoc y x xs).0 at)

  -- from the voter's output to the end
  connected-Wired :
      (connections : Connections p) (c : LogicCone p) (replicas : Replicas p) (cut : Node p)
      (old new : VoterBuilder kernel) (out? : Option Wire) (m m1 : Module)
      → c.voter_cut_point ≡ some cut
      → Plain kernel s g marks c.output_node.obj
      → Inserted p s g marks cut (replicas cut.address ++ cut.obj ∷ []) old m (out?, new) m1
      → IfOk (Wired connections c replicas old m) (
          and_then (connect_voter p connections cut c.output_node out? m1) (λ _ m2.
            and_then (execute_walkers p (multi_driver_fixer p ∷ []) m2) (λ _ m3. ok (new, m3))))
  unfolding connect_voter
  connected-Wired connections c replicas cut old new out? m m1 set plain
        (kept, (t, is, cast, reported, taken)) =
      rw (is, connect_voter)
        (IfOk-seq
          (connect_output-Connected p s g marks connections cut c.output_node t.out m1 plain
            kept.tidy)
          (λ _ m2 (kept2, carries).
            IfOk-seq ((execute_walkers-Intact p s g marks).at m2 kept2.tidy) (λ _ m3 kept3.
              succeeds (
                Intact-trans kernel s g marks kept (Intact-trans kernel s g marks kept2 kept3),
                inr (
                  t,
                  Polled-kept p s g marks connections c.output_node.obj t m2 m3 kept3 (record {
                    cast = Cast-kept kernel s g marks t m1 m2 kept2 cast;
                    carries = carries;
                  }),
                  reported,
                  (cut, set, taken),
                ),
              ))))

  voted-Wired :
      (connections : Connections p) (c : LogicCone p) (replicas : Replicas p) (cut : Node p)
      (old : VoterBuilder kernel) (m : Module)
      → null c.cone ≡ false
      → c.voter_cut_point ≡ some cut
      → Plain kernel s g marks cut.obj
      → Plain kernel s g marks c.output_node.obj
      → AllPlain p s g marks (replicas cut.address)
      → IsTidy kernel s g marks m
      → IfOk (Wired connections c replicas old m) (
          and_then (require (length (replicas cut.address) == 2) Error.replica_count m) (λ _ m0.
            and_then (insert_voter p c old (replicas cut.address ++ cut.obj ∷ []) m0) (λ r m1.
              and_then (connect_voter p connections cut c.output_node r.0 m1) (λ _ m2.
                and_then
                  (execute_walkers p (multi_driver_fixer p ∷ []) m2)
                  (λ _ m3. ok (r.1, m3))))))
  voted-Wired connections c replicas cut old m elements set plain plain_output plain_copies tidy =
      IfOk-seq ((Keeps-require kernel s g marks _ _).at m tidy) (λ _ m0 kept0.
        IfOk-seq
          (insert_voter-Inserted p s g marks cut (replicas cut.address ++ cut.obj ∷ []) c old m0
            elements set plain (with_cut-Plain (replicas cut.address) cut.obj plain_copies plain)
            kept0.tidy)
          (λ (out?, new) m1 inserted.
            connected-Wired connections c replicas cut old new out? m m1 set plain_output (
              later-Inserted p s g marks cut (replicas cut.address ++ cut.obj ∷ []) old m m0
                (out?, new) m1 kept0 inserted)))

  -- the three ways that `wire_cone` goes
  wire_cone-voted :
      (connections : Connections p) (c : LogicCone p) (cut : Node p) (replicas : Replicas p)
      (old : VoterBuilder kernel) (m : Module)
      → null c.cone ≡ false
      → c.voter_cut_point ≡ some cut
      → is_io cut.kind ≡ false
      → wire_cone p c replicas connections old m
        ≡ and_then (require (length (replicas cut.address) == 2) Error.replica_count m) (λ _ m0.
          and_then (insert_voter p c old (replicas cut.address ++ cut.obj ∷ []) m0) (λ r m1.
            and_then (connect_voter p connections cut c.output_node r.0 m1) (λ _ m2.
              and_then (execute_walkers p (multi_driver_fixer p ∷ []) m2) (λ _ m3. ok (r.1, m3)))))
  unfolding wire_cone get_replicas
  wire_cone-voted connections c cut replicas old m elements set other =
      simp (elements, set, other, wire_cone, get_replicas) refl

  wire_cone-refused :
      (connections : Connections p) (c : LogicCone p) (replicas : Replicas p)
      (old : VoterBuilder kernel) (m : Module)
      → null c.cone ≡ false
      → (c.voter_cut_point ≡ none)
        ⊎ ((cut : Node p) × (c.voter_cut_point ≡ some cut) × (is_io cut.kind ≡ true))
      → (e : Error) × (wire_cone p c replicas connections old m ≡ err e)
  unfolding wire_cone get_replicas
  wire_cone-refused connections c replicas old m elements (inl missing) =
      (Error.cut_point_unset, simp (elements, missing, wire_cone) refl)
  wire_cone-refused connections c replicas old m elements (inr (cut, set, io)) =
      (Error.replicas_of_io, simp (elements, set, io, wire_cone, get_replicas) refl)

  wire_cone-empty :
      (connections : Connections p) (c : LogicCone p) (replicas : Replicas p)
      (old : VoterBuilder kernel) (m : Module)
      → null c.cone ≡ true
      → wire_cone p c replicas connections old m ≡ ok (old, m)
  unfolding wire_cone
  wire_cone-empty connections c replicas old m empty = rw (empty, wire_cone) refl

  refused-IfOk :
      {A : Type 0} {P : A → Module → Type 0} {r : Result (A × Module)}
      → (e : Error) × (r ≡ err e)
      → IfOk P r
  refused-IfOk (e, failed) = rw failed fails

  -- `wire_cone` keeps every voter that is there. If the cone is empty it builds none, and otherwise
  -- one, whose report is the last of the builder.
  pub wire_cone-Wired :
      (connections : Connections p) (c : LogicCone p) (replicas : Replicas p)
      (old : VoterBuilder kernel) (m : Module)
      → CutPoint p connections.wires (Plain kernel s g marks) c.voter_cut_point
      → Plain kernel s g marks c.output_node.obj
      → PlainReplicas p s g marks replicas
      → IsTidy kernel s g marks m
      → IfOk
          (λ new m'. Intact kernel s g marks m m' × AddsVoter connections c replicas old new m')
          (wire_cone p c replicas connections old m)
  wire_cone-Wired connections c replicas old m plain_cut plain_output plain_replicas tidy =
      let refused = wire_cone-refused connections c replicas old m in
      elim (Bool-cases (null c.cone)) [
        | inl empty ↦
            subst (IfOk (Wired connections c replicas old m))
              (sym (wire_cone-empty connections c replicas old m empty))
              (succeeds (Intact-refl kernel s g marks m tidy, inl (empty, refl)))
        | inr elements ↦ elim (Option-cases c.voter_cut_point) [
          | inl missing ↦ refused-IfOk (refused elements (inl missing))
          | inr (cut, set) ↦ elim (Bool-cases (is_io cut.kind)) [
            | inl io ↦ refused-IfOk (refused elements (inr (cut, set, io)))
            | inr other ↦
                subst (IfOk (Wired connections c replicas old m))
                  (sym (wire_cone-voted connections c cut replicas old m elements set other))
                  (voted-Wired connections c replicas cut old m elements set (plain_cut cut set)
                    plain_output (plain_replicas cut.address) tidy)
          ]
        ]
      ]
