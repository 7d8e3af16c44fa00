-- ===== src/Cone/Wiring/Intact.antt =====
-- The wiring of a cone in src/logic_graph.cpp gives new ports only to objects that are no gates of
-- a voter, and leaves the voters that are there intact.
use tamara.Util.Connections.{Ptr}
use tamara.Voter.Intact.{Keeps-tamara_id}
use tamara.FixWalker.{as_cell}
use tamara.Rtlil.Intact.Calls.{Keeps-connect, Keeps-add_wire, Keeps-set_port}
use tamara.Cone.Node.{Node}
use tamara.Common.{
  ℕ, zero, suc, List, ◌≡◌, some, In, String, Option, Option-cases, none, ◌∷◌, Bool-cases, inl,
  fails, inr, some_injective, [], Error,
}
use tamara.Rtlil.Circuit.{Circuit}
use tamara.Rtlil.Gates.{Gates, Marks}
use tamara.Rtlil.Intact.{
  Plain, Keeps, Keeps-pure, Keeps-fail, Keeps-bind, Keeps-then, Keeps-seq, Keeps-require,
  Keeps-some_or, Keeps-if,
}
use tamara.Rtlil.Kernel.{wire, cell}
use tamara.Rtlil.Platform.{Platform}
use tamara.Cone.Replicate.Intact.{AllPlain}
use tamara.Cone.Wiring.{
  at, Ptr, connect_output, connect_special, extract_at, extract_replica_wire, replace_output,
  replace_outputs, Connections, Node, as_cell, connect_voter,
}

module _ (p : Platform) (s : Circuit p.kernel) (g : Gates p.kernel s) (marks : Marks p.kernel) where
  open p use {kernel, signal_map, signal_set}
  open kernel use {
    Wire, Cell, SigSpec, Module, size, of_wire, cell_type, cell_output, cell_connections,
  }

  Keeps-replace_output :
      (c : Cell) (port : String) (signal : SigSpec)
      → Plain kernel s g marks (cell c)
      → Keeps kernel s g marks (replace_output p c port signal)
  unfolding replace_output
  Keeps-replace_output c port signal plain =
      Keeps-bind kernel s g marks _ _ (Keeps-tamara_id kernel s g marks "eRW") (λ name.
        Keeps-bind kernel s g marks _ _ (Keeps-add_wire kernel s g marks name (size signal)) (λ w.
          Keeps-then kernel s g marks _ _ (Keeps-set_port kernel s g marks c port (of_wire w) plain)
            (Keeps-pure kernel s g marks w)))

  Keeps-replace_outputs :
      (c : Cell) (ports : List (String × SigSpec)) (out : Option Wire)
      → Plain kernel s g marks (cell c)
      → Keeps kernel s g marks (replace_outputs p c ports out)
  unfolding replace_outputs
  Keeps-replace_outputs c [] out plain = Keeps-pure kernel s g marks out
  Keeps-replace_outputs c ((port, signal) ∷ ports) out plain = record {
    at = λ m tidy. elim (Bool-cases (cell_output (cell_type c) port)) [
      | inr input ↦
          rw (input, replace_outputs) ((Keeps-replace_outputs c ports out plain).at m tidy)
      | inl output ↦
          rw (output, replace_outputs)
            (Keeps-seq kernel s g marks ((Keeps-require kernel s g marks _ _).at m tidy)
              (λ _ m1 kept1.
                Keeps-seq kernel s g marks
                  ((Keeps-replace_output c port signal plain).at m1 kept1.tidy)
                  (λ w m2 kept2. (Keeps-replace_outputs c ports (some w) plain).at m2 kept2.tidy)))
    ];
  }

  pub Keeps-extract_replica_wire :
      (x : Ptr p) → Plain kernel s g marks x → Keeps kernel s g marks (extract_replica_wire p x)
  unfolding extract_replica_wire
  Keeps-extract_replica_wire (wire w) plain = Keeps-pure kernel s g marks w
  Keeps-extract_replica_wire (cell c) plain = record {
    at = λ m tidy.
        Keeps-seq kernel s g marks
          ((Keeps-replace_outputs c (cell_connections m c) none plain).at m tidy)
          (λ out m1 kept. (Keeps-some_or kernel s g marks out _).at m1 kept.tidy);
  }

  at-In : {A : Type 0} (xs : List A) (i : ℕ) (x : A) → at p xs i ≡ some x → In x xs
  at-In [] i x e = cc
  at-In (y ∷ xs) zero x e = inl (some_injective e)
  at-In (y ∷ xs) (suc i) x e = inr (at-In xs i x e)

  pub Keeps-extract_at :
      (xs : List (Ptr p)) (i : ℕ)
      → AllPlain p s g marks xs
      → Keeps kernel s g marks (extract_at p xs i)
  unfolding extract_at
  Keeps-extract_at xs i plain = elim (Option-cases (at p xs i)) [
    | inl missing ↦ rw (missing, extract_at) (record { at = λ m tidy. fails })
    | inr (x, e) ↦ rw (e, extract_at) (Keeps-extract_replica_wire x (plain x (at-In xs i x e)))
  ]

  Keeps-as_cell : (x : Ptr p) → Keeps kernel s g marks (as_cell p x)
  Keeps-as_cell (cell c) = Keeps-pure kernel s g marks c
  Keeps-as_cell (wire w) = Keeps-fail kernel s g marks Error.bad_variant_access

  Keeps-connect_special :
      (connections : Connections p) (cut : Ptr p) (out : Wire)
      → Keeps kernel s g marks (connect_special p connections cut out)
  unfolding connect_special
  Keeps-connect_special connections cut out =
      search (Keeps-as_cell, Keeps-some_or, Keeps-require, Keeps-connect, Keeps-bind, Keeps-then)
        depth 20

  pub Keeps-connect_output :
      (connections : Connections p) (cut output : Node p) (voter_out : Wire)
      → Plain kernel s g marks output.obj
      → Keeps kernel s g marks (connect_output p connections cut output voter_out)
  unfolding connect_output
  Keeps-connect_output connections cut output voter_out plain =
      Keeps-bind kernel s g marks _ _ (Keeps-extract_replica_wire output.obj plain) (λ out.
        Keeps-if kernel s g marks _ _ _ (Keeps-connect_special connections cut.obj voter_out)
          (Keeps-connect kernel s g marks (of_wire out) (of_wire voter_out)))

  pub Keeps-connect_voter :
      (connections : Connections p) (cut output : Node p) (out : Option Wire)
      → Plain kernel s g marks output.obj
      → Keeps kernel s g marks (connect_voter p connections cut output out)
  unfolding connect_voter
  Keeps-connect_voter connections cut output none plain = Keeps-pure kernel s g marks tt
  Keeps-connect_voter connections cut output (some out) plain =
      Keeps-connect_output connections cut output out plain
