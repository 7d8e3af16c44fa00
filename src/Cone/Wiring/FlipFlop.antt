-- ===== src/Cone/Wiring/FlipFlop.antt =====
-- `LogicCone::wire` on a cone whose output is a flip flop.
use tamara.Cone.Wiring.{
  at, connect_voter, connect_output, connect_special, signals_of, extract_replica_wire,
}
use tamara.Cone.Wiring.Extract.{HasOutput, Extracted, extract_replica_wire-Extracted}
use tamara.Cone.Node.{Node}
use tamara.FixWalker.{as_cell}
use tamara.Util.Connections.{Connections, Ptr}
use tamara.Rtlil.Ports.{Ports, signal_at}
use tamara.Rtlil.Kernel.{cell, wire}
use tamara.Common.{
  true, false, not, ltb, Error, IfOk, ◌≡◌, Bool, Option, String, succeeds, IfOk-seq, ap, fails,
  some, ◌≢◌, ok, refl, require, select, some_or, subst, IfOk-at, none, ◌∙◌, sym, Yields-IfOk,
  Bool-cases, length, inl, IfOk-weaken, inr, In,
}
use tamara.Rtlil.Platform.{Platform}

some_or-same :
    {S A : Type 0} (o : Option A) (e : Error) (s : S) → IfOk (λ _ s'. s ≡ s') (some_or o e s)
some_or-same none e s = fails
some_or-same (some a) e s = succeeds refl

require-same : {S : Type 0} (b : Bool) (e : Error) (s : S) → IfOk (λ _ s'. s ≡ s') (require b e s)
require-same true e s = succeeds refl
require-same false e s = fails

module _ (p : Platform) (laws : Ports p.kernel) where
  open p use {kernel, signal_map, signal_set}
  open kernel use {Wire, Cell, SigSpec, Module, cell_connections, width, size, of_wire, wires}

  abbrev KeepsPorts : Module → Module → Type 0
  KeepsPorts m m' = (d : Cell) → cell_connections m' d ≡ cell_connections m d

  as_cell-same : (x : Ptr p) (m : Module) → IfOk (λ _ m'. m ≡ m') (as_cell p x m)
  as_cell-same (cell c) m = succeeds refl
  as_cell-same (wire w) m = fails

  connect_special-KeepsPorts :
      (connections : Connections p) (cut : Ptr p) (voter_out : Wire) (m : Module)
      → IfOk (λ _ m'. KeepsPorts m m') (connect_special p connections cut voter_out m)
  unfolding connect_special
  connect_special-KeepsPorts connections cut voter_out m =
      IfOk-seq (as_cell-same cut m) (λ c m1 same1.
        IfOk-seq
          (some_or-same (signal_map.find connections.cell_outputs (cell c)) Error.key_not_found m1)
          (λ specs m2 same2.
            IfOk-seq
              (require-same (not (ltb 1 (length (signal_set.elements specs)))) Error.voter_specs m2)
              (λ _ m3 same3.
                IfOk-seq (some_or-same (at p (signal_set.elements specs) 0) Error.key_not_found m3)
                  (λ first m4 same4. succeeds (λ d.
                    laws.connect-ports first (of_wire voter_out) m4 d
                    ∙ ap (λ m. cell_connections m d) (sym (same1 ∙ same2 ∙ same3 ∙ same4)))))))

  -- the output port of the cell has a wire that was not in the module, of the same width, and no
  -- other port changed
  abbrev pub OnlyOutputMoved : Cell → String → SigSpec → Module → Module → Type 0
  OnlyOutputMoved f port signal m m' =
      ((w : Wire) × (¬ In w (wires m))
        × (width w ≡ size signal)
        × HasOutput p laws m' f port (of_wire w))
      × ((other : String)
          → port ≢ other
          → signal_at other (cell_connections m' f) ≡ signal_at other (cell_connections m f))
      × ((d : Cell) → f ≢ d → cell_connections m' d ≡ cell_connections m d)

  connected-OnlyOutputMoved :
      (f : Cell) (port : String) (signal : SigSpec) (m m1 m' : Module) (w : Wire)
      → Extracted p laws f port signal m w m1
      → KeepsPorts m1 m'
      → OnlyOutputMoved f port signal m m'
  connected-OnlyOutputMoved f port signal m m1 m' w extracted keeps = (
    (
      w,
      extracted.new,
      extracted.wide,
      ap (select (λ x. kernel.cell_output (kernel.cell_type f) x.0)) (keeps f)
          ∙ extracted.redirected,
    ),
    λ other apart. ap (signal_at other) (keeps f) ∙ extracted.inputs other apart,
    λ d apart. keeps d ∙ extracted.others d apart,
  )

  connect_output-OnlyOutputMoved :
      (connections : Connections p) (cut output : Node p) (f : Cell) (port : String)
      (signal : SigSpec) (voter_out : Wire) (m : Module)
      → output.obj ≡ cell f
      → HasOutput p laws m f port signal
      → IfOk
          (λ _ m'. OnlyOutputMoved f port signal m m')
          (connect_output p connections cut output voter_out m)
  unfolding connect_output
  connect_output-OnlyOutputMoved connections cut output f port signal voter_out m is_cell only =
      IfOk-seq
        (subst (λ x. IfOk (Extracted p laws f port signal m) (extract_replica_wire p x m))
          (sym is_cell) (Yields-IfOk (extract_replica_wire-Extracted p laws f port signal m only)))
        (λ w m1 extracted.
          elim (Bool-cases (ltb 1 (length (signals_of p connections.signals (wire w))))) [
            | inl several ↦ rw several (
                IfOk-weaken (connect_special-KeepsPorts connections cut.obj voter_out m1)
                  (λ _ m' keeps. connected-OnlyOutputMoved f port signal m m1 m' w extracted keeps))
            | inr one ↦ rw one (
                succeeds (
                  connected-OnlyOutputMoved f port signal m m1 _ w extracted
                    (λ d. laws.connect-ports (of_wire w) (of_wire voter_out) m1 d)))
          ])

  -- If the output of a cone is a flip flop with one output port, and the connection of the voter
  -- succeeds, then it moved this output port to a new wire of its width, and no other port: the
  -- inputs of the flip flop have the signals that they had before.
  pub connect_voter-flip_flop :
      (connections : Connections p) (cut output : Node p) (f : Cell) (port : String)
      (signal : SigSpec) (voter_out : Wire) (m m' : Module)
      → output.obj ≡ cell f
      → HasOutput p laws m f port signal
      → connect_voter p connections cut output (some voter_out) m ≡ ok (tt, m')
      → OnlyOutputMoved f port signal m m'
  unfolding connect_voter
  connect_voter-flip_flop connections cut output f port signal voter_out m m' is_cell only h =
      IfOk-at
        (connect_output-OnlyOutputMoved connections cut output f port signal voter_out m is_cell
          only)
        h
