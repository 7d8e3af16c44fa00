-- ===== src/Cone/Wiring.antt =====
-- The voter of a cone and its wiring: `extractReplicaWire`, `insertVoter` and `LogicCone::wire` of
-- src/logic_graph.cpp.
pub mod Outputs
pub mod Shared
pub mod Extract
pub mod Majority
pub mod Protected
pub mod Whole
pub mod FlipFlop
pub mod Intact
pub mod Polled
pub mod Wired
pub mod Masked
use tamara.Cone.Node.{Node, null}
use tamara.Cone.Search.{LogicCone}
use tamara.Util.Connections.{Ptr, Connections}
use tamara.Voter.{VoterBuilder, build}
use tamara.Cone.Replicate.{Replicas, get_replicas}
use tamara.Rtlil.Kernel.{wire, cell}
use tamara.Util.Names.{tamara_id}
use tamara.FixWalker.{as_cell, execute_walkers, multi_driver_fixer}
use tamara.Common.{
  true, false, List, String, M, Option, ℕ, if◌then◌else◌, none, ok, ◌>>=◌, [], ltb, pure, some_or,
  ◌∷◌, Error, call, length, some, and_then, change, suc, ◌>>◌, require, zero, not, ◌==◌, ◌++◌,
  is_some,
}
use tamara.Rtlil.Platform.{Platform}

module _ (p : Platform) where
  open p use {kernel, ptr_set, signal_set, wire_map, signal_map}
  open kernel use {
    Wire, Cell, SigSpec, Module, cell_name, cell_type, cell_output, cell_connections, size,
    add_wire, set_port, of_wire, connect,
  }

  -- a fresh wire in place of the one on the port, so that the voter can come between
  unfoldable pub replace_output : Cell → String → SigSpec → M Module Wire
  replace_output c port signal = do
    name ← tamara_id kernel "eRW"
    w ← call (add_wire name (size signal))
    change (set_port c port (of_wire w))
    pure w

  -- the loop over the ports; `out` is the wire of the output port seen before
  unfoldable pub replace_outputs :
      Cell → List (String × SigSpec) → Option Wire → M Module (Option Wire)
  replace_outputs c [] out m = ok (out, m)
  replace_outputs c ((port, signal) ∷ ports) out m = elim (cell_output (cell_type c) port) [
    | false ↦ replace_outputs c ports out m
    | true ↦ and_then (require (not (is_some out)) (Error.multiple_outputs (cell_name c)) m) (λ _ m.
        and_then (replace_output c port signal m) (λ w m. replace_outputs c ports (some w) m))
  ]

  -- `extractReplicaWire`; its inverse lookup is only logged
  unfoldable pub extract_replica_wire : Ptr p → M Module Wire
  extract_replica_wire (wire w) m = ok (w, m)
  extract_replica_wire (cell c) m =
      and_then (replace_outputs c (cell_connections m c) none m)
        (λ out m. some_or out (Error.no_output_wire (cell_name c)) m)

  -- `replicas.at(i)`
  abbrev pub at : {A : Type 0} → List A → ℕ → Option A
  at [] i = none
  at (x ∷ xs) zero = some x
  at (x ∷ xs) (suc i) = at xs i

  unfoldable pub extract_at : List (Ptr p) → ℕ → M Module Wire
  extract_at replicas i = do
    replica ← some_or (at replicas i) Error.key_not_found
    extract_replica_wire replica

  -- `LogicCone::insertVoter`
  unfoldable pub insert_voter :
      LogicCone p
      → VoterBuilder kernel
      → List (Ptr p)
      → M Module (Option Wire × VoterBuilder kernel)
  insert_voter c builder replicas = if null c.cone then pure (none, builder) else (do
    cut ← some_or c.voter_cut_point Error.cut_point_unset
    out ← extract_replica_wire cut.obj
    a ← extract_at replicas 0
    b ← extract_at replicas 1
    c ← extract_at replicas 2
    builder ← build kernel builder (some a) (some b) (some c) (some out)
    pure (some out, builder))

  abbrev pub signals_of : signal_map.Map → Ptr p → List SigSpec
  signals_of m x = elim (signal_map.find m x) [ none ↦ [] | some s ↦ signal_set.elements s ]

  -- more than one signal hangs on the output: the voter drives the cut point's original signal
  unfoldable pub connect_special : Connections p → Ptr p → Wire → M Module (Unit {0})
  connect_special connections cut voter_out = do
    c ← as_cell p cut
    specs ← some_or (signal_map.find connections.cell_outputs (cell c)) Error.key_not_found
    require (not (ltb 1 (length (signal_set.elements specs)))) Error.voter_specs
    first ← some_or (at (signal_set.elements specs) 0) Error.key_not_found
    change (connect first (of_wire voter_out))

  unfoldable pub connect_output : Connections p → Node p → Node p → Wire → M Module (Unit {0})
  connect_output connections cut output voter_out = do
    out ← extract_replica_wire output.obj
    if ltb 1 (length (signals_of connections.signals (wire out)))
        then connect_special connections cut.obj voter_out
        else change (connect (of_wire out) (of_wire voter_out))

  unfoldable pub connect_voter : Connections p → Node p → Node p → Option Wire → M Module (Unit {0})
  connect_voter connections cut output none = pure tt
  connect_voter connections cut output (some voter_out) =
      connect_output connections cut output voter_out

  -- `LogicCone::wire`
  unfoldable pub wire_cone :
      LogicCone p
      → Replicas p
      → Connections p
      → VoterBuilder kernel
      → M Module (VoterBuilder kernel)
  wire_cone c replicas connections builder = if null c.cone then pure builder else (do
    cut ← some_or c.voter_cut_point Error.cut_point_unset
    copies ← get_replicas p cut replicas
    require (length copies == 2) Error.replica_count
    (voter_out?, builder) ← insert_voter c builder (copies ++ cut.obj ∷ [])
    connect_voter connections cut c.output_node voter_out?
    execute_walkers p (multi_driver_fixer p ∷ [])
    pure builder)
