-- ===== src/Examples/Protection.antt =====
-- The voter of the cone of y2 in the sample circuit, whose cut point is the gate g.
use tamara.Sample.Netlist.{Netlist, Object, object, platform, kernel, Item}
use tamara.Sample.Shared.{gate, shared, node}
use tamara.Sample.Gates.{circuit}
use tamara.Cone.Wiring.Protected.{Protected}
use tamara.FixWalker.{execute_walkers, multi_driver_fixer}
use tamara.FixWalker.Calm.{IsCalm, execute_walkers-calm}
use tamara.Util.Connections.{Connections, analyse_connections}
use tamara.Rtlil.Kernel.{cell}
use tamara.Cone.Node.{Node, Kind}
use tamara.Cone.Replicate.{Replicas}
use tamara.Sample.Growth.{gates, marks}
use tamara.Rtlil.Intact.{Plain}
use tamara.Common.{
  [], false, ℕ, ◌≡◌, Bool, true, ◌∷◌, arith, List-cases, ok, if◌then◌else◌, inl, inr, ◌==◌,
}

abbrev replica1 : Object
replica1 = object "g$replica1_cone1" "$and" 0 false false

abbrev replica2 : Object
replica2 = object "g$replica2_cone1" "$and" 0 false false

abbrev tripled : Netlist
tripled =
    (kernel.copy_cell "g$replica2_cone1" gate (kernel.copy_cell "g$replica1_cone1" gate shared).1).1

abbrev no_connections : Connections platform
no_connections = record { wires = []; signals = []; cell_outputs = [] }

abbrev all_set : Object → ℕ → Bool
all_set w i = true

abbrev cut : Node platform
cut = node Kind.element_cell (cell gate) 2

abbrev replicas : Replicas platform
replicas address = if address == 2 then cell replica1 ∷ cell replica2 ∷ [] else []

abbrev PlainItem : Item → Type 0
PlainItem = Plain kernel circuit gates marks

-- nothing in the sample circuit is annotated
calm : (w : Object) → IsCalm platform (analyse_connections platform shared).wires shared w
calm w readers found = elim (List-cases readers) [
  | inl empty ↦ rw empty (ground arith)
  | inr (x, rest, more) ↦ ground arith
]

execute_walkers-calm_example :
    execute_walkers platform (multi_driver_fixer platform ∷ []) shared ≡ ok (tt, shared)
execute_walkers-calm_example = execute_walkers-calm platform shared calm
