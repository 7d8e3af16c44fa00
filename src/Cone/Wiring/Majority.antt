-- ===== src/Cone/Wiring/Majority.antt =====
-- The voter of a cone takes the majority of the three copies of its cut point.
use tamara.Cone.Wiring.{VoterBuilder, LogicCone, Node, build, cell}
use tamara.Cone.Wiring.Extract.{HasOutput}
use tamara.Rtlil.Ports.{Ports, AllNew}
use tamara.Rtlil.Circuit.{Circuit}
use tamara.Voter.{VoterBuilder, build}
use tamara.Cone.Search.{LogicCone}
use tamara.Cone.Node.{Node}
use tamara.Voter.Bit.{majority, disagree}
use tamara.Rtlil.Kernel.{cell}
use tamara.Voter.Bits.{any_from}
use tamara.Common.{ℕ, Bool, String, Option, ◌<◌, ◌≡◌, some, ◌++◌, none, ◌∷◌, [], List, In}
use tamara.Rtlil.Platform.{Platform}

module _ (p : Platform) (laws : Ports p.kernel) (s : Circuit p.kernel)
    (v : p.kernel.Wire → ℕ → Bool) where
  open p use {kernel}
  open kernel use {Wire, Cell, SigSpec, Module, width, size, of_wire, wires}
  open s use {Allows}

  abbrev pub OnOutput : Module → Cell → Wire → Type 0
  OnOutput m c w = (port : String) × HasOutput p laws m c port (of_wire w)

  -- The cells drive one wire each, and `out` is the majority of the three, bit by bit. These four
  -- wires are not in the netlist at the start, and differ. The new report of the builder is set
  -- exactly if the three differ somewhere.
  pub record Majority (bits : ℕ) (start : Module) (x r1 r2 : Cell) (old : VoterBuilder kernel)
      (out : Wire) (new : VoterBuilder kernel) (m' : Module) : Type 0 where
    pub a : Wire
    pub b : Wire
    pub c : Wire
    pub report : Wire
    pub wired : Module
    pub first : OnOutput wired r1 a
    pub second : OnOutput wired r2 b
    pub third : OnOutput wired x c
    pub fresh : AllNew kernel start (c ∷ b ∷ a ∷ out ∷ [])
    pub wide : width out ≡ bits
    pub reported : new.reductions ≡ old.reductions ++ report ∷ []
    pub votes : Allows m' v → (i : ℕ) → i < bits → v out i ≡ majority (v a i) (v b i) (v c i)
    pub reports : Allows m' v → v report 0 ≡ any_from (λ i. disagree (v a i) (v b i) (v c i)) 0 bits

  abbrev pub Inserted :
      ℕ
      → Module
      → Cell
      → Cell
      → Cell
      → VoterBuilder kernel
      → Option Wire × VoterBuilder kernel
      → Module
      → Type 0
  Inserted bits start x r1 r2 old (none, new) m' = ⊥
  Inserted bits start x r1 r2 old (some out, new) m' = Majority bits start x r1 r2 old out new m'

  -- new wires that joined a netlist, which kept the wires that it had
  abbrev Grown : Module → List Wire → Module → Type 0
  Grown m ws m' =
      AllNew kernel m ws
      × ((u : Wire) → In u (wires m) → In u (wires m'))
      × ((u : Wire) → In u ws → In u (wires m'))
