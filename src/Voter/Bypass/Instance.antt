-- ===== src/Voter/Bypass/Instance.antt =====
-- The bypass of src/voter_builder.cpp puts one instance of the module VOTER into the netlist.
use text.Mathlib.TextEquality.{eq_iff}
use tamara.Common.{
  str_append, str_eq, String, ◌≡◌, ◌≢◌, Yields, some, ap, false, true, false≢true, seq, yields, ◌∙◌,
  refl, sym, In, ◌↔◌, ◌⊎◌, subst, subst₂,
}
use tamara.Rtlil.Kernel.{AnyPtr, Kernel, cell}
use tamara.Rtlil.Ports.{Ports, signal_at}
use tamara.Rtlil.NewCells.{NewCells}
use tamara.Rtlil.Attributes.{Attributes, Has}
use tamara.Util.Names.{voter_annotation, tamara_id, to_string}
use tamara.Voter.Bypass.{build_or_bypass, insert_voter_cell, voter_type}

other_name : (a b : String) → str_eq a b ≡ false → a ≢ b
other_name a b differ e = false≢true (sym differ ∙ (eq_iff a b).1 e)

module _ (k : Kernel) (ports : Ports k) (laws : NewCells k) (attributes : Attributes k) where
  open k use {
    Wire, Cell, SigSpec, Module, of_wire, cell_type, cell_connections, set_port, set_bool_attribute,
    next_index, add_cell, cells,
  }

  abbrev At : Module → Cell → String → SigSpec → Type 0
  At m c port signal = signal_at port (cell_connections m c) ≡ some signal

  -- one new cell, of the type VOTER, with these five signals, and no other port changed
  pub record Instance (a b c out error : SigSpec) (m m' : Module) : Type 0 where
    pub voter : Cell
    pub new : ¬ In voter (cells m)
    pub joined : (d : Cell) → In d (cells m') ↔ (In d (cells m) ⊎ (voter ≡ d))
    pub type : cell_type voter ≡ voter_type
    pub on_a : At m' voter "\\A" a
    pub on_b : At m' voter "\\B" b
    pub on_c : At m' voter "\\C" c
    pub on_out : At m' voter "\\OUT" out
    pub on_error : At m' voter "\\ERR" error
    pub marked : Has k m' (cell voter) voter_annotation
    pub others : (d : Cell) → voter ≢ d → cell_connections m' d ≡ cell_connections m d

  At-set_port :
      (m : Module) (c : Cell) (port other : String) (signal old : SigSpec)
      → str_eq other port ≡ false
      → At m c port old
      → At (set_port c other signal m) c port old
  At-set_port m c port other signal old differ at =
      ports.signal_at-set_port_name c other port signal m (other_name other port differ) ∙ at

  At-mark :
      (m : Module) (c : Cell) (port : String) (signal : SigSpec) (x : AnyPtr Wire Cell)
      (name : String)
      → At m c port signal
      → At (set_bool_attribute x name m) c port signal
  At-mark m c port signal x name at =
      ap (signal_at port) (laws.set_bool_attribute-ports x name m c) ∙ at

  insert_voter_cell-Instance :
      (a b c out error : SigSpec) (m : Module)
      → Yields (λ _ m'. Instance a b c out error m m') (insert_voter_cell k a b c out error m)
  unfolding insert_voter_cell tamara_id
  insert_voter_cell-Instance a b c out error m =
      let (index, m0) = next_index m in
      let (voter, m1) =
        add_cell (str_append (str_append "$tmr$" "voter") (str_append "$" (to_string index)))
          voter_type m0 in
      let ma = set_port voter "\\A" a m1 in
      let mb = set_port voter "\\B" b ma in
      let mc = set_port voter "\\C" c mb in
      let mo = set_port voter "\\OUT" out mc in
      let set = λ (port : String) (signal : SigSpec) (m : Module).
        ports.signal_at-set_port voter port signal m in
      let on_c = At-set_port mc voter "\\C" "\\OUT" out c refl (set "\\C" c mb) in
      let on_b =
        At-set_port mc voter "\\B" "\\OUT" out b refl
          (At-set_port mb voter "\\B" "\\C" c b refl (set "\\B" b ma)) in
      let on_a = At-set_port mc voter "\\A" "\\OUT" out a refl (
        At-set_port mb voter "\\A" "\\C" c a refl
          (At-set_port ma voter "\\A" "\\B" b a refl (set "\\A" a m1))) in
      let kept =
        λ (port : String) (signal : SigSpec) (differ : str_eq "\\ERR" port ≡ false)
            (at : At mo voter port signal).
          At-mark _ voter port signal (cell voter) voter_annotation
            (At-set_port mo voter port "\\ERR" error signal differ at) in
      let me = set_port voter "\\ERR" error mo in
      let before = laws.next_index-cells m in
      let after =
        laws.set_bool_attribute-cells (cell voter) voter_annotation me
        ∙ laws.set_port-cells voter "\\ERR" error mo
        ∙ laws.set_port-cells voter "\\OUT" out mc
        ∙ laws.set_port-cells voter "\\C" c mb
        ∙ laws.set_port-cells voter "\\B" b ma
        ∙ laws.set_port-cells voter "\\A" a m1 in
      yields (record {
        voter = voter;
        new = λ at. laws.add_cell-new _ voter_type m0 (subst (In voter) (sym before) at);
        joined = λ d.
            subst₂ (λ now old. In d now ↔ (In d old ⊎ (voter ≡ d))) (sym after) before
              (laws.add_cell-cells _ voter_type m0 d);
        type = laws.cell_type-add_cell _ voter_type m0;
        on_a = kept "\\A" a refl on_a;
        on_b = kept "\\B" b refl on_b;
        on_c = kept "\\C" c refl on_c;
        on_out = kept "\\OUT" out refl (set "\\OUT" out mc);
        on_error =
            At-mark _ voter "\\ERR" error (cell voter) voter_annotation (set "\\ERR" error mo);
        marked = attributes.set_bool_attribute-Has (cell voter) voter_annotation _;
        others = λ d apart.
            laws.set_bool_attribute-ports (cell voter) voter_annotation _ d
            ∙ ports.set_port-other voter d "\\ERR" error mo apart
            ∙ ports.set_port-other voter d "\\OUT" out mc apart
            ∙ ports.set_port-other voter d "\\C" c mb apart
            ∙ ports.set_port-other voter d "\\B" b ma apart
            ∙ ports.set_port-other voter d "\\A" a m1 apart
            ∙ laws.add_cell-ports _ voter_type m0 d apart
            ∙ ports.next_index-ports m d;
      })

  -- With TAMARA_DEBUG_BYPASS_VOTER set, `build` returns, and the netlist has exactly one cell more,
  -- which was not there before: it is of the type VOTER, has the five wires on the ports of its module, and is marked as a voter. The
  -- ports of all other cells are as they were.
  pub build_or_bypass-Instance :
      (a b c out error : Wire) (m : Module)
      → Yields
          (λ _ m'. Instance (of_wire a) (of_wire b) (of_wire c) (of_wire out) (of_wire error) m m')
          (build_or_bypass k true a b c out error m)
  unfolding build_or_bypass
  build_or_bypass-Instance a b c out error m =
      seq
        (insert_voter_cell-Instance (of_wire a) (of_wire b) (of_wire c) (of_wire out)
          (of_wire error) m)
        (λ _ m' added. yields added)
