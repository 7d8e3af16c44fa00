-- ===== src/Cone/Wiring/Extract.antt =====
-- What `extractReplicaWire` does to a cell with one output port.
use tamara.Rtlil.Ports.{signal_at, port_names, Ports}
use text.Mathlib.TextEquality.{eq_iff}
use tamara.Rtlil.Platform.{Platform}
use tamara.Cone.Wiring.{replace_output, extract_replica_wire, tamara_id, cell}
use tamara.Util.Names.{tamara_id, to_string}
use tamara.Rtlil.Kernel.{cell}
use tamara.Cone.Wiring.Outputs.{extract_replica_wire-only, redirect_only}
use tamara.Common.{
  List, String, Bool, select, ◌≡◌, [], true, ◌∷◌, arith, some, refl, Yields, ◌≢◌, str_append, subst,
  sym, ◌∙◌, yields, ap, In-select, In, inl, Result, subst₂, ◌↔◌, err, ◌⊎◌, Error,
}

module _ {S : Type 0} (test : String → Bool) where
  abbrev pub passing : List (String × S) → List (String × S)
  passing = select (λ x. test x.0)

  passing-none :
      (ports ports' : List (String × S))
      → port_names ports' ≡ port_names ports
      → passing ports ≡ []
      → passing ports' ≡ []
  passing-none [] [] same none_pass = refl
  passing-none [] (_ ∷ _) same none_pass = cc
  passing-none (_ ∷ _) [] same none_pass = cc
  passing-none ((n, s) ∷ ports) ((n', s') ∷ ports') same none_pass =
      ground (arith, passing-none ports ports')

  -- of the same names, the only one that passes is at its new signal
  passing-only :
      (ports ports' : List (String × S)) (port : String) (s t : S)
      → port_names ports' ≡ port_names ports
      → test port ≡ true
      → passing ports ≡ (port, s) ∷ []
      → signal_at port ports' ≡ some t
      → passing ports' ≡ (port, t) ∷ []
  passing-only [] ports' port s t same passes only there = cc
  passing-only (_ ∷ _) [] port s t same passes only there = cc
  passing-only ((n, x) ∷ ports) ((n', x') ∷ ports') port s t same passes only there =
      ground (arith, eq_iff n' port, passing-only ports ports' port s t, passing-none ports ports')

  passing-signal_at :
      (ports : List (String × S)) (port : String) (s : S)
      → test port ≡ true
      → passing ports ≡ (port, s) ∷ []
      → signal_at port ports ≡ some s
  passing-signal_at [] port s passes only = cc
  passing-signal_at ((n, x) ∷ ports) port s passes only =
      ground (arith, eq_iff n port, passing-signal_at ports port s)

module _ (p : Platform) (laws : Ports p.kernel) where
  open p use {kernel}
  open kernel use {
    Wire, Cell, SigSpec, Module, cell_name, cell_type, cell_output, cell_connections, width, size,
    of_wire, set_port, add_wire, next_index, wires,
  }

  -- the output ports of a cell
  abbrev pub outputs : Module → Cell → List (String × SigSpec)
  outputs m c = select (λ port. cell_output (cell_type c) port.0) (cell_connections m c)

  -- Between `m` and `m'` a wire that was not in the module, of the same width, joined it and came to
  -- the output port of the cell. The other wires, the other ports of the cell and the ports of the
  -- other cells stayed.
  pub record Extracted (c : Cell) (port : String) (signal : SigSpec) (m : Module) (w : Wire)
      (m' : Module) : Type 0 where
    pub new : ¬ In w (wires m)
    pub joined : (u : Wire) → In u (wires m') ↔ (In u (wires m) ⊎ (w ≡ u))
    pub wide : width w ≡ size signal
    pub redirected : outputs m' c ≡ (port, of_wire w) ∷ []
    pub inputs :
        (other : String)
        → port ≢ other
        → signal_at other (cell_connections m' c) ≡ signal_at other (cell_connections m c)
    pub others : (d : Cell) → c ≢ d → cell_connections m' d ≡ cell_connections m d

  set_port-outputs :
      (c : Cell) (port : String) (signal : SigSpec) (w : Wire) (m : Module)
      → cell_output (cell_type c) port ≡ true
      → outputs m c ≡ (port, signal) ∷ []
      → outputs (set_port c port (of_wire w) m) c ≡ (port, of_wire w) ∷ []
  set_port-outputs c port signal w m passes only =
      let test = cell_output (cell_type c) in
      passing-only test (cell_connections m c) _ port signal (of_wire w)
        (laws.port_names-set_port c port (of_wire w) signal m
          (passing-signal_at test (cell_connections m c) port signal passes only))
        passes only (laws.signal_at-set_port c port (of_wire w) m)

  replace_output-Extracted :
      (c : Cell) (port : String) (signal : SigSpec) (m : Module)
      → cell_output (cell_type c) port ≡ true
      → outputs m c ≡ (port, signal) ∷ []
      → Yields (Extracted c port signal m) (replace_output p c port signal m)
  unfolding replace_output tamara_id
  replace_output-Extracted c port signal m passes only =
      let (index, m1) = next_index m in
      let name = str_append (str_append "$tmr$" "eRW") (str_append "$" (to_string index)) in
      let (w, m2) = add_wire name (size signal) m1 in
      let kept : (d : Cell) → cell_connections m2 d ≡ cell_connections m d =
        λ d. laws.add_wire-ports name (size signal) m1 d ∙ laws.next_index-ports m d in
      let same = laws.set_port-wires c port (of_wire w) m2 in
      let before = laws.next_index-wires m in
      yields (record {
        new = λ at. laws.add_wire-new name (size signal) m1 (subst (In w) (sym before) at);
        joined = λ u.
            subst₂ (λ after old. In u after ↔ (In u old ⊎ (w ≡ u))) (sym same) before
              (laws.add_wire-wires name (size signal) m1 u);
        wide = laws.width-new_wire name (size signal) m1;
        redirected =
            set_port-outputs c port signal w m2 passes
              (ap (select (λ x. cell_output (cell_type c) x.0)) (kept c) ∙ only);
        inputs = λ other apart.
            laws.signal_at-set_port_name c port other (of_wire w) m2 apart
            ∙ ap (signal_at other) (kept c);
        others = λ d other. laws.set_port-other c d port (of_wire w) m2 other ∙ kept d;
      })

  -- a cell with one output port, which has this signal
  abbrev pub HasOutput : Module → Cell → String → SigSpec → Type 0
  HasOutput m c port signal = outputs m c ≡ (port, signal) ∷ []

  HasOutput-output :
      (c : Cell) (port : String) (signal : SigSpec) (m : Module)
      → HasOutput m c port signal
      → cell_output (cell_type c) port ≡ true
  HasOutput-output c port signal m only =
      ((In-select (λ x. cell_output (cell_type c) x.0) (port, signal) (cell_connections m c)).0
        (subst (In (port, signal)) (sym only) (inl refl))).1

  -- On a cell with one output port, `extract_replica_wire` redirects it.
  pub extract_replica_wire-Extracted :
      (c : Cell) (port : String) (signal : SigSpec) (m : Module)
      → HasOutput m c port signal
      → Yields (Extracted c port signal m) (extract_replica_wire p (cell c) m)
  extract_replica_wire-Extracted c port signal m only =
      subst (Yields (Extracted c port signal m))
        (sym (extract_replica_wire-only p c m ∙ ap (λ ports. redirect_only p c ports m) only))
        (replace_output-Extracted c port signal m (HasOutput-output c port signal m only) only)

  -- what the list of its output ports says of the call on a cell
  abbrev pub Extracts : Cell → Module → List (String × SigSpec) → Result (Wire × Module) → Type 0
  Extracts c m [] r = r ≡ err (Error.no_output_wire (cell_name c))
  Extracts c m ((port, signal) ∷ []) r = Yields (Extracted c port signal m) r
  Extracts c m (_ ∷ _ ∷ _) r = r ≡ err (Error.multiple_outputs (cell_name c))

  extract_replica_wire-ports :
      (c : Cell) (m : Module) (ports : List (String × SigSpec))
      → outputs m c ≡ ports
      → Extracts c m ports (extract_replica_wire p (cell c) m)
  extract_replica_wire-ports c m [] none_there =
      extract_replica_wire-only p c m ∙ ap (λ ports. redirect_only p c ports m) none_there
  extract_replica_wire-ports c m ((port, signal) ∷ []) only =
      extract_replica_wire-Extracted c port signal m only
  extract_replica_wire-ports c m (_ ∷ _ ∷ _) several =
      extract_replica_wire-only p c m ∙ ap (λ ports. redirect_only p c ports m) several

  -- `extract_replica_wire` fails on a cell without output port and on a cell with several. On a cell
  -- with one it succeeds, and only a wire that was not in the module joins it: it has the width of
  -- the signal that the port had, and is on the port afterwards. The other ports of the cell and the
  -- ports of the other cells have the signals that they had.
  pub extract_replica_wire-Extracts :
      (c : Cell) (m : Module) → Extracts c m (outputs m c) (extract_replica_wire p (cell c) m)
  extract_replica_wire-Extracts c m = extract_replica_wire-ports c m (outputs m c) refl

  pub HasOutput-kept :
      {c d : Cell} {port other : String} {signal t : SigSpec} {m m' : Module} {w : Wire}
      → Extracted c port signal m w m'
      → c ≢ d
      → HasOutput m d other t
      → HasOutput m' d other t
  HasOutput-kept {d = d} extracted apart only =
      ap (select (λ x. cell_output (cell_type d) x.0)) (extracted.others d apart) ∙ only
