-- ===== src/FixWalker/Reconnect.antt =====
-- What `MultiDriverFixer::reconnect` does to the two cells.
use tamara.FixWalker.{reconnect, locate_input_port, port_at, tamara_id}
use tamara.Util.Names.{tamara_id}
use tamara.Common.{
  Result, Option, String, ◌≡◌, err, some, Error, Option-cases, Yields, inl, none, inr, refl,
  Bool-cases, yields, ap, false≢true, sym, ◌∙◌, str_eq, subst₂, subst, In,
}
use text.Mathlib.TextEquality.{eq_iff}
use tamara.Rtlil.Ports.{Ports, signal_at}
use tamara.Rtlil.Platform.{Platform}

module _ (p : Platform) where
  open p use {kernel}
  open kernel use {
    Wire, Cell, SigSpec, Module, cell_name, cell_type, wire_name, width, of_wire, cell_input,
    cell_output, cell_connections, set_port, same_cell, same_cell_iff, wires, next_index, add_wire,
  }

  abbrev pub output_port : Wire → Cell → Module → Option String
  output_port target c m = port_at p (cell_output (cell_type c)) target (cell_connections m c)

  abbrev pub input_port : Wire → Cell → Module → Option String
  input_port target c m = port_at p (cell_input (cell_type c)) target (cell_connections m c)

  -- a wire that was not in the module, as wide as the target, on a port of both cells
  pub record OnBoth (target : Wire) (input : Cell) (out_port : String) (output : Cell)
      (in_port : String) (m m' : Module) (w : Wire) : Type 0 where
    pub new : ¬ In w (wires m)
    pub joined : In w (wires m')
    pub wide : width w ≡ width target
    pub driven : signal_at out_port (cell_connections m' input) ≡ some (of_wire w)
    pub read : signal_at in_port (cell_connections m' output) ≡ some (of_wire w)

  abbrev pub Reconnected :
      Wire
      → Cell
      → Cell
      → Module
      → Option String
      → Option String
      → Result (Unit {0} × Module)
      → Type 0
  Reconnected target input output m none _ r =
      r ≡ err (Error.no_output_port (cell_name input) (wire_name target))
  Reconnected target input output m (some _) none r =
      r ≡ err (Error.no_input_port (wire_name target) (cell_name output))
  Reconnected target input output m (some out_port) (some in_port) r =
      Yields (λ _ m'. (w : Wire) × OnBoth target input out_port output in_port m m' w) r

  module _ (laws : Ports kernel) where
    -- a port keeps the signal if any port is given the same
    pub set_port-keeps :
        (c d : Cell) (name other : String) (s : SigSpec) (m : Module)
        → signal_at other (cell_connections m d) ≡ some s
        → signal_at other (cell_connections (set_port c name s m) d) ≡ some s
    set_port-keeps c d name other s m has = elim (Bool-cases (same_cell c d)) [
      | inr apart ↦
          ap (signal_at other) (
            laws.set_port-other c d name s m
              (λ e. false≢true (sym apart ∙ (same_cell_iff c d).1 e)))
          ∙ has
      | inl same ↦
          let e = (same_cell_iff c d).0 same in
          elim (Bool-cases (str_eq name other)) [
            | inl named ↦
                subst₂ (λ d n. signal_at n (cell_connections (set_port c name s m) d) ≡ some s) e
                  ((eq_iff name other).0 named) (laws.signal_at-set_port c name s m)
            | inr else_named ↦
                subst (λ d. signal_at other (cell_connections (set_port c name s m) d) ≡ some s) e
                  (laws.signal_at-set_port_name c name other s m
                      (λ n. false≢true (sym else_named ∙ (eq_iff name other).1 n))
                    ∙ subst (λ d. signal_at other (cell_connections m d) ≡ some s) (sym e) has)
          ]
    ]

    -- the netlist that the two `setPort` leave
    abbrev put : Cell → String → Cell → String → Wire → Module → Module
    put input out_port output in_port w m =
        set_port output in_port (of_wire w) (set_port input out_port (of_wire w) m)

    pub put-wires :
        (input : Cell) (out_port : String) (output : Cell) (in_port : String) (w : Wire)
        (m : Module)
        → wires (put input out_port output in_port w m) ≡ wires m
    put-wires input out_port output in_port w m =
        laws.set_port-wires output in_port (of_wire w) _
        ∙ laws.set_port-wires input out_port (of_wire w) m

    pub added-OnBoth :
        (target : Wire) (input output : Cell) (out_port in_port name : String) (m : Module)
        → OnBoth target input out_port output in_port m
            (put input out_port output in_port
              (add_wire name (width target) (next_index m).1).0
              (add_wire name (width target) (next_index m).1).1)
            (add_wire name (width target) (next_index m).1).0
    added-OnBoth target input output out_port in_port name m =
        let m1 = (next_index m).1 in
        let (w, m2) = add_wire name (width target) m1 in
        record {
          new = λ at.
              laws.add_wire-new name (width target) m1
                (subst (In w) (sym (laws.next_index-wires m)) at);
          joined =
              subst (In w) (sym (put-wires input out_port output in_port w m2))
                ((laws.add_wire-wires name (width target) m1 w).1 (inr refl));
          wide = laws.width-new_wire name (width target) m1;
          driven =
              set_port-keeps output input in_port out_port (of_wire w) _
                (laws.signal_at-set_port input out_port (of_wire w) m2);
          read = laws.signal_at-set_port output in_port (of_wire w) _;
        }

    -- `reconnect` fails if the input has no output port on the target, or else if the output has no
    -- input port on it. Otherwise a wire that was not in the netlist, of the target's width, joins it
    -- and is on these two ports afterwards.
    pub reconnect-Reconnected :
        (target : Wire) (input output : Cell) (m : Module)
        → Reconnected target input output m
            (output_port target input m)
            (input_port target output m)
            (reconnect p target input output m)
    unfolding reconnect locate_input_port tamara_id
    reconnect-Reconnected target input output m = elim (Option-cases (output_port target input m)) [
      | inl missing ↦ rw (missing, reconnect) refl
      | inr (out_port, found) ↦ elim (Option-cases (input_port target output m)) [
        | inl missing ↦ rw (found, missing, reconnect) refl
        | inr (in_port, found') ↦
            rw (found, found', reconnect)
              (yields (_, added-OnBoth target input output out_port in_port _ m))
      ]
    ]
