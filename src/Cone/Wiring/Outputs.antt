-- ===== src/Cone/Wiring/Outputs.antt =====
-- `extractReplicaWire` against the list of a cell's output ports.
use tamara.Cone.Wiring.{extract_replica_wire, replace_output, replace_outputs, cell, tamara_id}
use tamara.Rtlil.Kernel.{cell}
use tamara.Util.Names.{tamara_id}
use tamara.Common.{
  List, Option, String, Bool, M, and_then, some, err, none, ok, some_or, ◌≡◌, Error, select, ◌∷◌,
  Bool-cases, [], inl, inr, refl, ap, ◌∙◌, List-cases,
}
use tamara.Rtlil.Platform.{Platform}

module _ (p : Platform) where
  open p use {kernel}
  open kernel use {Wire, Cell, SigSpec, Module, cell_name, cell_type, cell_output, cell_connections}

  abbrev pub is_output : Cell → String × SigSpec → Bool
  is_output c port = cell_output (cell_type c) port.0

  -- the only output is redirected to a fresh wire
  abbrev pub redirect_only : Cell → List (String × SigSpec) → M Module Wire
  redirect_only c [] m = err (Error.no_output_wire (cell_name c))
  redirect_only c ((port, signal) ∷ []) m = replace_output p c port signal m
  redirect_only c (_ ∷ _ ∷ _) m = err (Error.multiple_outputs (cell_name c))

  abbrev found_before : Cell → Wire → List (String × SigSpec) → M Module (Option Wire)
  found_before c w [] m = ok (some w, m)
  found_before c w (_ ∷ _) m = err (Error.multiple_outputs (cell_name c))

  replace_outputs-some :
      (c : Cell) (ports : List (String × SigSpec)) (w : Wire) (m : Module)
      → replace_outputs p c ports (some w) m ≡ found_before c w (select (is_output c) ports) m
  unfolding replace_outputs
  replace_outputs-some c [] w m = refl
  replace_outputs-some c ((port, signal) ∷ ports) w m =
      elim (Bool-cases (is_output c (port, signal))) [
        | inl output ↦ rw (output, replace_outputs, select) refl
        | inr other ↦ rw (other, replace_outputs, select) (replace_outputs-some c ports w m)
      ]

  finish_outputs : Cell → Option Wire → M Module Wire
  finish_outputs c out m = some_or out (Error.no_output_wire (cell_name c)) m

  then_redirected :
      (c : Cell) (port : String) (signal : SigSpec) (ports : List (String × SigSpec)) (m : Module)
      → and_then
          (and_then
            (replace_output p c port signal m)
            (λ w m. replace_outputs p c ports (some w) m))
          (finish_outputs c)
        ≡ redirect_only c ((port, signal) ∷ select (is_output c) ports) m
  unfolding replace_output finish_outputs tamara_id
  then_redirected c port signal ports m =
      ap (λ r. and_then r (finish_outputs c)) (replace_outputs-some c ports _ _)
      ∙ elim (List-cases (select (is_output c) ports)) [
        | inl none_left ↦ rw none_left refl
        | inr (a, rest, more) ↦ rw more refl
      ]

  replace_outputs-none :
      (c : Cell) (ports : List (String × SigSpec)) (m : Module)
      → and_then (replace_outputs p c ports none m) (finish_outputs c)
        ≡ redirect_only c (select (is_output c) ports) m
  unfolding replace_outputs finish_outputs
  replace_outputs-none c [] m = refl
  replace_outputs-none c ((port, signal) ∷ ports) m =
      elim (Bool-cases (is_output c (port, signal))) [
        | inl output ↦ rw (output, replace_outputs, select) (then_redirected c port signal ports m)
        | inr other ↦ rw (other, replace_outputs, select) (replace_outputs-none c ports m)
      ]

  -- the call on a cell, by the list of its output ports
  pub extract_replica_wire-only :
      (c : Cell) (m : Module)
      → extract_replica_wire p (cell c) m
        ≡ redirect_only c
            (select (λ port. cell_output (cell_type c) port.0) (cell_connections m c))
            m
  unfolding extract_replica_wire finish_outputs
  extract_replica_wire-only c m = replace_outputs-none c (cell_connections m c) m
