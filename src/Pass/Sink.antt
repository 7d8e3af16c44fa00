-- ===== src/Pass/Sink.antt =====
-- `locateErrorSink` against the list of the wires that are marked.
use tamara.Pass.{locate_error_sink, sink_among, wire, error_sink_annotation}
use tamara.Rtlil.Kernel.{wire}
use tamara.Util.Names.{error_sink_annotation}
use tamara.Common.{
  List, Result, Bool, Option, none, ok, some, ◌≡◌, select, ◌∷◌, Bool-cases, err, Error, inl, [],
  inr, refl, ◌∙◌,
}
use tamara.Rtlil.Platform.{Platform}

module _ (p : Platform) where
  open p use {kernel}
  open kernel use {Wire, Module, wire_name, wires, has_attribute}

  abbrev is_marked : Module → Wire → Bool
  is_marked m w = has_attribute m (wire w) error_sink_annotation

  -- none, the only one, or an error that names the second
  abbrev pub only_sink : List Wire → Result (Option Wire)
  only_sink [] = ok none
  only_sink (w ∷ []) = ok (some w)
  only_sink (w ∷ second ∷ more) = err (Error.duplicate_error_sink (wire_name second))

  abbrev second_sink : Wire → List Wire → Result (Option Wire)
  second_sink sink [] = ok (some sink)
  second_sink sink (w ∷ more) = err (Error.duplicate_error_sink (wire_name w))

  second-only : (w : Wire) (ws : List Wire) → second_sink w ws ≡ only_sink (w ∷ ws)
  second-only w [] = refl
  second-only w (second ∷ more) = refl

  sink_among-some :
      (m : Module) (ws : List Wire) (sink : Wire)
      → sink_among p m ws (some sink) ≡ second_sink sink (select (is_marked m) ws)
  unfolding sink_among
  sink_among-some m [] sink = refl
  sink_among-some m (w ∷ ws) sink = elim (Bool-cases (is_marked m w)) [
    | inl marked ↦ rw (marked, sink_among, select) refl
    | inr plain ↦ rw (plain, sink_among, select) (sink_among-some m ws sink)
  ]

  sink_among-none :
      (m : Module) (ws : List Wire) → sink_among p m ws none ≡ only_sink (select (is_marked m) ws)
  unfolding sink_among
  sink_among-none m [] = refl
  sink_among-none m (w ∷ ws) = elim (Bool-cases (is_marked m w)) [
    | inl marked ↦
        rw (marked, sink_among, select)
          (sink_among-some m ws w ∙ second-only w (select (is_marked m) ws))
    | inr plain ↦ rw (plain, sink_among, select) (sink_among-none m ws)
  ]

  -- The error sink is the only marked wire of the module. Without one there is no sink, and with
  -- two the command fails and names the second.
  pub locate_error_sink-only :
      (m : Module)
      → locate_error_sink p m
        ≡ only_sink (select (λ w. has_attribute m (wire w) error_sink_annotation) (wires m))
  unfolding locate_error_sink
  locate_error_sink-only m = sink_among-none m (wires m)
