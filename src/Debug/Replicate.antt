-- ===== src/Debug/Replicate.antt =====
-- The task replicateNot ends in an error.
use text.Mathlib.TextEquality.{eq_iff}
use tamara.Cone.Replicate.{replicate_cell}
use tamara.Debug.{find_not, replicate_not, new_logic_cone}
use tamara.Util.Connections.{is_dff}
use tamara.Cone.Successors.{new_logic_cone, Globals}
use tamara.Common.{
  List, ◌≡◌, false, some, Option, refl, ◌∷◌, Bool-cases, Error, err, str_eq, Option-cases, inl, inr,
  [], none, Result-cases, ap, some_unique, ◌∙◌, sym,
}
use tamara.Rtlil.Platform.{Platform}

module _ (p : Platform) where
  open p use {kernel}
  open kernel use {Cell, Module, cell_type, cells}

  find_not-type : (cs : List Cell) (c : Cell) → find_not p cs ≡ some c → cell_type c ≡ "$logic_not"
  unfolding find_not
  find_not-type [] c h = cc
  find_not-type (d ∷ cs) c h = elim (Bool-cases (str_eq (cell_type d) "$logic_not")) [
    | inl hit ↦
        let same = rw (hit, find_not) at h in
        let type = (eq_iff (cell_type d) "$logic_not").0 hit in
        ap cell_type (some_unique (some c) refl (sym same)) ∙ type
    | inr miss ↦ find_not-type cs c (rw (miss, find_not) at h)
  ]

  not_gate-is_dff : (c : Cell) → cell_type c ≡ "$logic_not" → is_dff kernel c ≡ false
  unfolding is_dff
  not_gate-is_dff c type = rw type refl

  -- The task replicateNot fails on every design: it makes a logic cone of the inverter that it
  -- found, and a cone of a cell starts at flip flops only.
  pub replicate_not-Fails :
      (g : Globals p) (top : Option Module) → (e : Error) × (replicate_not p g top ≡ err e)
  unfolding replicate_not new_logic_cone
  replicate_not-Fails g none = (_, refl)
  replicate_not-Fails g (some top) = elim (Option-cases (find_not p (cells top))) [
    | inl missing ↦ rw (missing, replicate_not) (_, refl)
    | inr (c, found) ↦
        rw (found, not_gate-is_dff c (find_not-type (cells top) c found), replicate_not)
          (elim (Result-cases (replicate_cell p 0 c top)) [
            | inl ((replicas, m), done) ↦ rw done (_, refl)
            | inr (e, failed) ↦ rw failed (_, refl)
          ])
  ]
