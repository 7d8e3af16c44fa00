-- ===== src/Cone/Search/Rule.antt =====
-- The rule of the loop of `LogicCone::search`: what each round keeps holds when the loop ends.
use tamara.Cone.Search.{State, consider, search_loop, Node}
use tamara.Cone.Search.Round.{consider-first}
use tamara.Cone.Node.{Node}
use tamara.Common.{
  ℕ, zero, suc, ◌≡◌, List, [], false, ok, ◌∷◌, List-cases, subst, inl, ok_injective, inr, err≢ok,
  Result,
}
use tamara.Rtlil.Platform.{Platform}

module _ (p : Platform) (connections : p.wire_map.Map) (P : State p → Type 0) where
  -- after the first round
  abbrev pub Kept : Type 0
  Kept =
      (s : State p) (node : Node p) (rest : List (Node p))
      → s.first ≡ false
      → s.frontier ≡ node ∷ rest
      → P s
      → P (consider p connections (record s { frontier = rest }) node)

  stops : (s t : State p) → s.frontier ≡ [] → P s → Result.ok s ≡ ok t → P t × (t.frontier ≡ [])
  stops s t empty holds e = subst (λ t. P t × (t.frontier ≡ [])) (ok_injective e) (holds, empty)

  pub search_loop-Kept :
      Kept
      → (fuel : ℕ) (s t : State p) → s.first ≡ false
      → P s
      → search_loop p connections fuel s ≡ ok t
      → P t × (t.frontier ≡ [])
  unfolding search_loop
  search_loop-Kept step zero s t later holds h = elim (List-cases s.frontier) [
    | inl empty ↦ stops s t empty holds (rw (empty, search_loop) at h)
    | inr (node, rest, e) ↦ absurd (err≢ok (rw (e, search_loop) at h))
  ]
  search_loop-Kept step (suc fuel) s t later holds h = elim (List-cases s.frontier) [
    | inl empty ↦ stops s t empty holds (rw (empty, search_loop) at h)
    | inr (node, rest, e) ↦
        let popped : State p = record s { frontier = rest } in
        search_loop-Kept step fuel (consider p connections popped node) t
          (consider-first p connections popped node) (step s node rest later e holds)
          (rw (e, search_loop) at h)
  ]
