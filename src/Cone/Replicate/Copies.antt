-- ===== src/Cone/Replicate/Copies.antt =====
-- The replicas of one node, on every branch.
use text.Mathlib.TextEquality.{eq_iff}
use text.Mathlib.TextLemmas.{append_cancel_left, append_cancel_right}
use tamara.Cone.Replicate.{
  replicate_node, replica_name, Node, annotate, replicate_cell, Ptr, replicate_wire, replicate_obj,
}
use tamara.Util.Names.{cone_annotation, original_annotation, to_string}
use tamara.Rtlil.Kernel.{cell, wire}
use tamara.Rtlil.Attributes.{Attributes, Copies, Has}
use tamara.Cone.Node.{Node, get_node_name, is_io}
use tamara.Util.Connections.{Ptr, get_rtlil_name}
use tamara.Common.{
  List, Bool, Result, ◌≡◌, err, false, ◌∷◌, Error, Yields, [], and_then, ok, true, yields, refl,
  String, subst, ℕ, ◌≢◌, Bool-cases, sym, ◌∙◌, ap, inl, inr, str_append, false≢true,
}
use tamara.Rtlil.Platform.{Platform}

module _ (p : Platform) (laws : Attributes p.kernel) (copies : Copies p.kernel) where
  open p use {kernel}
  open kernel use {Wire, Cell, Module, has_attribute, copy_wire, copy_cell}

  -- Two different replicas, by their names, with the annotation of the cone on both and on the
  -- original, which is marked as such.
  pub record Twins (n : Node p) (new : List (Ptr p)) (m' : Module) : Type 0 where
    pub replica1 : Ptr p
    pub replica2 : Ptr p
    pub both : new ≡ replica1 ∷ replica2 ∷ []
    pub name1 : get_rtlil_name p replica1 ≡ replica_name p (get_node_name p n) "1" n.cone_id
    pub name2 : get_rtlil_name p replica2 ≡ replica_name p (get_node_name p n) "2" n.cone_id
    pub apart : replica1 ≢ replica2
    pub annotated1 : Has kernel m' replica1 cone_annotation
    pub annotated2 : Has kernel m' replica2 cone_annotation
    pub annotated : Has kernel m' n.obj cone_annotation
    pub marked : Has kernel m' n.obj original_annotation

  -- an IO is refused, an annotated object is passed over, and any other gets two replicas
  abbrev pub Replicates : Node p → Module → Bool → Bool → Result (List (Ptr p) × Module) → Type 0
  Replicates n m true _ r = r ≡ err Error.replicated_io
  Replicates n m false true r = r ≡ ok ([], m)
  Replicates n m false false r = Yields (Twins n) r

  names-differ :
      (name : String) (id : ℕ) (r1 r2 : Ptr p)
      → get_rtlil_name p r1 ≡ replica_name p name "1" id
      → get_rtlil_name p r2 ≡ replica_name p name "2" id
      → r1 ≢ r2
  names-differ name id r1 r2 named1 named2 same =
      let names = sym named1 ∙ ap (get_rtlil_name p) same ∙ named2 in
      let numbers =
        append_cancel_left name "$replica1" "$replica2"
          (append_cancel_right _ _ (str_append "_cone" (to_string id)) names) in
      absurd (false≢true ((eq_iff "$replica1" "$replica2").1 numbers))

  annotate-Twins :
      (n : Node p) (r1 r2 : Ptr p) (m : Module)
      → get_rtlil_name p r1 ≡ replica_name p (get_node_name p n) "1" n.cone_id
      → get_rtlil_name p r2 ≡ replica_name p (get_node_name p n) "2" n.cone_id
      → Yields
          (Twins n)
          (and_then (annotate p n.cone_id r1 r2 n.obj m) (λ _ m'. ok (r1 ∷ r2 ∷ [], m')))
  unfolding annotate
  annotate-Twins n r1 r2 m named1 named2 =
      let id = to_string n.cone_id in
      let mark = laws.set_bool_attribute-keeps n.obj original_annotation in
      let keep = λ (x y : Ptr p) (m : Module).
        laws.set_string_attribute-keeps x cone_annotation id m y cone_annotation in
      yields (record {
        replica1 = r1;
        replica2 = r2;
        both = refl;
        name1 = named1;
        name2 = named2;
        apart = names-differ (get_node_name p n) n.cone_id r1 r2 named1 named2;
        annotated1 = mark _ r1 cone_annotation (
            keep n.obj r1 _ (keep r2 r1 _ (laws.set_string_attribute-Has r1 cone_annotation id m)));
        annotated2 =
            mark _ r2 cone_annotation
              (keep n.obj r2 _ (laws.set_string_attribute-Has r2 cone_annotation id _));
        annotated =
            mark _ n.obj cone_annotation (laws.set_string_attribute-Has n.obj cone_annotation id _);
        marked = laws.set_bool_attribute-Has n.obj original_annotation _;
      })

  abbrev twin_name : Node p → String → Ptr p → String
  twin_name n number x = replica_name p (get_rtlil_name p x) number n.cone_id

  -- the annotation at another spelling of the node's object
  annotated-Twins :
      (n : Node p) (x r1 r2 : Ptr p) (m : Module)
      → n.obj ≡ x
      → get_rtlil_name p r1 ≡ twin_name n "1" x
      → get_rtlil_name p r2 ≡ twin_name n "2" x
      → Yields (Twins n) (and_then (annotate p n.cone_id r1 r2 x m) (λ _ m'. ok (r1 ∷ r2 ∷ [], m')))
  annotated-Twins n x r1 r2 m is named1 named2 =
      subst
        (λ x.
          Yields (Twins n)
            (and_then (annotate p n.cone_id r1 r2 x m) (λ _ m'. ok (r1 ∷ r2 ∷ [], m'))))
        is
        (annotate-Twins n r1 r2 m (named1 ∙ ap (twin_name n "1") (sym is))
          (named2 ∙ ap (twin_name n "2") (sym is)))

  replicate_obj-Twins :
      (n : Node p) (x : Ptr p) (m : Module)
      → n.obj ≡ x
      → has_attribute m x cone_annotation ≡ false
      → Yields (Twins n) (replicate_obj p n.cone_id x m)
  unfolding replicate_cell replicate_wire
  replicate_obj-Twins n (cell c) m is fresh =
      rw (fresh, replicate_cell)
        (annotated-Twins n (cell c) _ _ _ is (copies.copy_cell-name _ c m)
          (copies.copy_cell-name _ c _))
  replicate_obj-Twins n (wire w) m is fresh =
      rw (fresh, replicate_wire)
        (annotated-Twins n (wire w) _ _ _ is (copies.copy_wire-name _ w m)
          (copies.copy_wire-name _ w _))

  replicate_obj-annotated :
      (id : ℕ) (x : Ptr p) (m : Module)
      → has_attribute m x cone_annotation ≡ true
      → replicate_obj p id x m ≡ ok ([], m)
  unfolding replicate_cell replicate_wire
  replicate_obj-annotated id (cell c) m done = rw (done, replicate_cell) refl
  replicate_obj-annotated id (wire w) m done = rw (done, replicate_wire) refl

  -- `replicate_node` fails on an IO. On an object with a cone annotation it makes no replicas and
  -- leaves the netlist as it is. Any other object gets two different replicas with the names
  -- `name$replica1_coneN` and `name$replica2_coneN`; they and the original have the cone
  -- annotation, and the original is marked.
  pub replicate_node-Replicates :
      (n : Node p) (m : Module)
      → Replicates n m (is_io n.kind) (has_attribute m n.obj cone_annotation) (replicate_node p n m)
  unfolding replicate_node
  replicate_node-Replicates n m = elim (Bool-cases (is_io n.kind)) [
    | inl io ↦ rw (io, replicate_node) refl
    | inr element ↦ elim (Bool-cases (has_attribute m n.obj cone_annotation)) [
      | inl done ↦
          rw (element, done, replicate_node) (replicate_obj-annotated n.cone_id n.obj m done)
      | inr fresh ↦ rw (element, fresh, replicate_node) (replicate_obj-Twins n n.obj m refl fresh)
    ]
  ]
