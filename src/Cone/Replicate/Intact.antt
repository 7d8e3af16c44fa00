-- ===== src/Cone/Replicate/Intact.antt =====
-- `LogicCone::replicate` of src/logic_graph.cpp leaves the voters that are there intact, and makes
-- no replica that is a gate of one.
use tamara.Util.Connections.{Ptr}
use tamara.Cone.Node.{Node, is_io, null}
use tamara.Cone.Search.{LogicCone}
use tamara.Rtlil.Intact.Calls.{Keeps-annotation, Keeps-mark, copy_wire-Intact, copy_cell-Intact}
use tamara.Util.Names.{cone_annotation, original_annotation}
use tamara.Common.{
  ℕ, List, In, ◌∷◌, Bool-cases, IfOk, [], IfOk-weaken, inl, succeeds, ◌==◌, fails, subst, ⊎_elim,
  IfOk-seq, In-append, inr, refl, Error,
}
use tamara.Rtlil.Circuit.{Circuit}
use tamara.Rtlil.Gates.{Gates, Marks}
use tamara.Rtlil.Intact.{
  Keeps, Plain, Intact, IsTidy, Keeps-then, Intact-refl, Intact-trans, Keeps-require,
}
use tamara.Rtlil.Platform.{Platform}
use tamara.Cone.Replicate.{
  replicate, LogicCone, Node, Ptr, Replicas, annotate, replicate_cell, replicate_if_not_io,
  replicate_items, replicate_node, replicate_terminals, replicate_wire, push_replicas,
  cone_annotation, replicate_obj, original_annotation,
}
use tamara.Rtlil.Kernel.{wire, cell}

module _ (p : Platform) (s : Circuit p.kernel) (g : Gates p.kernel s) (marks : Marks p.kernel) where
  open p use {kernel}
  open kernel use {Wire, Cell, Module, has_attribute, copy_wire, copy_cell}

  abbrev pub AllPlain : List (Ptr p) → Type 0
  AllPlain xs = (x : Ptr p) → In x xs → Plain kernel s g marks x

  abbrev pub PlainNodes : List (Node p) → Type 0
  PlainNodes ns = (n : Node p) → In n ns → Plain kernel s g marks n.obj

  abbrev pub PlainReplicas : Replicas p → Type 0
  PlainReplicas replicas = (a : ℕ) → AllPlain (replicas a)

  abbrev Made : Module → List (Ptr p) → Module → Type 0
  Made m new m' = Intact kernel s g marks m m' × AllPlain new

  abbrev Given : Module → Replicas p → Module → Type 0
  Given m replicas m' = Intact kernel s g marks m m' × PlainReplicas replicas

  Keeps-annotate :
      (id : ℕ) (r1 r2 x : Ptr p)
      → Plain kernel s g marks r1
      → Plain kernel s g marks r2
      → Plain kernel s g marks x
      → Keeps kernel s g marks (annotate p id r1 r2 x)
  unfolding annotate
  Keeps-annotate id r1 r2 x plain1 plain2 plain =
      Keeps-then kernel s g marks _ _ (Keeps-annotation kernel s g marks r1 _ _ plain1) (
        Keeps-then kernel s g marks _ _ (Keeps-annotation kernel s g marks r2 _ _ plain2) (
          Keeps-then kernel s g marks _ _ (Keeps-annotation kernel s g marks x _ _ plain)
            (Keeps-mark kernel s g marks x original_annotation refl)))

  both_Plain :
      (x y : Ptr p) → Plain kernel s g marks x → Plain kernel s g marks y → AllPlain (x ∷ y ∷ [])
  both_Plain x y plain_x plain_y z (inl e) = subst (Plain kernel s g marks) e plain_x
  both_Plain x y plain_x plain_y z (inr (inl e)) = subst (Plain kernel s g marks) e plain_y
  both_Plain x y plain_x plain_y z (inr (inr at)) = absurd at

  replicate_cell-Made :
      (id : ℕ) (c : Cell) (m : Module)
      → Plain kernel s g marks (cell c)
      → IsTidy kernel s g marks m
      → IfOk (Made m) (replicate_cell p id c m)
  unfolding replicate_cell
  replicate_cell-Made id c m plain tidy =
      elim (Bool-cases (has_attribute m (cell c) cone_annotation)) [
        | inl done ↦
            rw (done, replicate_cell)
              (succeeds (Intact-refl kernel s g marks m tidy, λ x at. absurd at))
        | inr fresh ↦
            let (plain1, kept1) = copy_cell-Intact kernel s g marks _ c m plain tidy in
            let (plain2, kept2) = copy_cell-Intact kernel s g marks _ c _ plain kept1.tidy in
            rw (fresh, replicate_cell)
              (IfOk-seq ((Keeps-annotate id _ _ (cell c) plain1 plain2 plain).at _ kept2.tidy)
                (λ _ m' kept. succeeds (
                  Intact-trans kernel s g marks kept1 (Intact-trans kernel s g marks kept2 kept),
                  both_Plain _ _ plain1 plain2,
                )))
      ]

  replicate_wire-Made :
      (id : ℕ) (w : Wire) (m : Module)
      → IsTidy kernel s g marks m
      → IfOk (Made m) (replicate_wire p id w m)
  unfolding replicate_wire
  replicate_wire-Made id w m tidy = elim (Bool-cases (has_attribute m (wire w) cone_annotation)) [
    | inl done ↦
        rw (done, replicate_wire)
          (succeeds (Intact-refl kernel s g marks m tidy, λ x at. absurd at))
    | inr fresh ↦
        let kept1 = copy_wire-Intact kernel s g marks _ w m tidy in
        let kept2 = copy_wire-Intact kernel s g marks _ w _ kept1.tidy in
        rw (fresh, replicate_wire)
          (IfOk-seq ((Keeps-annotate id (wire _) (wire _) (wire w) tt tt tt).at _ kept2.tidy)
            (λ _ m' kept. succeeds (
              Intact-trans kernel s g marks kept1 (Intact-trans kernel s g marks kept2 kept),
              both_Plain (wire _) (wire _) tt tt,
            )))
  ]

  replicate_obj-Made :
      (id : ℕ) (x : Ptr p) (m : Module)
      → Plain kernel s g marks x
      → IsTidy kernel s g marks m
      → IfOk (Made m) (replicate_obj p id x m)
  replicate_obj-Made id (cell c) m plain tidy = replicate_cell-Made id c m plain tidy
  replicate_obj-Made id (wire w) m plain tidy = replicate_wire-Made id w m tidy

  replicate_node-Made :
      (n : Node p) (m : Module)
      → Plain kernel s g marks n.obj
      → IsTidy kernel s g marks m
      → IfOk (Made m) (replicate_node p n m)
  unfolding replicate_node
  replicate_node-Made n m plain tidy = elim (Bool-cases (is_io n.kind)) [
    | inl io ↦ rw (io, replicate_node) fails
    | inr other ↦ rw (other, replicate_node) (replicate_obj-Made n.cone_id n.obj m plain tidy)
  ]

  pushed_Plain :
      (address : ℕ) (new : List (Ptr p)) (old : Replicas p)
      → AllPlain new
      → PlainReplicas old
      → PlainReplicas (push_replicas p address new old)
  pushed_Plain address new old plain_new plain_old a = elim (Bool-cases (a == address)) [
    | inl here ↦
        rw here (λ x at. ⊎_elim (plain_old a x) (plain_new x) ((In-append x (old a) new).0 at))
    | inr other ↦ rw other (plain_old a)
  ]

  node_Given :
      (n : Node p) (old : Replicas p) (m : Module)
      → Plain kernel s g marks n.obj
      → PlainReplicas old
      → IsTidy kernel s g marks m
      → IfOk (λ new m'. Given m (push_replicas p n.address new old) m') (replicate_node p n m)
  node_Given n old m plain plain_old tidy =
      IfOk-weaken (replicate_node-Made n m plain tidy)
        (λ new m' (kept, plain_new). (kept, pushed_Plain n.address new old plain_new plain_old))

  replicate_items-Given :
      (ns : List (Node p)) (old : Replicas p) (m : Module)
      → PlainNodes ns
      → PlainReplicas old
      → IsTidy kernel s g marks m
      → IfOk (Given m) (replicate_items p ns old m)
  unfolding replicate_items
  replicate_items-Given [] old m plain plain_old tidy =
      succeeds (Intact-refl kernel s g marks m tidy, plain_old)
  replicate_items-Given (n ∷ ns) old m plain plain_old tidy =
      IfOk-seq (node_Given n old m (plain n (inl refl)) plain_old tidy) (λ new m1 (kept, plain_new).
        IfOk-weaken (replicate_items-Given ns _ m1 (λ x at. plain x (inr at)) plain_new kept.tidy)
          (λ r m' (more, given). (Intact-trans kernel s g marks kept more, given)))

  replicate_if_not_io-Given :
      (n : Node p) (old : Replicas p) (m : Module)
      → Plain kernel s g marks n.obj
      → PlainReplicas old
      → IsTidy kernel s g marks m
      → IfOk (Given m) (replicate_if_not_io p n old m)
  unfolding replicate_if_not_io
  replicate_if_not_io-Given n old m plain plain_old tidy = elim (Bool-cases (is_io n.kind)) [
    | inl io ↦
        rw (io, replicate_if_not_io) (succeeds (Intact-refl kernel s g marks m tidy, plain_old))
    | inr other ↦
        rw (other, replicate_if_not_io)
          (IfOk-seq (node_Given n old m plain plain_old tidy) (λ new m' given. succeeds given))
  ]

  replicate_terminals-Given :
      (ns : List (Node p)) (old : Replicas p) (m : Module)
      → PlainNodes ns
      → PlainReplicas old
      → IsTidy kernel s g marks m
      → IfOk (Given m) (replicate_terminals p ns old m)
  unfolding replicate_terminals
  replicate_terminals-Given [] old m plain plain_old tidy =
      succeeds (Intact-refl kernel s g marks m tidy, plain_old)
  replicate_terminals-Given (n ∷ ns) old m plain plain_old tidy =
      IfOk-seq (replicate_if_not_io-Given n old m (plain n (inl refl)) plain_old tidy)
        (λ mid m1 (kept, plain_mid).
          IfOk-weaken
            (replicate_terminals-Given ns mid m1 (λ x at. plain x (inr at)) plain_mid kept.tidy)
            (λ r m' (more, given). (Intact-trans kernel s g marks kept more, given)))

  pub replicate-Given :
      (c : LogicCone p) (old : Replicas p) (m : Module)
      → PlainNodes c.cone
      → PlainNodes c.input_nodes
      → Plain kernel s g marks c.output_node.obj
      → PlainReplicas old
      → IsTidy kernel s g marks m
      → IfOk (Given m) (replicate p c old m)
  unfolding replicate
  replicate-Given c old m plain_cone plain_inputs plain_output plain_old tidy =
      elim (Bool-cases (null c.cone)) [
        | inl empty ↦
            rw (empty, replicate) (succeeds (Intact-refl kernel s g marks m tidy, plain_old))
        | inr elements ↦
            rw (elements, replicate)
              (IfOk-seq
                ((Keeps-require kernel s g marks (null c.frontier) Error.search_unfinished).at m
                  tidy)
                (λ _ m0 kept0.
                  IfOk-seq (replicate_items-Given c.cone old m0 plain_cone plain_old kept0.tidy)
                    (λ r1 m1 (kept1, plain1).
                      IfOk-seq
                        (replicate_terminals-Given c.input_nodes r1 m1 plain_inputs plain1
                          kept1.tidy)
                        (λ r2 m2 (kept2, plain2).
                          IfOk-weaken
                            (replicate_if_not_io-Given c.output_node r2 m2 plain_output plain2
                              kept2.tidy)
                            (λ r m' (kept3, plain3). (
                              Intact-trans kernel s g marks kept0 (
                                  Intact-trans kernel s g marks kept1
                                    (Intact-trans kernel s g marks kept2 kept3)),
                              plain3,
                            ))))))
      ]
