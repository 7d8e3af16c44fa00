-- ===== src/Cone/Replicate/Marks.antt =====
-- What `LogicCone::replicate` marks, and which nodes it gives no replicas.
use tamara.Cone.Node.{Node, is_io}
use tamara.Util.Connections.{Ptr}
use tamara.Cone.Replicate.{
  Replicas, annotate, replicate_cell, cone_annotation, cell, replicate_obj, replicate_wire,
  to_string, original_annotation, push_replicas, wire, replicate_if_not_io, replicate_items,
  replicate_node, replicate_terminals,
}
use tamara.Util.Names.{cone_annotation, to_string, original_annotation}
use tamara.Rtlil.Kernel.{cell, wire}
use tamara.Common.{
  List, In, String, ℕ, ◌≡◌, Yields, [], false, yields, Bool-cases, inl, inr, refl, seq, ◌++◌, ◌∷◌,
  false≢true, ⊎_elim, In-append, subst, sym, ◌∙◌, true, ◌==◌, ap, same→eq, weaken, append_nil,
}
use tamara.Rtlil.Attributes.{Attributes, Has}
use tamara.Rtlil.Platform.{Platform}

module _ (p : Platform) (laws : Attributes p.kernel) where
  open p use {kernel}
  open kernel use {Wire, Cell, Module, has_attribute, copy_wire, copy_cell}

  abbrev pub HasCone : Module → Ptr p → Type 0
  HasCone m x = Has kernel m x cone_annotation

  abbrev pub Keeps : Module → Module → Type 0
  Keeps m m' = (x : Ptr p) (name : String) → Has kernel m x name → Has kernel m' x name

  -- `ns` were replicated between `m` and `m'`
  pub record Replicated (m m' : Module) (ns : List (Node p)) (old new : Replicas p) : Type 0 where
    pub keeps : Keeps m m'
    pub marked : (n : Node p) → In n ns → is_io n.kind ≡ false → HasCone m' n.obj
    pub untouched :
        (a : ℕ)
        → ((n : Node p) → In n ns → is_io n.kind ≡ false → n.address ≡ a → HasCone m n.obj)
        → new a ≡ old a

  abbrev Made : Module → Ptr p → List (Ptr p) → Module → Type 0
  Made m x new m' = Keeps m m' × HasCone m' x × (HasCone m x → new ≡ [])

  annotate-Yields :
      (id : ℕ) (r1 r2 x : Ptr p) (m : Module)
      → Yields (λ _ m'. Keeps m m' × HasCone m' x) (annotate p id r1 r2 x m)
  unfolding annotate
  annotate-Yields id r1 r2 x m =
      let keep = λ (y z : Ptr p) (m : Module).
        laws.set_string_attribute-keeps y cone_annotation (to_string id) m z in
      yields (
        λ y name h.
            laws.set_bool_attribute-keeps x original_annotation _ y name
              (keep x y _ name (keep r2 y _ name (keep r1 y m name h))),
        laws.set_bool_attribute-keeps x original_annotation _ x cone_annotation
            (laws.set_string_attribute-Has x cone_annotation (to_string id) _),
      )

  replicate_cell-Yields :
      (id : ℕ) (c : Cell) (m : Module) → Yields (Made m (cell c)) (replicate_cell p id c m)
  unfolding replicate_cell
  replicate_cell-Yields id c m = elim (Bool-cases (has_attribute m (cell c) cone_annotation)) [
    | inl done ↦ rw (done, replicate_cell) (yields (λ x name h. h, done, λ _. refl))
    | inr fresh ↦
        rw (fresh, replicate_cell)
          (seq (annotate-Yields id _ _ (cell c) _) (λ _ m' (kept, has). yields (
            λ x name h.
                kept x name
                  (laws.copy_cell-keeps _ c _ x name (laws.copy_cell-keeps _ c m x name h)),
            has,
            λ already. absurd (false≢true (sym fresh ∙ already)),
          )))
  ]

  replicate_wire-Yields :
      (id : ℕ) (w : Wire) (m : Module) → Yields (Made m (wire w)) (replicate_wire p id w m)
  unfolding replicate_wire
  replicate_wire-Yields id w m = elim (Bool-cases (has_attribute m (wire w) cone_annotation)) [
    | inl done ↦ rw (done, replicate_wire) (yields (λ x name h. h, done, λ _. refl))
    | inr fresh ↦
        rw (fresh, replicate_wire)
          (seq (annotate-Yields id _ _ (wire w) _) (λ _ m' (kept, has). yields (
            λ x name h.
                kept x name
                  (laws.copy_wire-keeps _ w _ x name (laws.copy_wire-keeps _ w m x name h)),
            has,
            λ already. absurd (false≢true (sym fresh ∙ already)),
          )))
  ]

  replicate_obj-Yields :
      (id : ℕ) (x : Ptr p) (m : Module) → Yields (Made m x) (replicate_obj p id x m)
  replicate_obj-Yields id (cell c) m = replicate_cell-Yields id c m
  replicate_obj-Yields id (wire w) m = replicate_wire-Yields id w m

  -- `push_replicas` of nothing, or at another address
  pushed-none :
      (address a : ℕ) (old : Replicas p) (new : List (Ptr p))
      → (address ≡ a → new ≡ [])
      → push_replicas p address new old a ≡ old a
  pushed-none address a old new none_new = elim (Bool-cases (a == address)) [
    | inl here ↦ rw (here, none_new (same→eq a address here)) (append_nil (old a))
    | inr other ↦ rw other refl
  ]

  -- one node, and then more
  pushed-Replicated :
      (m m' : Module) (n : Node p) (old : Replicas p) (new : List (Ptr p))
      → Made m n.obj new m'
      → is_io n.kind ≡ false
      → Replicated m m' (n ∷ []) old (push_replicas p n.address new old)
  pushed-Replicated m m' n old new (keeps, has, none_new) not_io = record {
    keeps = keeps;
    marked = λ k at _. ⊎_elim (λ e. subst (λ k. HasCone m' k.obj) e has) (λ z. absurd z) at;
    untouched =
        λ a before. pushed-none n.address a old new (λ e. none_new (before n (inl refl) not_io e));
  }

  pub then-Replicated :
      {m m' m'' : Module} {ns ks : List (Node p)} {r r' r'' : Replicas p}
      → Replicated m m' ns r r'
      → Replicated m' m'' ks r' r''
      → Replicated m m'' (ns ++ ks) r r''
  then-Replicated {ns = ns} {ks = ks} one two = record {
    keeps = λ x name h. two.keeps x name (one.keeps x name h);
    marked = λ n at not_io.
        ⊎_elim (λ first. two.keeps n.obj cone_annotation (one.marked n first not_io))
          (λ later. two.marked n later not_io) ((In-append n ns ks).0 at);
    untouched = λ a before.
        two.untouched a (λ n at not_io e.
          one.keeps n.obj cone_annotation (before n ((In-append n ns ks).1 (inr at)) not_io e))
        ∙ one.untouched a (λ n at not_io e. before n ((In-append n ns ks).1 (inl at)) not_io e);
  }

  skipped-Replicated :
      (m : Module) (ns : List (Node p)) (r : Replicas p)
      → ((n : Node p) → In n ns → is_io n.kind ≡ true)
      → Replicated m m ns r r
  skipped-Replicated m ns r all_io = record {
    keeps = λ x name h. h;
    marked = λ n at not_io. absurd (false≢true (sym not_io ∙ all_io n at));
    untouched = λ a before. refl;
  }

  -- the step of both loops: a node that is no IO
  node-Yields :
      (n : Node p) (r : Replicas p) (m : Module)
      → is_io n.kind ≡ false
      → Yields
          (λ new m'. Replicated m m' (n ∷ []) r (push_replicas p n.address new r))
          (replicate_node p n m)
  unfolding replicate_node
  node-Yields n r m not_io =
      rw (not_io, replicate_node)
        (weaken (replicate_obj-Yields n.cone_id n.obj m)
          (λ new m' made. pushed-Replicated m m' n r new made not_io))

  pub items-Yields :
      (ns : List (Node p)) (r : Replicas p) (m : Module)
      → ((n : Node p) → In n ns → is_io n.kind ≡ false)
      → Yields (λ r' m'. Replicated m m' ns r r') (replicate_items p ns r m)
  unfolding replicate_items
  items-Yields [] r m no_io = yields (skipped-Replicated m [] r (λ n at. absurd at))
  items-Yields (n ∷ ns) r m no_io = seq (node-Yields n r m (no_io n (inl refl))) (λ new m' one.
      weaken (items-Yields ns (push_replicas p n.address new r) m' (λ k at. no_io k (inr at)))
        (λ r' m'' rest. then-Replicated one rest))

  pub if_not_io-Yields :
      (n : Node p) (r : Replicas p) (m : Module)
      → Yields (λ r' m'. Replicated m m' (n ∷ []) r r') (replicate_if_not_io p n r m)
  unfolding replicate_if_not_io
  if_not_io-Yields n r m = elim (Bool-cases (is_io n.kind)) [
    | inl is ↦
        rw (is, replicate_if_not_io)
          (yields (
            skipped-Replicated m (n ∷ []) r
              (λ k at. ⊎_elim (λ e. ap (λ k. is_io k.kind) (sym e) ∙ is) (λ z. absurd z) at)))
    | inr not_io ↦
        rw (not_io, replicate_if_not_io) (seq (node-Yields n r m not_io) (λ new m' one. yields one))
  ]

  pub terminals-Yields :
      (ns : List (Node p)) (r : Replicas p) (m : Module)
      → Yields (λ r' m'. Replicated m m' ns r r') (replicate_terminals p ns r m)
  unfolding replicate_terminals
  terminals-Yields [] r m = yields (skipped-Replicated m [] r (λ n at. absurd at))
  terminals-Yields (n ∷ ns) r m =
      seq (if_not_io-Yields n r m)
        (λ r' m' one. weaken (terminals-Yields ns r' m') (λ r'' m'' rest. then-Replicated one rest))
