-- ===== src/FixWalker/Walk.antt =====
-- The walk of a fix walker over a netlist: which objects it gets, one after the other.
use tamara.FixWalker.{FixWalker}
use tamara.Rtlil.Kernel.{wire, cell}
use tamara.Util.Connections.{Ptr}
use tamara.Util.Lookups.{rtlil_inverse_lookup}
use tamara.Common.{
  List, ◌≡◌, In, [], false, true, ◌++◌, ◌∷◌, false≢true, inl, ok, ◌↔◌, some, subst, sym, ◌⊎◌, arith,
  inr, length, ⊎_elim, ◌∙◌, refl, refuted,
}
use tamara.Rtlil.Platform.{Platform}

abbrev pub NoTwice : {A : Type 0} → List A → Type 0
NoTwice [] = Unit {0}
NoTwice (x ∷ xs) = (¬ In x xs) × NoTwice xs

module _ (p : Platform) (walker : FixWalker p) (connections : p.wire_map.Map) where
  open p use {kernel, ptr_set, wire_map}
  open kernel use {Wire, Cell, Module}

  -- From the processed objects and the netlist at the start: objects that were not processed before
  -- are given to the walker, a wire with the numbers of its drivers and readers.
  pub data Walk : ptr_set.Set → Module → List (Ptr p) → ptr_set.Set → Module → Type 0 where
    rest : {done : ptr_set.Set} {m : Module} → Walk done m [] done m
    on_cell :
        {done done' : ptr_set.Set} {m m' : Module} {xs : List (Ptr p)} (c : Cell) (m1 : Module)
        → ptr_set.contains done (cell c) ≡ false
        → walker.process_cell c m ≡ ok (tt, m1)
        → Walk (ptr_set.insert (cell c) done) m1 xs done' m'
        → Walk done m (cell c ∷ xs) done' m'
    on_wire :
        {done done' : ptr_set.Set} {m m' : Module} {xs : List (Ptr p)} (w : Wire)
        (readers : ptr_set.Set) (m1 : Module)
        → ptr_set.contains done (wire w) ≡ false
        → wire_map.find connections (wire w) ≡ some readers
        → walker.process_wire w
            (length (rtlil_inverse_lookup p connections w))
            (length (ptr_set.elements readers))
            connections
            m
          ≡ ok (tt, m1)
        → Walk (ptr_set.insert (wire w) done) m1 xs done' m'
        → Walk done m (wire w ∷ xs) done' m'

  pub Walk-append :
      {done done1 done' : ptr_set.Set} {m m1 m' : Module} {xs ys : List (Ptr p)}
      → Walk done m xs done1 m1
      → Walk done1 m1 ys done' m'
      → Walk done m (xs ++ ys) done' m'
  Walk-append rest more = more
  Walk-append (on_cell c m1 new step walk) more = on_cell c m1 new step (Walk-append walk more)
  Walk-append (on_wire w readers m1 new found step walk) more =
      on_wire w readers m1 new found step (Walk-append walk more)

  -- what a step adds to the processed objects
  done_first :
      (x y : Ptr p) (done done' : ptr_set.Set) (xs : List (Ptr p))
      → (ptr_set.contains done' y ≡ true)
        ↔ ((ptr_set.contains (ptr_set.insert x done) y ≡ true) ⊎ In y xs)
      → (ptr_set.contains done' y ≡ true) ↔ ((ptr_set.contains done y ≡ true) ⊎ In y (x ∷ xs))
  done_first x y done done' xs later = ground (arith, later, ptr_set.contains-insert x y done)

  pub Walk-done :
      {done done' : ptr_set.Set} {m m' : Module} {xs : List (Ptr p)}
      → Walk done m xs done' m'
      → (y : Ptr p)
      → (ptr_set.contains done' y ≡ true) ↔ ((ptr_set.contains done y ≡ true) ⊎ In y xs)
  Walk-done rest y = (inl, ⊎_elim (λ h. h) (λ z. absurd z))
  Walk-done (on_cell c m1 new step walk) y = done_first _ y _ _ _ (Walk-done walk y)
  Walk-done (on_wire w readers m1 new found step walk) y = done_first _ y _ _ _ (Walk-done walk y)

  first-new :
      (x y : Ptr p) (done : ptr_set.Set) (xs : List (Ptr p))
      → ptr_set.contains done x ≡ false
      → (In y xs → ptr_set.contains (ptr_set.insert x done) y ≡ false)
      → In y (x ∷ xs)
      → ptr_set.contains done y ≡ false
  first-new x y done xs new later (inl e) = subst (λ z. ptr_set.contains done z ≡ false) e new
  first-new x y done xs new later (inr at) =
      refuted (λ h. false≢true (sym (later at) ∙ (ptr_set.contains-insert x y done).1 (inr h)))

  Walk-new :
      {done done' : ptr_set.Set} {m m' : Module} {xs : List (Ptr p)}
      → Walk done m xs done' m'
      → (y : Ptr p) → In y xs
      → ptr_set.contains done y ≡ false
  Walk-new rest y at = absurd at
  Walk-new (on_cell c m1 new step walk) y at = first-new _ y _ _ new (Walk-new walk y) at
  Walk-new (on_wire w readers m1 new found step walk) y at =
      first-new _ y _ _ new (Walk-new walk y) at

  inserted-once :
      (x : Ptr p) (done done' : ptr_set.Set) (m m' : Module) (xs : List (Ptr p))
      → Walk (ptr_set.insert x done) m xs done' m'
      → ¬ In x xs
  inserted-once x done done' m m' xs walk at =
      false≢true (sym (Walk-new walk x at) ∙ (ptr_set.contains-insert x x done).1 (inl refl))

  pub Walk-NoTwice :
      {done done' : ptr_set.Set} {m m' : Module} {xs : List (Ptr p)}
      → Walk done m xs done' m'
      → NoTwice xs
  Walk-NoTwice rest = tt
  Walk-NoTwice (on_cell c m1 new step walk) =
      (inserted-once (cell c) _ _ _ _ _ walk, Walk-NoTwice walk)
  Walk-NoTwice (on_wire w readers m1 new found step walk) =
      (inserted-once (wire w) _ _ _ _ _ walk, Walk-NoTwice walk)
