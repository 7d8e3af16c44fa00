-- ===== src/FixWalker/Once.antt =====
-- The loops of `FixWalkerManager::execute` against the walk.
use tamara.FixWalker.{
  FixWalker, visit_wire, visit_ports, visit_cells, visit_wires, run_walker, wire_at,
}
use tamara.FixWalker.Walk.{
  Walk, NoTwice, Walk-append, Walk-done, Walk-NoTwice, rest, on_cell, on_wire,
}
use tamara.Rtlil.Kernel.{wire, cell}
use tamara.Rtlil.Ports.{signal_at}
use tamara.Util.Connections.{Ptr}
use tamara.Common.{
  List, ◌≡◌, IfOk, In, Result, String, inl, some, true, ◌∷◌, Bool-cases, M, succeeds, ⊎_elim,
  Option-cases, [], and_then, subst, IfOk-seq, inr, IfOk-itself, IfOk-weaken, refl, ◌++◌, map, ok,
  IfOk-at, false≢true, ◌↔◌, sym, ◌∙◌,
}
use tamara.Rtlil.Platform.{Platform}

module _ (p : Platform) (walker : FixWalker p) (connections : p.wire_map.Map) where
  open p use {kernel, ptr_set, wire_map}
  open kernel use {Wire, Cell, Module, cells, wires, cell_connections}

  -- some walk from here to there, after which `Q` holds of what is processed
  abbrev Walked : (ptr_set.Set → Type 0) → ptr_set.Set → Module → ptr_set.Set → Module → Type 0
  Walked Q done m done' m' =
      (xs : List (Ptr p)) × Walk p walker connections done m xs done' m' × Q done'

  abbrev IsDone : Ptr p → ptr_set.Set → Type 0
  IsDone x done = ptr_set.contains done x ≡ true

  Walk-keeps :
      {done done' : ptr_set.Set} {m m' : Module} {xs : List (Ptr p)}
      → Walk p walker connections done m xs done' m'
      → (x : Ptr p) → IsDone x done
      → IsDone x done'
  Walk-keeps walk x h = (Walk-done p walker connections walk x).1 (inl h)

  -- a wire with an entry is processed
  abbrev HasTurn : Wire → ptr_set.Set → Type 0
  HasTurn w done =
      (readers : ptr_set.Set)
      → wire_map.find connections (wire w) ≡ some readers
      → IsDone (wire w) done

  visit_wire-Walked :
      (w : Wire) (done : ptr_set.Set) (m : Module)
      → IfOk (Walked (HasTurn w) done m) (visit_wire p walker connections w done m)
  unfolding visit_wire
  visit_wire-Walked w done m = elim (Bool-cases (ptr_set.contains done (wire w))) [
    | inl seen ↦ rw (seen, visit_wire) (succeeds ([], rest, λ readers found. seen))
    | inr new ↦ elim (Option-cases (wire_map.find connections (wire w))) [
      | inl missing ↦ rw (new, missing, visit_wire) (succeeds ([], rest, λ readers found. cc))
      | inr (readers, found) ↦
          rw (new, found, visit_wire)
            (IfOk-seq (IfOk-itself _) (λ _ m1 step. succeeds (
              wire w ∷ [],
              on_wire w readers m1 new found step rest,
              λ _ _. (ptr_set.contains-insert (wire w) (wire w) done).1 (inl refl),
            )))
    ]
  ]

  -- one part of the walk after the other
  then_Walked :
      {Q R : ptr_set.Set → Type 0} {done : ptr_set.Set} {m : Module}
      {r : Result (ptr_set.Set × Module)} {f : ptr_set.Set → M Module ptr_set.Set}
      → IfOk (Walked Q done m) r
      → ((done1 : ptr_set.Set) (m1 : Module) → Q done1 → IfOk (Walked R done1 m1) (f done1 m1))
      → IfOk (Walked R done m) (and_then r f)
  then_Walked first next = IfOk-seq first (λ done1 m1 (xs, walk, q).
      IfOk-weaken (next done1 m1 q)
        (λ done' m' (ys, walk', r). (xs ++ ys, Walk-append p walker connections walk walk', r)))

  visit_ports-Walked :
      (c : Cell) (names : List String) (done : ptr_set.Set) (m : Module)
      → IfOk (Walked (λ _. Unit {0}) done m) (visit_ports p walker connections c names done m)
  unfolding visit_ports
  visit_ports-Walked c [] done m = succeeds ([], rest, tt)
  visit_ports-Walked c (name ∷ names) done m =
      elim (Option-cases (wire_at p walker connections (signal_at name (cell_connections m c)))) [
        | inl nothing ↦ rw (nothing, visit_ports) (visit_ports-Walked c names done m)
        | inr (w, there) ↦
            rw (there, visit_ports)
              (then_Walked (visit_wire-Walked w done m)
                (λ done1 m1 _. visit_ports-Walked c names done1 m1))
      ]

  abbrev AllDone : List Cell → ptr_set.Set → Type 0
  AllDone cs done = (c : Cell) → In c cs → IsDone (cell c) done

  -- the first cell, and then the others
  next-AllDone :
      {done done' : ptr_set.Set} {m m' : Module} {xs : List (Ptr p)} (c : Cell) (cs : List Cell)
      → Walk p walker connections done m xs done' m'
      → IsDone (cell c) done
      → AllDone cs done'
      → AllDone (c ∷ cs) done'
  next-AllDone {done = done} c cs walk first later d at =
      ⊎_elim (λ e. Walk-keeps walk (cell d) (subst (λ x. IsDone (cell x) done) e first)) (later d)
        at

  visit_cells-Walked :
      (cs : List Cell) (done : ptr_set.Set) (m : Module)
      → IfOk (Walked (AllDone cs) done m) (visit_cells p walker connections cs done m)
  unfolding visit_cells
  visit_cells-Walked [] done m = succeeds ([], rest, λ c at. absurd at)
  visit_cells-Walked (c ∷ cs) done m = elim (Bool-cases (ptr_set.contains done (cell c))) [
    | inl seen ↦
        rw (seen, visit_cells)
          (IfOk-weaken (visit_cells-Walked cs done m)
            (λ done' m' (xs, walk, later). (xs, walk, next-AllDone c cs walk seen later)))
    | inr new ↦
        rw (new, visit_cells)
          (IfOk-seq (IfOk-itself _) (λ _ m1 step.
            IfOk-weaken
              (then_Walked
                (visit_ports-Walked c (map (λ port. port.0) (cell_connections m1 c)) _ m1)
                (λ done1 m2 _. visit_cells-Walked cs done1 m2))
              (λ done' m' (xs, walk, later). (
                cell c ∷ xs,
                on_cell c m1 new step walk,
                next-AllDone c cs walk
                    ((ptr_set.contains-insert (cell c) (cell c) done).1 (inl refl)) later,
              ))))
  ]

  visit_wires-Walked :
      (ws : List Wire) (done : ptr_set.Set) (m : Module)
      → IfOk
          (Walked (λ done'. (w : Wire) → In w ws → HasTurn w done') done m)
          (visit_wires p walker connections ws done m)
  unfolding visit_wires
  visit_wires-Walked [] done m = succeeds ([], rest, λ w at. absurd at)
  visit_wires-Walked (w ∷ ws) done m = then_Walked (visit_wire-Walked w done m) (λ done1 m1 turn.
      IfOk-weaken (visit_wires-Walked ws done1 m1) (λ done' m' (xs, walk, later). (
        xs,
        walk,
        λ d at.
            ⊎_elim
              (λ e.
                subst (λ x. HasTurn x done') e
                  (λ readers found. Walk-keeps walk (wire w) (turn readers found)))
              (later d) at,
      )))

  -- The objects that the walker got: `early` in the loop over the cells, `late` in the loop over
  -- the wires.
  pub record Rounds (m : Module) (done : ptr_set.Set) (m' : Module) : Type 0 where
    pub start : Module
    pub middle : Module
    pub half : ptr_set.Set
    pub early : List (Ptr p)
    pub late : List (Ptr p)
    pub starts : walker.process_module m ≡ ok (tt, start)
    pub first : Walk p walker connections ptr_set.empty start early half middle
    pub second : Walk p walker connections half middle late done m'
    pub no_twice : NoTwice (early ++ late)
    pub processed : (x : Ptr p) → (ptr_set.contains done x ≡ true) ↔ In x (early ++ late)
    pub every_cell : (c : Cell) → In c (cells start) → In (cell c) (early ++ late)
    pub every_wire :
        (w : Wire) (readers : ptr_set.Set)
        → In w (wires middle)
        → wire_map.find connections (wire w) ≡ some readers
        → In (wire w) (early ++ late)

  finished-Rounds :
      (m start middle m' : Module) (half done : ptr_set.Set) (early late : List (Ptr p))
      → walker.process_module m ≡ ok (tt, start)
      → Walk p walker connections ptr_set.empty start early half middle
      → AllDone (cells start) half
      → Walk p walker connections half middle late done m'
      → ((w : Wire) → In w (wires middle) → HasTurn w done)
      → Rounds m done m'
  finished-Rounds m start middle m' half done early late starts first all_cells second turns =
      let whole = Walk-append p walker connections first second in
      let begun = Walk-done p walker connections whole in
      let got : (x : Ptr p) → IsDone x done → In x (early ++ late) = λ x h.
        ⊎_elim (λ at_start. absurd (false≢true (sym (ptr_set.contains-empty x) ∙ at_start)))
          (λ at. at) ((begun x).0 h) in
      record {
        start = start;
        middle = middle;
        half = half;
        early = early;
        late = late;
        starts = starts;
        first = first;
        second = second;
        no_twice = Walk-NoTwice p walker connections whole;
        processed = λ x. (got x, λ at. (begun x).1 (inr at));
        every_cell = λ c at. got (cell c) (Walk-keeps second (cell c) (all_cells c at));
        every_wire = λ w readers at found. got (wire w) (turns w at readers found);
      }

  -- If the run of a fix walker succeeds, then it was a walk that begins where `process_module`
  -- ends: the walker got each processed object exactly once, with the netlist as the step before
  -- had left it, and a wire with the numbers of its drivers and readers. It got every cell that was
  -- there at the start, and every wire with an entry that was there after the loop over the cells.
  pub run_walker-once :
      (m : Module) (done : ptr_set.Set) (m' : Module)
      → run_walker p walker connections m ≡ ok (done, m')
      → Rounds m done m'
  unfolding run_walker
  run_walker-once m done m' h =
      IfOk-at
        (IfOk-seq (IfOk-itself (walker.process_module m)) (λ _ start starts.
          IfOk-seq (visit_cells-Walked (cells start) ptr_set.empty start)
            (λ half middle (early, first, all_cells).
              IfOk-weaken (visit_wires-Walked (wires middle) half middle)
                (λ done m' (late, second, turns).
                  finished-Rounds m start middle m' half done early late starts first all_cells
                    second turns))))
        h
