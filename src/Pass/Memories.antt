-- ===== src/Pass/Memories.antt =====
-- Memories stay out of the logic graph.
use tamara.Pass.{mark_memory, ignore_annotation, mark_memories_ignored}
use tamara.Rtlil.Kernel.{cell}
use tamara.Util.Connections.{Ptr, analyse_connections, should_consider_for_tmr}
use tamara.Util.Names.{ignore_annotation}
use tamara.Util.Links.{linked}
use tamara.Util.Neighbours.{analyse_connections-Neighbour, Considered, Neighbour, Through}
use tamara.Common.{
  List, In, Bool-cases, foldl, ◌≡◌, inl, true, ◌∷◌, [], inr, false, String, subst, ◌⊎◌, sym, ⊎_elim,
  arith, refl, refuted,
}
use tamara.Rtlil.Attributes.{Attributes, Has}
use tamara.Rtlil.Platform.{Platform}

module _ (p : Platform) (laws : Attributes p.kernel) where
  open p use {kernel, ptr_set, wire_map}
  open kernel use {Cell, Module, cells, is_mem_cell, has_attribute}

  mark_memory-keeps :
      (c d : Cell) (m : Module)
      → Has kernel m (cell d) ignore_annotation
      → Has kernel (mark_memory p m c) (cell d) ignore_annotation
  unfolding mark_memory
  mark_memory-keeps c d m h = elim (Bool-cases (is_mem_cell c)) [
    | inl memory ↦
        rw memory
          (laws.set_bool_attribute-keeps (cell c) ignore_annotation m (cell d) ignore_annotation h)
    | inr other ↦ rw other h
  ]

  marks-keep :
      (cs : List Cell) (d : Cell) (m : Module)
      → Has kernel m (cell d) ignore_annotation
      → Has kernel (foldl (mark_memory p) m cs) (cell d) ignore_annotation
  marks-keep [] d m h = h
  marks-keep (c ∷ cs) d m h = marks-keep cs d (mark_memory p m c) (mark_memory-keeps c d m h)

  marks-Has :
      (cs : List Cell) (d : Cell) (m : Module)
      → In d cs
      → is_mem_cell d ≡ true
      → Has kernel (foldl (mark_memory p) m cs) (cell d) ignore_annotation
  unfolding mark_memory
  marks-Has [] d m member memory = absurd member
  marks-Has (c ∷ cs) d m (inl e) memory = marks-keep cs d (mark_memory p m c) (
      subst (λ c. Has kernel (mark_memory p m c) (cell d) ignore_annotation) (sym e)
        (rw memory (laws.set_bool_attribute-Has (cell d) ignore_annotation m)))
  marks-Has (c ∷ cs) d m (inr member) memory = marks-Has cs d (mark_memory p m c) member memory

  marked_Has :
      (m : Module) (c : Cell)
      → In c (cells m)
      → is_mem_cell c ≡ true
      → Has kernel (mark_memories_ignored p m) (cell c) ignore_annotation
  unfolding mark_memories_ignored
  marked_Has m c member memory = marks-Has (cells m) c m member memory

  Through-cell :
      (d c : Cell) (name : String) (w : kernel.Wire) (a b : Ptr p)
      → (a ≡ cell c) ⊎ (b ≡ cell c)
      → Through p d name w a b
      → d ≡ c
  Through-cell d c name w a b end h = ground arith

  ignored-Considered :
      (m : Module) (c d : Cell)
      → d ≡ c
      → Considered p m (cell d)
      → Has kernel m (cell c) ignore_annotation
      → ⊥
  unfolding should_consider_for_tmr
  ignored-Considered m c d e considered ignored = ground arith

  Neighbour-Considered :
      (m : Module) (c : Cell) (a b : Ptr p)
      → (a ≡ cell c) ⊎ (b ≡ cell c)
      → Neighbour p m a b
      → Has kernel m (cell c) ignore_annotation
      → ⊥
  Neighbour-Considered m c a b end (inl (d, _, (considered, ((name, s), _, (w, _, through)))))
        ignored =
      ignored-Considered m c d (Through-cell d c name w a b end through) considered ignored
  Neighbour-Considered m c a b end (inr (joint, _, (l, r, _, _, (_, _, at_l, at_r)))) ignored =
      ⊎_elim (λ e. cc) (λ e. cc) end

  -- A memory of the module has no neighbour and is nobody's neighbour in the analysis that follows
  -- the marking, so that no search comes to it.
  pub memory-unlinked :
      (m : Module) (c : Cell) (b : Ptr p)
      → In c (cells m)
      → is_mem_cell c ≡ true
      → (linked ptr_set wire_map
            (analyse_connections p (mark_memories_ignored p m)).wires
            (cell c)
            b
          ≡ false)
        × (linked ptr_set wire_map
              (analyse_connections p (mark_memories_ignored p m)).wires
              b
              (cell c)
            ≡ false)
  memory-unlinked m c b member memory =
      let marked = mark_memories_ignored p m in
      let ignored = marked_Has m c member memory in
      let (from, _) = analyse_connections-Neighbour p marked (cell c) b in
      let (from', _) = analyse_connections-Neighbour p marked b (cell c) in
      (
        refuted (λ h. Neighbour-Considered marked c (cell c) b (inl refl) (from h) ignored),
        refuted (λ h. Neighbour-Considered marked c b (cell c) (inr refl) (from' h) ignored),
      )
