-- ===== src/FixWalker/Rewire.antt =====
-- What `MultiDriverFixer::rewire` does to the two pairs of replicas.
use tamara.FixWalker.{
  reconnect, rewire, find_by_approx_name, locate_input_port, rewire_replicas, wire,
  rtlil_inverse_lookup, port_at, cell,
}
use tamara.FixWalker.Reconnect.{output_port, input_port, OnBoth, added-OnBoth, put-wires}
use tamara.Util.Names.{tamara_id}
use tamara.Rtlil.Ports.{Ports, signal_at}
use tamara.Rtlil.Kernel.{wire, cell}
use tamara.Util.Lookups.{rtlil_inverse_lookup}
use tamara.Common.{
  sym, String, ◌≡◌, ◌≢◌, ap, some, Yields, length, ◌∙◌, and_then, yields, ◌==◌, seq, ◌&&◌, weaken,
  true, ok, In, inl, subst, refl,
}
use tamara.Rtlil.Platform.{Platform}

module _ (p : Platform) (laws : Ports p.kernel) where
  open p use {kernel, ptr_set, wire_map}
  open kernel use {Wire, Cell, SigSpec, Module, cell_connections, set_port, of_wire, width, wires}

  -- a new wire on the two ports, no other cell changed, and no wire was lost
  abbrev Pair : Wire → Cell → String → Cell → String → Module → Module → Type 0
  Pair target input out_port output in_port m m' =
      ((w : Wire) × OnBoth p target input out_port output in_port m m' w)
      × ((d : Cell) → input ≢ d → output ≢ d → cell_connections m' d ≡ cell_connections m d)
      × ((u : Wire) → In u (wires m) → In u (wires m'))

  reconnect-Pair :
      (target : Wire) (input output : Cell) (out_port in_port : String) (m : Module)
      → output_port p target input m ≡ some out_port
      → input_port p target output m ≡ some in_port
      → Yields
          (λ _. Pair target input out_port output in_port m)
          (reconnect p target input output m)
  unfolding reconnect locate_input_port tamara_id
  reconnect-Pair target input output out_port in_port m found found' =
      rw (found, found', reconnect)
        (yields (
          (_, added-OnBoth p laws target input output out_port in_port _ m),
          λ d apart apart'.
              laws.set_port-other output d in_port _ _ apart'
              ∙ laws.set_port-other input d out_port _ _ apart
              ∙ laws.add_wire-ports _ (width target) _ d
              ∙ laws.next_index-ports m d,
          λ u at. subst (In u) (sym (put-wires p laws input out_port output in_port _ _)) (
              (laws.add_wire-wires _ (width target) _ u).1
                (inl (subst (In u) (sym (laws.next_index-wires m)) at))),
        ))

  -- a later module with the same ports on the two cells, and an earlier one with fewer wires
  OnBoth-kept :
      (target : Wire) (input output : Cell) (out_port in_port : String) (first m m' last : Module)
      (w : Wire)
      → ((u : Wire) → In u (wires first) → In u (wires m))
      → ((u : Wire) → In u (wires m') → In u (wires last))
      → cell_connections last input ≡ cell_connections m' input
      → cell_connections last output ≡ cell_connections m' output
      → OnBoth p target input out_port output in_port m m' w
      → OnBoth p target input out_port output in_port first last w
  OnBoth-kept target input output out_port in_port first m m' last w grows grows' same same' both =
      record {
        new = λ at. both.new (grows w at);
        joined = grows' w both.joined;
        wide = both.wide;
        driven = ap (signal_at out_port) same ∙ both.driven;
        read = ap (signal_at in_port) same' ∙ both.read;
      }

  module _ (target : Wire) (l1 r1 l2 r2 : Cell) (o1 i1 o2 i2 : String) (m : Module)
      (apart_l : l1 ≢ l2) (apart_lr : l1 ≢ r2) (apart_rl : r1 ≢ l2) (apart_r : r1 ≢ r2) where
    -- the pairs have a new wire each, which differ, and no other cell changed
    abbrev pub BothPairs : Module → Type 0
    BothPairs m' =
        ((w1 : Wire) × (w2 : Wire) × (w1 ≢ w2)
          × OnBoth p target l1 o1 r1 i1 m m' w1
          × OnBoth p target l2 o2 r2 i2 m m' w2)
        × ((d : Cell)
            → l1 ≢ d
            → r1 ≢ d
            → l2 ≢ d
            → r2 ≢ d
            → cell_connections m' d ≡ cell_connections m d)

    reconnect_both :
        output_port p target l1 m ≡ some o1
        → input_port p target r1 m ≡ some i1
        → output_port p target l2 m ≡ some o2
        → input_port p target r2 m ≡ some i2
        → Yields
            (λ _. BothPairs)
            (and_then (reconnect p target l1 r1 m) (λ _ m1. reconnect p target l2 r2 m1))
    reconnect_both at_l1 at_r1 at_l2 at_r2 =
        seq (reconnect-Pair target l1 r1 o1 i1 m at_l1 at_r1) (λ _ m1 ((w1, first), others, grows).
          weaken
            (reconnect-Pair target l2 r2 o2 i2 m1
              (ap (port_at p (kernel.cell_output (kernel.cell_type l2)) target)
                  (others l2 apart_l apart_rl)
                ∙ at_l2)
              (ap (port_at p (kernel.cell_input (kernel.cell_type r2)) target)
                  (others r2 apart_lr apart_r)
                ∙ at_r2))
            (λ _ m2 ((w2, second), others', grows'). (
              (
                w1,
                w2,
                λ same. second.new (subst (λ w. In w (wires m1)) same first.joined),
                OnBoth-kept target l1 r1 o1 i1 m m m1 m2 w1 (λ u at. at) grows'
                    (others' l1 (λ e. apart_l (sym e)) (λ e. apart_lr (sym e)))
                    (others' r1 (λ e. apart_rl (sym e)) (λ e. apart_r (sym e))) first,
                OnBoth-kept target l2 r2 o2 i2 m m1 m2 m2 w2 grows (λ u at. at) refl refl second,
              ),
              λ d a b c e. others' d c e ∙ others d a b,
            )))

    -- If the wire has an entry with three readers and three drivers, the two replicas of either
    -- side are found by their names, they are cells, and the pairs do not share one, and if each
    -- has its port on the wire, then `rewire` succeeds: each pair has a wire of its own, of the
    -- width of the target, on its two ports. Neither was in the netlist, and the two differ. The ports
    -- of all other cells are as they were.
    pub rewire-BothPairs :
        (connections : wire_map.Map) (inputs : ptr_set.Set)
        → wire_map.find connections (wire target) ≡ some inputs
        → (length (ptr_set.elements inputs) == 3
            && length (rtlil_inverse_lookup p connections target) == 3)
          ≡ true
        → find_by_approx_name p (ptr_set.elements inputs) "replica1" m ≡ ok (cell l1, m)
        → find_by_approx_name p (rtlil_inverse_lookup p connections target) "replica1" m
          ≡ ok (cell r1, m)
        → find_by_approx_name p (ptr_set.elements inputs) "replica2" m ≡ ok (cell l2, m)
        → find_by_approx_name p (rtlil_inverse_lookup p connections target) "replica2" m
          ≡ ok (cell r2, m)
        → output_port p target l1 m ≡ some o1
        → input_port p target r1 m ≡ some i1
        → output_port p target l2 m ≡ some o2
        → input_port p target r2 m ≡ some i2
        → Yields (λ _. BothPairs) (rewire p target connections m)
    unfolding rewire rewire_replicas
    rewire-BothPairs connections inputs found three l1_found r1_found l2_found r2_found at_l1 at_r1
          at_l2 at_r2 =
        simp (found, three, l1_found, r1_found, l2_found, r2_found, rewire)
          (reconnect_both at_l1 at_r1 at_l2 at_r2)
