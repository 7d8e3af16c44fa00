-- ===== src/FixWalker/Intact.antt =====
-- The fix walkers of src/fix_walker.cpp leave the voters of a netlist intact: they give new ports
-- only to cells that have the annotation of a cone.
use tamara.FixWalker.{
  find_by_approx_name, locate_input_port, reconnect, rewire_replicas, Ptr, all_annotated, port_at,
  get_rtlil_name, process_wire, rewire, rtlil_inverse_lookup,
}
use tamara.Util.Connections.{Ptr, get_rtlil_name}
use tamara.Voter.Intact.{Keeps-tamara_id}
use tamara.Rtlil.Intact.Calls.{Keeps-add_wire, Keeps-set_port}
use tamara.Util.Lookups.{rtlil_inverse_lookup}
use tamara.Common.{
  true, ◌≡◌, List, M, Option-cases, IfOk, String, fails, ◌>>=◌, IfOk-seq, inl, ◌>>◌, ◌∷◌,
  Bool-cases, inr, subst, arith, has_part, [], succeeds, refl, some, ℕ, ◌==◌, ◌&&◌,
}
use tamara.Rtlil.Circuit.{Circuit}
use tamara.Rtlil.Gates.{Gates, Marks}
use tamara.Rtlil.Intact.{
  Keeps, Plain, IsTidy, Keeps-some_or, Intact, Keeps-then, Keeps-bind, Keeps-require, Intact-refl,
}
use tamara.Rtlil.Platform.{Platform}
use tamara.Rtlil.Kernel.{wire, cell}
use tamara.Cone.Replicate.Intact.{AllPlain}

module _ (p : Platform) (s : Circuit p.kernel) (g : Gates p.kernel s) (marks : Marks p.kernel) where
  open p use {kernel, ptr_set, wire_map}
  open kernel use {
    Wire, Cell, Module, width, of_wire, cells, wires, cell_type, cell_connections, cell_output,
    has_attribute,
  }

  Keeps-locate_input_port :
      (target : Wire) (c : Cell) → Keeps kernel s g marks (locate_input_port p target c)
  unfolding locate_input_port
  Keeps-locate_input_port target c = record {
    at = λ m tidy. (Keeps-some_or kernel s g marks _ _).at m tidy;
  }

  Keeps-reconnect :
      (target : Wire) (input output : Cell)
      → Plain kernel s g marks (cell input)
      → Plain kernel s g marks (cell output)
      → Keeps kernel s g marks (reconnect p target input output)
  unfolding reconnect
  Keeps-reconnect target input output plain plain' = record {
    at = λ m tidy.
        elim (Option-cases
          (port_at p (cell_output (cell_type input)) target (cell_connections m input))) [
            | inl missing ↦ rw (missing, reconnect) fails
            | inr (port, found) ↦
                rw (found, reconnect)
                  ((Keeps-bind kernel s g marks _ _ (Keeps-locate_input_port target output)
                      (λ output_port.
                        Keeps-bind kernel s g marks _ _
                          (Keeps-tamara_id kernel s g marks "MultiDriverFixer")
                          (λ name.
                            Keeps-bind kernel s g marks _ _
                              (Keeps-add_wire kernel s g marks name (width target))
                              (λ w.
                                Keeps-then kernel s g marks _ _
                                  (Keeps-set_port kernel s g marks input port (of_wire w) plain)
                                  (Keeps-set_port kernel s g marks output output_port (of_wire w)
                                    plain'))))).at
                    m tidy)
          ];
  }

  Keeps-rewire_replicas :
      (target : Wire) (lhs rhs : Ptr p)
      → Plain kernel s g marks lhs
      → Plain kernel s g marks rhs
      → Keeps kernel s g marks (rewire_replicas p target lhs rhs)
  unfolding rewire_replicas
  Keeps-rewire_replicas target (cell input) (cell output) plain plain' =
      Keeps-reconnect target input output plain plain'
  Keeps-rewire_replicas target (cell input) (wire w) plain plain' = record { at = λ m tidy. fails }
  Keeps-rewire_replicas target (wire w) rhs plain plain' = record { at = λ m tidy. fails }

  find_by_approx_name-Plain :
      (objs : List (Ptr p)) (name : String) (m : Module)
      → AllPlain p s g marks objs
      → IfOk (λ x m'. (m ≡ m') × Plain kernel s g marks x) (find_by_approx_name p objs name m)
  unfolding find_by_approx_name
  find_by_approx_name-Plain [] name m plain = fails
  find_by_approx_name-Plain (obj ∷ objs) name m plain =
      elim (Bool-cases (has_part (get_rtlil_name p obj) name)) [
        | inl here ↦ rw (here, find_by_approx_name) (succeeds (refl, plain obj (inl refl)))
        | inr other ↦
            rw (other, find_by_approx_name)
              (find_by_approx_name-Plain objs name m (λ x at. plain x (inr at)))
      ]

  -- the rest, with an object of the list
  Keeps-found :
      {B : Type 0} (objs : List (Ptr p)) (name : String) (f : Ptr p → M Module B)
      → AllPlain p s g marks objs
      → ((x : Ptr p) → Plain kernel s g marks x → Keeps kernel s g marks (f x))
      → Keeps kernel s g marks (find_by_approx_name p objs name >>= f)
  Keeps-found objs name f plain keeps = record {
    at = λ m tidy. IfOk-seq (find_by_approx_name-Plain objs name m plain) (λ x m' (same, plain_x).
        subst (λ m'. IfOk (λ _ m''. Intact kernel s g marks m m'') (f x m')) same
          ((keeps x plain_x).at m tidy));
  }

  Keeps-rewire_listed :
      (target : Wire) (lhs rhs : List (Ptr p))
      → AllPlain p s g marks lhs
      → AllPlain p s g marks rhs
      → Keeps kernel s g marks (do
        lhs1 ← find_by_approx_name p lhs "replica1"
        rhs1 ← find_by_approx_name p rhs "replica1"
        lhs2 ← find_by_approx_name p lhs "replica2"
        rhs2 ← find_by_approx_name p rhs "replica2"
        rewire_replicas p target lhs1 rhs1
        rewire_replicas p target lhs2 rhs2)
  Keeps-rewire_listed target lhs rhs plain plain' = Keeps-found lhs _ _ plain (λ lhs1 p1.
      Keeps-found rhs _ _ plain' (λ rhs1 q1. Keeps-found lhs _ _ plain (λ lhs2 p2.
        Keeps-found rhs _ _ plain' (λ rhs2 q2.
          Keeps-then kernel s g marks _ _ (Keeps-rewire_replicas target lhs1 rhs1 p1 q1)
            (Keeps-rewire_replicas target lhs2 rhs2 p2 q2)))))

  all_annotated-Plain :
      (m : Module) (objs : List (Ptr p))
      → IsTidy kernel s g marks m
      → all_annotated p m objs ≡ true
      → AllPlain p s g marks objs
  all_annotated-Plain m [] tidy all x at = absurd at
  all_annotated-Plain m (obj ∷ objs) tidy all x (inl e) =
      subst (Plain kernel s g marks) e (tidy.plain obj (ground arith))
  all_annotated-Plain m (obj ∷ objs) tidy all x (inr at) =
      all_annotated-Plain m objs tidy (ground arith) x at

  Keeps-rewire :
      (target : Wire) (connections : wire_map.Map) (inputs : ptr_set.Set)
      → wire_map.find connections (wire target) ≡ some inputs
      → AllPlain p s g marks (ptr_set.elements inputs)
      → AllPlain p s g marks (rtlil_inverse_lookup p connections target)
      → Keeps kernel s g marks (rewire p target connections)
  unfolding rewire
  Keeps-rewire target connections inputs found plain plain' =
      rw (found, rewire)
        (Keeps-then kernel s g marks _ _ (Keeps-require kernel s g marks _ _)
          (Keeps-rewire_listed target _ _ plain plain'))

  pub Keeps-process_wire :
      (w : Wire) (a b : ℕ) (connections : wire_map.Map)
      → Keeps kernel s g marks (process_wire p w a b connections)
  unfolding process_wire
  Keeps-process_wire w a b connections = record {
    at = λ m tidy. elim (Bool-cases (a == 3 && b == 3)) [
      | inr other ↦ rw (other, process_wire) (succeeds (Intact-refl kernel s g marks m tidy))
      | inl three ↦ elim (Option-cases (wire_map.find connections (wire w))) [
        | inl missing ↦
            rw (three, missing, process_wire) (succeeds (Intact-refl kernel s g marks m tidy))
        | inr (inputs, found) ↦
            elim (Bool-cases (
              all_annotated p m (ptr_set.elements inputs)
              && all_annotated p m (rtlil_inverse_lookup p connections w))) [
                | inr some_not ↦
                    rw (three, found, some_not, process_wire)
                      (succeeds (Intact-refl kernel s g marks m tidy))
                | inl all ↦
                    rw (three, found, all, process_wire)
                      ((Keeps-rewire w connections inputs found
                          (all_annotated-Plain m _ tidy (ground arith))
                          (all_annotated-Plain m _ tidy (ground arith))).at
                        m tidy)
              ]
      ]
    ];
  }
