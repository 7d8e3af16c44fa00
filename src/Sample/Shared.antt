-- ===== src/Sample/Shared.antt =====
-- A sample circuit: y1 and y2 are both the conjunction of a and b, by one gate.
use tamara.Sample.Netlist.{
  Netlist, Object, Item, empty_netlist, object, platform, set_mark, whole, same_object, kernel,
}
use tamara.Cone.Node.{Kind, Node, is_io}
use tamara.Cone.Search.{LogicCone}
use tamara.Util.Names.{cone_annotation}
use tamara.Rtlil.Attributes.{Has}
use tamara.Common.{
  ◌∷◌, [], String, In, false, some, true, ℕ, if◌then◌else◌, ◌++◌, ◌≡◌, inl, ap, arith, sym, inr,
  subst, refl,
}
use tamara.Rtlil.Kernel.{wire, cell}

abbrev pub plain : String → Object
plain name = object name "" 1 false false

abbrev pub input : String → Object
input name = object name "" 1 true false

abbrev pub output : String → Object
output name = object name "" 1 false true

abbrev pub gate : Object
gate = object "g" "$and" 0 false false

abbrev pub memory : Object
memory = object "ram" "$mem_v2" 0 false false

abbrev pub shared : Netlist
shared = record empty_netlist {
  wires = output "y1" ∷ output "y2" ∷ plain "t" ∷ input "a" ∷ input "b" ∷ [];
  cells = gate ∷ [];
  connections =
      (whole (output "y1"), whole (plain "t")) ∷ (whole (output "y2"), whole (plain "t")) ∷ [];
  ports = λ c.
      if same_object c gate
      then ("A", whole (input "a")) ∷ ("B", whole (input "b")) ∷ ("Y", whole (plain "t")) ∷ []
      else [];
}

abbrev pub node : Kind → Item → ℕ → Node platform
node kind obj address = record { kind = kind; obj = obj; cone_id = 1; address = address }

-- the cone of y2 after its search
abbrev pub second_cone : LogicCone platform
second_cone = record {
  id = 1;
  output_node = node Kind.io (wire (output "y2")) 0;
  input_nodes = node Kind.io (wire (input "b")) 4 ∷ [];
  cone = node Kind.element_wire (wire (plain "t")) 1 ∷ node Kind.element_cell (cell gate) 2 ∷ [];
  voter_cut_point = some (node Kind.element_cell (cell gate) 2);
  frontier = [];
  next_address = 5;
}

-- an element is not an IO
pub second_cone-elements : (n : Node platform) → In n second_cone.cone → is_io n.kind ≡ false
second_cone-elements n (inl e) = ap (λ n. is_io n.kind) (sym e)
second_cone-elements n (inr (inl e)) = ap (λ n. is_io n.kind) (sym e)
second_cone-elements n (inr (inr z)) = absurd z

-- after the gate was replicated for y1
abbrev pub gate_replicated : Netlist
gate_replicated = set_mark (cell gate) cone_annotation "0" shared

pub second_cone-replicated :
    (n : Node platform)
    → In n (second_cone.cone ++ (second_cone.input_nodes ++ second_cone.output_node ∷ []))
    → is_io n.kind ≡ false
    → n.address ≡ 2
    → Has kernel gate_replicated n.obj cone_annotation
second_cone-replicated n (inl e) no_io at = absurd (omega (arith, ap (λ n. n.address) e))
second_cone-replicated n (inr (inl e)) no_io at =
    subst (λ n. Has kernel gate_replicated n.obj cone_annotation) e refl
second_cone-replicated n (inr (inr (inl e))) no_io at =
    absurd (omega (arith, ap (λ n. n.address) e))
second_cone-replicated n (inr (inr (inr (inl e)))) no_io at =
    absurd (omega (arith, ap (λ n. n.address) e))
second_cone-replicated n (inr (inr (inr (inr z)))) no_io at = absurd z
