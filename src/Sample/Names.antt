-- ===== src/Sample/Names.antt =====
-- That no two objects of a sample netlist share a name, by computation.
use text.Mathlib.TextEquality.{eq_iff}
use tamara.Sample.Netlist.{Item, platform, same_item_iff, same_item}
use tamara.Cone.Search.{all_neighbours}
use tamara.Cone.Search.Behind.{UniqueNames}
use tamara.Util.Connections.{get_rtlil_name}
use tamara.Common.{Bool, List, ◌≡◌, true, In, not, ◌∷◌, inl, str_eq, ◌&&◌, arith, ap, ◌||◌, inr, []}

abbrev all_of : {A : Type 0} → (A → Bool) → List A → Bool
all_of f [] = true
all_of f (x ∷ xs) = f x && all_of f xs

all_of-In :
    {A : Type 0} (f : A → Bool) (a : A) (xs : List A) → all_of f xs ≡ true → In a xs → f a ≡ true
all_of-In f a [] h member = absurd member
all_of-In f a (x ∷ xs) h (inl e) = ground (arith, ap f e)
all_of-In f a (x ∷ xs) h (inr member) = all_of-In f a xs (ground arith) member

abbrev apart_from : Item → Item → Bool
apart_from a b =
    not (str_eq (get_rtlil_name platform a) (get_rtlil_name platform b)) || same_item a b

abbrev pub are_apart : List Item → Bool
are_apart items = all_of (λ a. all_of (apart_from a) items) items

pub UniqueNames-are_apart :
    (connections : platform.wire_map.Map)
    → are_apart (all_neighbours platform connections) ≡ true
    → UniqueNames platform connections
UniqueNames-are_apart connections h a b at_a at_b same =
    let items = all_neighbours platform connections in
    let apart =
      all_of-In (apart_from a) b items (all_of-In (λ a. all_of (apart_from a) items) a items h at_a)
        at_b in
    (same_item_iff a b).0
      (ground (arith, eq_iff (get_rtlil_name platform a) (get_rtlil_name platform b)))
