-- ===== src/Util/Links.antt =====
-- The maps of src/util.cpp read as relations.
use mathlib.Core.Bool.{false≢true}
use tamara.Common.{
  ◌≡◌, refl, sym, ◌∙◌, ◌↔◌, ◌⊎◌, inl, inr, ⊎_elim, Bool, true, false, Option, none, some, arith,
  Bool-cases,
}
use tamara.Rtlil.Containers.{HashSet, HashMap}
use tamara.Rtlil.Platform.{Platform}
use tamara.Util.Connections.{Ptr, link_wire, link_signal}

-- A map from keys to sets, in general: `map[key].insert(value)` adds one pair to the relation.
module _ {K V : Type 0} (set : HashSet V) (map : HashMap K (HashSet.Set set)) where
  open set use {contains, insert, contains-insert, contains-empty}
  open map use {find, put, find-put, find-put_ne, same_key, same_key_iff, find-empty}

  abbrev holds_in : Option (HashSet.Set set) → V → Bool
  holds_in none v = false
  holds_in (some s) v = contains s v

  abbrev pub linked : HashMap.Map map → K → V → Bool
  linked m k v = holds_in (find m k) v

  pub linked-empty : (k : K) (v : V) → linked (HashMap.empty map) k v ≡ false
  linked-empty k v = rw (find-empty k, linked)

  linked-put :
      (m : HashMap.Map map) (key : K) (value : V) (old : HashSet.Set set) (k : K) (v : V)
      → ((v : V) → contains old v ≡ linked m key v)
      → (linked (put key (insert value old) m) k v ≡ true)
        ↔ ((linked m k v ≡ true) ⊎ ((key ≡ k) × (value ≡ v)))
  linked-put m key value old k v same = elim (Bool-cases (same_key key k)) [
    | inl hit ↦
        let e = (same_key_iff key k).0 hit in
        rw (← e)
          (ground (arith, find-put key (insert value old) m, contains-insert value v old, same v))
    | inr miss ↦
        let ne = λ (e : key ≡ k). false≢true (sym miss ∙ (same_key_iff key k).1 e) in
        rw (find-put_ne key k (insert value old) m ne, linked)
          (inl, ⊎_elim (λ h. h) (λ (e, _). absurd (ne e)))
  ]

  abbrev or_empty : Option (HashSet.Set set) → HashSet.Set set
  or_empty none = HashSet.empty set
  or_empty (some s) = s

  contains-or_empty :
      (o : Option (HashSet.Set set)) (v : V) → contains (or_empty o) v ≡ holds_in o v
  contains-or_empty none v = contains-empty v
  contains-or_empty (some s) v = refl

  -- the new value of `map[key]`, whether or not the key was there
  abbrev grown : HashMap.Map map → K → V → HashSet.Set set
  grown m key value = insert value (or_empty (find m key))

  pub linked-insert :
      (m m' : HashMap.Map map) (key : K) (value : V) (k : K) (v : V)
      → m' ≡ put key (grown m key value) m
      → (linked m' k v ≡ true) ↔ ((linked m k v ≡ true) ⊎ ((key ≡ k) × (value ≡ v)))
  linked-insert m m' key value k v e =
      rw e (linked-put m key value _ k v (contains-or_empty (find m key)))

module _ (p : Platform) where
  open p use {kernel, ptr_set, wire_map, signal_map, signal_set}
  open kernel use {SigSpec}

  pub linked-link_wire :
      (key value : Ptr p) (m : wire_map.Map) (k v : Ptr p)
      → (linked ptr_set wire_map (link_wire p key value m) k v ≡ true)
        ↔ ((linked ptr_set wire_map m k v ≡ true) ⊎ ((key ≡ k) × (value ≡ v)))
  unfolding link_wire
  linked-link_wire key value m k v = linked-insert ptr_set wire_map m _ key value k v (ground arith)

  pub linked-link_signal :
      (key : Ptr p) (value : SigSpec) (m : signal_map.Map) (k : Ptr p) (v : SigSpec)
      → (linked signal_set signal_map (link_signal p key value m) k v ≡ true)
        ↔ ((linked signal_set signal_map m k v ≡ true) ⊎ ((key ≡ k) × (value ≡ v)))
  unfolding link_signal
  linked-link_signal key value m k v =
      linked-insert signal_set signal_map m _ key value k v (ground arith)
