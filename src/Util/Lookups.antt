-- ===== src/Util/Lookups.antt =====
-- `rtlilInverseLookup` and `signalInverseLookup` of src/util.cpp.
use text.Mathlib.TextEquality.{eq_iff}
use tamara.Rtlil.Containers.{HashSet, HashMap}
use tamara.Util.Connections.{Ptr, get_rtlil_name}
use tamara.Util.Links.{linked}
use tamara.Common.{
  List, Bool, In, str_eq, ◌∷◌, if◌then◌else◌, ◌++◌, ◌↔◌, [], ◌≡◌, true, Bool-cases, In-append, inr,
  inl, ⊎_elim, ap, false≢true, subst, sym, ◌∙◌, refl, some, Option-cases, some_unique,
}
use tamara.Rtlil.Platform.{Platform}

module _ {K A S : Type 0} (elements : S → List A) (matches : A → Bool) where
  -- the inner loop: `key` once for each item that matches
  abbrev keys_by : K → List A → List K
  keys_by key [] = []
  keys_by key (item ∷ items) =
      let rest = keys_by key items in if matches item then key ∷ rest else rest

  abbrev keys_in : List (K × S) → List K
  keys_in [] = []
  keys_in ((key, value) ∷ rest) = keys_by key (elements value) ++ keys_in rest

  abbrev Keeps : K → List A → K → Type 0
  Keeps key items k = (key ≡ k) × ((b : A) × In b items × (matches b ≡ true))

  Keeps-later :
      (key k : K) (item : A) (items : List A) → Keeps key items k → Keeps key (item ∷ items) k
  Keeps-later key k item items (e, (b, member, is)) = (e, (b, inr member, is))

  keys_by-Keeps : (key k : K) (items : List A) → In k (keys_by key items) ↔ Keeps key items k
  keys_by-Keeps key k [] = ((λ h. absurd h), λ (_, (b, member, _)). member)
  keys_by-Keeps key k (item ∷ items) =
      let (from, to) = keys_by-Keeps key k items in
      elim (Bool-cases (matches item)) [
        | inl hit ↦ rw hit (
          ⊎_elim (λ e. (e, (item, inl refl, hit))) (λ h. Keeps-later key k item items (from h)),
          λ (e, (b, member, is)). ⊎_elim (λ _. inl e) (λ at. inr (to (e, (b, at, is)))) member,
        )
        | inr miss ↦ rw miss (
          λ h. Keeps-later key k item items (from h),
          λ (e, (b, member, is)).
              ⊎_elim (λ same. absurd (false≢true (sym miss ∙ ap matches same ∙ is)))
                (λ at. to (e, (b, at, is))) member,
        )
      ]

  abbrev KeepsIn : List (K × S) → K → Type 0
  KeepsIn es k = (s : S) × In (k, s) es × ((b : A) × In b (elements s) × (matches b ≡ true))

  keys_in-KeepsIn : (k : K) (es : List (K × S)) → In k (keys_in es) ↔ KeepsIn es k
  keys_in-KeepsIn k [] = ((λ h. absurd h), λ (s, member, _). member)
  keys_in-KeepsIn k ((key, value) ∷ es) =
      let (from, to) = keys_in-KeepsIn k es in
      let (from', to') = keys_by-Keeps key k (elements value) in
      let (cut, join) = In-append k (keys_by key (elements value)) (keys_in es) in
      (
        λ h.
            ⊎_elim
              (λ now. let (e, found) = from' now in (value, inl (ap (λ k. (k, value)) e), found))
              (λ later. let (s, member, found) = from later in (s, inr member, found)) (cut h),
        λ (s, member, found).
            ⊎_elim
              (λ e. join (
                inl (
                  to' (
                    ap (λ x. x.0) e,
                    subst (λ s. (b : A) × In b (elements s) × (matches b ≡ true))
                        (sym (ap (λ x. x.1) e)) found,
                  ))))
              (λ later. join (inr (to (s, later, found)))) member,
      )

module _ {K V : Type 0} (set : HashSet V) (dict : HashMap K (HashSet.Set set))
    (m : HashMap.Map dict) where
  linked-find :
      (k : K) (v : V)
      → (linked set dict m k v ≡ true)
        ↔ ((s : HashSet.Set set) × (HashMap.find dict m k ≡ some s) × In v (HashSet.elements set s))
  linked-find k v = elim (Option-cases (HashMap.find dict m k)) [
    | inl missing ↦ rw (missing, linked) (λ h. absurd (false≢true h), λ (s, found, _). cc)
    | inr (s, found) ↦ (
      λ h. (s, found, (HashSet.contains-elements set s v).0 (rw (found, linked) at h)),
      λ (t, is, member).
          rw (found, linked)
            ((HashSet.contains-elements set s v).1
              (subst (λ t. In v (HashSet.elements set t)) (some_unique _ is found) member)),
    )
  ]

  -- the keys of the items that match, as the relation that the map stands for
  lookup-linked :
      (matches : V → Bool) (k : K)
      → In k (keys_in (HashSet.elements set) matches (HashMap.entries dict m))
        ↔ ((v : V) × (linked set dict m k v ≡ true) × (matches v ≡ true))
  lookup-linked matches k =
      let (from, to) = keys_in-KeepsIn (HashSet.elements set) matches k (HashMap.entries dict m) in
      (
        λ h.
            let (s, at, (v, member, is)) = from h in
            (v, (linked-find k v).1 (s, (HashMap.find-entries dict m k s).1 at, member), is),
        λ (v, joined, is).
            let (s, found, member) = (linked-find k v).0 joined in
            to (s, (HashMap.find-entries dict m k s).0 found, (v, member, is)),
      )

module _ (p : Platform) where
  open p use {kernel, ptr_set, signal_set, wire_map, signal_map}
  open kernel use {Wire, SigSpec, wire_name, same_signal, same_signal_iff}

  unfoldable pub rtlil_inverse_lookup : wire_map.Map → Wire → List (Ptr p)
  rtlil_inverse_lookup connections target =
      keys_in ptr_set.elements (λ item. str_eq (get_rtlil_name p item) (wire_name target))
        (wire_map.entries connections)

  unfoldable pub signal_inverse_lookup : signal_map.Map → SigSpec → List (Ptr p)
  signal_inverse_lookup connections target =
      keys_in signal_set.elements (λ item. same_signal item target) (signal_map.entries connections)

  -- The lookup inverts the map: it returns exactly the objects that have a neighbour of the
  -- target's name.
  pub rtlil_inverse_lookup-inverse :
      (connections : wire_map.Map) (target : Wire) (a : Ptr p)
      → In a (rtlil_inverse_lookup connections target) ↔ (
          (b : Ptr p) × (linked ptr_set wire_map connections a b ≡ true)
          × (get_rtlil_name p b ≡ wire_name target))
  unfolding rtlil_inverse_lookup
  rtlil_inverse_lookup-inverse connections target a =
      let (from, to) =
        lookup-linked ptr_set wire_map connections
          (λ item. str_eq (get_rtlil_name p item) (wire_name target)) a in
      (
        λ h. let (b, joined, is) = from h in (b, joined, (eq_iff _ _).0 is),
        λ (b, joined, is). to (b, joined, (eq_iff _ _).1 is),
      )

  -- The same of the other map, where the target itself is looked for.
  signal_inverse_lookup-inverse :
      (connections : signal_map.Map) (target : SigSpec) (a : Ptr p)
      → In a (signal_inverse_lookup connections target)
        ↔ (linked signal_set signal_map connections a target ≡ true)
  unfolding signal_inverse_lookup
  signal_inverse_lookup-inverse connections target a =
      let (from, to) =
        lookup-linked signal_set signal_map connections (λ item. same_signal item target) a in
      (
        λ h.
            let (s, joined, is) = from h in
            subst (λ s. linked signal_set signal_map connections a s ≡ true)
              ((same_signal_iff s target).0 is) joined,
        λ joined. to (target, joined, (same_signal_iff target target).1 refl),
      )
