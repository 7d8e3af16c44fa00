-- ===== src/Sample/Lists.antt =====
-- The containers of the sample platform, as lists.
use tamara.Common.{
  ◌≡◌, refl, ◌↔◌, ◌≢◌, ◌⊎◌, Bool, true, false, ◌||◌, Option, none, some, List, [], ◌∷◌, In, arith,
  if◌then◌else◌,
}
use tamara.Rtlil.Containers.{HashSet, HashMap}

module _ {A : Type 0} (same : A → A → Bool)
    (same_iff : (a b : A) → (same a b ≡ true) ↔ (a ≡ b)) where
  abbrev pub has : List A → A → Bool
  has [] a = false
  has (x ∷ xs) a = same x a || has xs a

  pub has-In : (xs : List A) (a : A) → (has xs a ≡ true) ↔ In a xs
  has-In [] a = ground arith
  has-In (x ∷ xs) a = ground (arith, same_iff x a, has-In xs a)

  abbrev pub add : A → List A → List A
  add a xs = if has xs a then xs else a ∷ xs

  pub has-add : (a b : A) (xs : List A) → (has (add a xs) b ≡ true) ↔ ((a ≡ b) ⊎ (has xs b ≡ true))
  has-add a b xs = ground (arith, same_iff a b)

  abbrev pub list_set : HashSet A
  list_set = record {
    Set = List A;
    empty = [];
    insert = add;
    contains = has;
    elements = λ xs. xs;
    contains-empty = λ a. refl;
    contains-insert = has-add;
    contains-elements = has-In;
  }

module _ {K V : Type 0} (same : K → K → Bool)
    (same_iff : (a b : K) → (same a b ≡ true) ↔ (a ≡ b)) where
  abbrev pub lookup : List (K × V) → K → Option V
  lookup [] k = none
  lookup ((j, v) ∷ m) k = if same j k then some v else lookup m k

  abbrev pub without : K → List (K × V) → List (K × V)
  without k [] = []
  without k ((j, v) ∷ m) = if same j k then without k m else (j, v) ∷ without k m

  -- the pairs that no later assignment hides
  abbrev pub visible : List (K × V) → List (K × V)
  visible [] = []
  visible ((k, v) ∷ m) = (k, v) ∷ without k (visible m)

  In-without :
      (j k : K) (v : V) (m : List (K × V)) → In (k, v) (without j m) ↔ (In (k, v) m × (j ≢ k))
  In-without j k v [] = ground arith
  In-without j k v ((i, u) ∷ m) = ground (arith, same_iff i j, In-without j k v m)

  pub lookup-visible :
      (m : List (K × V)) (k : K) (v : V) → (lookup m k ≡ some v) ↔ In (k, v) (visible m)
  lookup-visible [] k v = ground arith
  lookup-visible ((j, u) ∷ m) k v =
      ground (arith, same_iff j k, In-without j k v (visible m), lookup-visible m k v)

  pub lookup-put : (k : K) (v : V) (m : List (K × V)) → lookup ((k, v) ∷ m) k ≡ some v
  lookup-put k v m = ground (arith, same_iff k k)

  pub lookup-put_ne :
      (j k : K) (v : V) (m : List (K × V)) → j ≢ k → lookup ((j, v) ∷ m) k ≡ lookup m k
  lookup-put_ne j k v m ne = ground (arith, same_iff j k)

  abbrev pub list_map : HashMap K V
  list_map = record {
    Map = List (K × V);
    empty = [];
    find = lookup;
    put = λ k v m. (k, v) ∷ m;
    entries = visible;
    same_key = same;
    same_key_iff = same_iff;
    find-empty = λ k. refl;
    find-put = lookup-put;
    find-put_ne = lookup-put_ne;
    find-entries = lookup-visible;
  }
