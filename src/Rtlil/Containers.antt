-- ===== src/Rtlil/Containers.antt =====
-- The containers of include/ankerl/unordered_dense.hpp, as the plugin uses them.
use tamara.Common.{◌≡◌, ◌↔◌, ◌⊎◌, ◌≢◌, Bool, true, false, Option, none, some, List, In}

-- `ankerl::unordered_dense::set<A>`
pub record HashSet (A : Type 0) : Type 1 where
  pub Set : Type 0
  pub empty : Set
  pub insert : A → Set → Set
  pub contains : Set → A → Bool
  -- the elements in the order of iteration
  pub elements : Set → List A
  pub contains-empty : (a : A) → contains empty a ≡ false
  pub contains-insert :
      (a b : A) (s : Set) → (contains (insert a s) b ≡ true) ↔ ((a ≡ b) ⊎ (contains s b ≡ true))
  pub contains-elements : (s : Set) (a : A) → (contains s a ≡ true) ↔ In a (elements s)

-- `ankerl::unordered_dense::map<K, V>`; `put` is an assignment to `map[key]`.
pub record HashMap (K V : Type 0) : Type 1 where
  pub Map : Type 0
  pub empty : Map
  pub find : Map → K → Option V
  pub put : K → V → Map → Map
  -- the pairs in the order of iteration
  pub entries : Map → List (K × V)
  pub same_key : K → K → Bool
  pub same_key_iff : (j k : K) → (same_key j k ≡ true) ↔ (j ≡ k)
  pub find-empty : (k : K) → find empty k ≡ none
  pub find-put : (k : K) (v : V) (m : Map) → find (put k v m) k ≡ some v
  pub find-put_ne : (j k : K) (v : V) (m : Map) → j ≢ k → find (put j v m) k ≡ find m k
  pub find-entries : (m : Map) (k : K) (v : V) → (find m k ≡ some v) ↔ In (k, v) (entries m)
