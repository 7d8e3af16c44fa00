-- ===== src/Common/Run.antt =====
-- Failing computations over a state. `log_error` and a failed `log_assert` end Yosys, so each such
-- place of the source is an error value that ends the computation.
use Prim.Native.Nat.{ℕ}
use Prim.Native.String.{String}
use mathlib.Core.Path.{◌≡◌, refl, subst}
use mathlib.Core.Logic.{◌⊎◌, inl, inr}
use mathlib.Core.Bool.{Bool, true, false}
use mathlib.Core.Option.{Option, none, some}

pub data Error : Type 0 where
  -- util.hpp and the C++ library
  unexpected_null : String → Error
  bad_variant_access : Error
  key_not_found : Error
  -- voter_builder.cpp
  input_width_mismatch : Error
  output_width_mismatch : Error
  error_signal_width : String → ℕ → Error
  -- logic_graph.cpp
  not_a_dff : String → Error
  multiple_outputs : String → Error
  no_output_wire : String → Error
  bad_input_node : String → Error
  search_not_fresh : Error
  search_unfinished : Error
  replicated_io : Error
  replicas_of_io : Error
  cut_point_unset : Error
  replica_count : Error
  voter_specs : Error
  -- fix_walker.cpp
  no_partial_name : String → Error
  no_input_port : String → String → Error
  no_output_port : String → String → Error
  bad_rewire_counts : Error
  -- tamara_tmr_pass.cpp
  no_top_module : Error
  duplicate_error_sink : String → Error
  -- tamara_debug.cpp
  no_not_gate : Error
  no_debug_task : Error
  missing_argument : Error
  bad_number : Error
  negative_width : Error
  -- the model's own
  out_of_fuel : Error

pub data Result (A : Type 0) : Type 0 where
  ok : A → Result A
  err : Error → Result A

pub ok_injective : {A : Type 0} {a b : A} → ok a ≡ ok b → a ≡ b
ok_injective e = cc

pub err≢ok : {A : Type 0} {a : A} {e : Error} → Result.err e ≡ ok a → ⊥
err≢ok h = cc

-- A computation on the state `S` with a result `A`.
abbrev pub M : Type 0 → Type 0 → Type 0
M S A = S → Result (A × S)

-- The rest of a computation, which may be on another state.
abbrev pub and_then :
    {S T A B : Type 0} → Result (A × S) → (A → S → Result (B × T)) → Result (B × T)
and_then (ok (a, s)) f = f a s
and_then (err e) f = err e

abbrev pub pure : {S A : Type 0} → A → M S A
pure a s = ok (a, s)

abbrev pub fail : {S A : Type 0} → Error → M S A
fail e s = err e

infixl 5 ◌>>=◌ ◌>>◌
abbrev pub ◌>>=◌ : {S A B : Type 0} → M S A → (A → M S B) → M S B
◌>>=◌ m f s = and_then (m s) f

abbrev pub ◌>>◌ : {S B : Type 0} → M S (Unit {0}) → M S B → M S B
◌>>◌ m k s = and_then (m s) (λ _. k)

-- A call of Yosys that returns a new object, and one that only changes the design.
abbrev pub call : {S A : Type 0} → (S → A × S) → M S A
call f s = ok (f s)

abbrev pub change : {S : Type 0} → (S → S) → M S (Unit {0})
change f s = ok (tt, f s)

-- `log_assert`, and an `if` whose branch ends in `log_error`
abbrev pub require : {S : Type 0} → Bool → Error → M S (Unit {0})
require true e s = ok (tt, s)
require false e s = err e

abbrev pub some_or : {S A : Type 0} → Option A → Error → M S A
some_or none e s = err e
some_or (some a) e s = ok (a, s)

-- Total correctness: the run succeeds, and its result and final state are as `P` says.
pub data Yields {S A : Type 0} (P : A → S → Type 0) : Result (A × S) → Type 0 where
  yields : {a : A} {s : S} → P a s → Yields P (ok (a, s))

abbrev Holds : {S A : Type 0} (P : A → S → Type 0) → Result (A × S) → Type 0
Holds P (ok (a, s)) = P a s
Holds P (err _) = ⊥

module _ {S A : Type 0} {P : A → S → Type 0} where
  pub seq :
      {B : Type 0} {Q : B → S → Type 0} {r : Result (A × S)} {f : A → M S B}
      → Yields P r
      → ((a : A) (s : S) → P a s → Yields Q (f a s))
      → Yields Q (and_then r f)
  seq (yields h) next = next _ _ h

  pub weaken :
      {Q : A → S → Type 0} {r : Result (A × S)}
      → Yields P r
      → ((a : A) (s : S) → P a s → Q a s)
      → Yields Q r
  weaken (yields h) imp = yields (imp _ _ h)

  holds : {r : Result (A × S)} → Yields P r → Holds P r
  holds (yields h) = h

  -- what is known of a run that returned
  pub at_ok : {r : Result (A × S)} {a : A} {s : S} → Yields P r → r ≡ ok (a, s) → P a s
  at_ok y e = subst (Holds P) e (holds y)

pub Yields-runs :
    {S A : Type 0} {P : A → S → Type 0} {r : Result (A × S)}
    → Yields P r
    → (a : A) × (s : S) × (r ≡ ok (a, s)) × P a s
Yields-runs (yields h) = (_, _, refl, h)

-- a run that succeeds and then ends in the same way, whatever its result
pub Yields-then :
    {S T A B : Type 0} {P : A → S → Type 0} {r : Result (A × S)} {f : A → S → Result (B × T)}
    {end : Result (B × T)}
    → Yields P r
    → ((a : A) (s : S) → P a s → f a s ≡ end)
    → and_then r f ≡ end
Yields-then (yields h) next = next _ _ h

-- Partial correctness: what holds if the run succeeds.
pub data IfOk {S A : Type 0} (P : A → S → Type 0) : Result (A × S) → Type 0 where
  succeeds : {a : A} {s : S} → P a s → IfOk P (ok (a, s))
  fails : {e : Error} → IfOk P (err e)

pub IfOk-seq :
    {S T A B : Type 0} {P : A → S → Type 0} {Q : B → T → Type 0} {r : Result (A × S)}
    {f : A → S → Result (B × T)}
    → IfOk P r
    → ((a : A) (s : S) → P a s → IfOk Q (f a s))
    → IfOk Q (and_then r f)
IfOk-seq (succeeds h) next = next _ _ h
IfOk-seq fails next = fails

abbrev HoldsOk : {S A : Type 0} (P : A → S → Type 0) → Result (A × S) → Type 0
HoldsOk P (ok (a, s)) = P a s
HoldsOk P (err _) = Unit {0}

holds_ok : {S A : Type 0} {P : A → S → Type 0} {r : Result (A × S)} → IfOk P r → HoldsOk P r
holds_ok (succeeds h) = h
holds_ok fails = tt

pub IfOk-at :
    {S A : Type 0} {P : A → S → Type 0} {r : Result (A × S)} {a : A} {s : S}
    → IfOk P r
    → r ≡ ok (a, s)
    → P a s
IfOk-at {P = P} h e = subst (HoldsOk P) e (holds_ok h)

pub IfOk-any : {S A : Type 0} (r : Result (A × S)) → IfOk (λ _ _. Unit {0}) r
IfOk-any (ok (a, s)) = succeeds tt
IfOk-any (err e) = fails

pub Yields-IfOk : {S A : Type 0} {P : A → S → Type 0} {r : Result (A × S)} → Yields P r → IfOk P r
Yields-IfOk (yields h) = succeeds h

-- of a run that succeeds it is known what it gave
pub IfOk-itself : {S A : Type 0} (r : Result (A × S)) → IfOk (λ a s. r ≡ ok (a, s)) r
IfOk-itself (ok (a, s)) = succeeds refl
IfOk-itself (err e) = fails

-- and it is known besides what else holds of it
pub IfOk-known :
    {S A : Type 0} {P : A → S → Type 0} {r : Result (A × S)}
    → IfOk P r
    → IfOk (λ a s. P a s × (r ≡ ok (a, s))) r
IfOk-known (succeeds h) = succeeds (h, refl)
IfOk-known fails = fails

pub IfOk-weaken :
    {S A : Type 0} {P Q : A → S → Type 0} {r : Result (A × S)}
    → IfOk P r
    → ((a : A) (s : S) → P a s → Q a s)
    → IfOk Q r
IfOk-weaken (succeeds h) imp = succeeds (imp _ _ h)
IfOk-weaken fails imp = fails

pub Result-cases :
    {A : Type 0} (r : Result A) → ((a : A) × (r ≡ ok a)) ⊎ ((e : Error) × (r ≡ err e))
Result-cases (ok a) = inl (a, refl)
Result-cases (err e) = inr (e, refl)
