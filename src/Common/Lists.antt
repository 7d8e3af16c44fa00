-- ===== src/Common/Lists.antt =====
-- Lists under native lengths, membership and universal predicates by recursion.
use Prim.Native.Nat.{ℕ, suc, ◌+◌}
use mathlib.Core.Path.{◌≡◌, refl, sym, ap, subst}
use mathlib.Core.Logic.{◌⊎◌, inl, inr, ◌↔◌, ⊎_elim}
use mathlib.Core.Bool.{Bool, true, false, ◌||◌}
use mathlib.Core.List.{List, [], ◌∷◌, ◌++◌, foldl}
use native.Mathlib.Omega.{arith}

module _ {ℓ} {A : Type ℓ} where
  abbrev pub length : List A → ℕ
  length [] = 0
  length (_ ∷ xs) = suc (length xs)

  pub length-append : (xs ys : List A) → length (xs ++ ys) ≡ length xs + length ys
  length-append [] ys = omega arith
  length-append (x ∷ xs) ys = omega (arith, length-append xs ys)

  pub append_nil : (xs : List A) → xs ++ [] ≡ xs
  append_nil [] = refl
  append_nil (x ∷ xs) = ap (λ ys. x ∷ ys) (append_nil xs)

  -- the entries that pass a test, in order
  abbrev pub select : (A → Bool) → List A → List A
  select p [] = []
  select p (x ∷ xs) = elim (p x) [ true ↦ x ∷ select p xs | false ↦ select p xs ]

  abbrev pub any_of : (A → Bool) → List A → Bool
  any_of p [] = false
  any_of p (x ∷ xs) = p x || any_of p xs

-- Occurrence of a value; a type by recursion, which the tactics take apart.
abbrev pub In : {A : Type 0} → A → List A → Type 0
In a [] = ⊥
In a (x ∷ xs) = (x ≡ a) ⊎ In a xs

module _ {A : Type 0} where
  pub In-append : (a : A) (xs ys : List A) → In a (xs ++ ys) ↔ (In a xs ⊎ In a ys)
  In-append a [] ys = (inr, λ h. ground arith)
  In-append a (x ∷ xs) ys = ground (arith, In-append a xs ys)

  pub In-snoc : (a x : A) (xs : List A) → In a (xs ++ x ∷ []) ↔ (In a xs ⊎ (x ≡ a))
  In-snoc a x xs = ground (arith, In-append a xs (x ∷ []))

  pub In-select :
      (p : A → Bool) (a : A) (xs : List A) → In a (select p xs) ↔ (In a xs × (p a ≡ true))
  In-select p a [] = ground arith
  In-select p a (x ∷ xs) = ground (arith, In-select p a xs)

  -- What a loop adds up: if each round adds `R x` to `L`, the loop adds `R x` for some `x`.
  pub foldl-adds :
      {S : Type 0} (L : S → Type 0) (R : A → Type 0) (f : S → A → S)
      → ((s : S) (x : A) → L (f s x) ↔ (L s ⊎ R x))
      → (xs : List A) (s : S) → L (foldl f s xs) ↔ (L s ⊎ ((x : A) × In x xs × R x))
  foldl-adds L R f step [] s = (inl, ⊎_elim (λ l. l) (λ (x, member, r). absurd member))
  foldl-adds L R f step (x ∷ xs) s =
      let rest = foldl-adds L R f step xs (f s x) in
      let now = step s x in
      (
        λ h.
            ⊎_elim (λ l. ⊎_elim inl (λ r. inr (x, inl refl, r)) (now.0 l))
              (λ (y, member, r). inr (y, inr member, r)) (rest.0 h),
        ⊎_elim (λ l. rest.1 (inl (now.1 (inl l))))
            (λ (y, member, r).
              ⊎_elim (λ e. rest.1 (inl (now.1 (inr (subst R (sym e) r)))))
                (λ later. rest.1 (inr (y, later, r))) member),
      )

pub List-cases {ℓ} :
    {A : Type ℓ} (xs : List A) → (xs ≡ []) ⊎ ((x : A) × (rest : List A) × (xs ≡ x ∷ rest))
List-cases [] = inl refl
List-cases (x ∷ xs) = inr (x, xs, refl)
