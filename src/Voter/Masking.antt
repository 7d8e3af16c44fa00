-- ===== src/Voter/Masking.antt =====
-- Several calls of `VoterBuilder::build` and then `finalise`, as the command makes them: what all
-- the voters of a module do together.
use tamara.Common.{
  false, true, ℕ, ◌≡◌, Bool, List, ◌<◌, In, Result, Yields, any_of, arith, length, not, ◌++◌, ◌∷◌,
  ◌≢◌, ◌≤◌, ◌⊎◌, [], ap, ap₂, ok, yields, ◌&&◌, ◌+◌, and_then, length-append, seq, suc, ◌||◌, inl,
  refl, some, weaken, zero, ⊎_elim, inr, subst, ◌∙◌, sym,
}
use tamara.Rtlil.Kernel.{Kernel}
use tamara.Rtlil.Circuit.{Circuit}
use tamara.Voter.{VoterBuilder, build, finalise, new_builder}
use tamara.Voter.Bit.{majority, disagree}
use tamara.Voter.Bits.{any_from}
use tamara.Voter.Build.{Voter, build-Voter}
use tamara.Voter.Gates.{IsBit}
use tamara.Voter.Finalise.{finalise-any, AllBits, any_set}

-- of three copies of a right bit, one is wrong at most
abbrev pub OneUpset : Bool → Bool → Bool → Bool → Type 0
OneUpset right a b c =
    ((a ≡ right) × (b ≡ right)) ⊎ ((a ≡ right) × (c ≡ right)) ⊎ ((b ≡ right) × (c ≡ right))

-- some copy is wrong
abbrev pub wrong : Bool → Bool → Bool → Bool → Bool
wrong true a b c = not (a && b && c)
wrong false a b c = a || b || c

majority-masks : (right a b c : Bool) → OneUpset right a b c → majority a b c ≡ right
majority-masks right a b c h = ground arith

disagree-wrong : (right a b c : Bool) → OneUpset right a b c → disagree a b c ≡ wrong right a b c
disagree-wrong right a b c h = ground arith

any_from-same :
    (f g : ℕ → Bool) (from n : ℕ)
    → ((i : ℕ) → from ≤ i → i < from + n → f i ≡ g i)
    → any_from f from n ≡ any_from g from n
any_from-same f g from zero same = refl
any_from-same f g from (suc n) same =
    ap₂ ◌||◌ (same from (omega arith) (omega arith))
      (any_from-same f g (from + 1) n (λ i lo hi. same i (omega arith) (omega arith)))

module _ (k : Kernel) where
  open k use {Wire, Module, width}

  -- three copies, the wire that is to hold their vote, and the value that they are copies of
  pub record Vote : Type 0 where
    pub a : Wire
    pub b : Wire
    pub c : Wire
    pub out : Wire
    pub right : ℕ → Bool

  abbrev pub IsSameWidth : Vote → Type 0
  IsSameWidth t =
      (width t.b ≡ width t.a)
      × (width t.c ≡ width t.a)
      × (width t.out ≡ width t.a)
      × (0 < width t.a)

  abbrev pub AllSameWidth : List Vote → Type 0
  AllSameWidth [] = Unit {0}
  AllSameWidth (t ∷ ts) = IsSameWidth t × AllSameWidth ts

  -- one call of `build` after the other
  abbrev pub build_all : List Vote → VoterBuilder k → Module → Result (VoterBuilder k × Module)
  build_all [] builder m = ok (builder, m)
  build_all (t ∷ ts) builder m =
      and_then (build k builder (some t.a) (some t.b) (some t.c) (some t.out) m)
        (λ builder' m'. build_all ts builder' m')

module _ (k : Kernel) (s : Circuit k) (v : Kernel.Wire k → ℕ → Bool) where
  open k use {Wire, Module, width}
  open s use {Allows}

  abbrev IsVoted : Vote k → Type 0
  IsVoted t = (i : ℕ) → i < width t.a → v t.out i ≡ majority (v t.a i) (v t.b i) (v t.c i)

  abbrev is_disputed : Vote k → Bool
  is_disputed t = any_from (λ i. disagree (v t.a i) (v t.b i) (v t.c i)) 0 (width t.a)

  any_set-snoc :
      (ws : List Wire) (w : Wire) → any_set k s v (ws ++ w ∷ []) ≡ (any_set k s v ws || v w 0)
  any_set-snoc [] w = ground arith
  any_set-snoc (x ∷ ws) w = ground (arith, any_set-snoc ws w)

  AllBits-snoc :
      (ws : List Wire) (w : Wire) → AllBits k s v ws → IsBit k s v w → AllBits k s v (ws ++ w ∷ [])
  AllBits-snoc [] w bits bit = (bit, tt)
  AllBits-snoc (x ∷ ws) w (is, bits) bit = (is, AllBits-snoc ws w bits bit)

  -- the value of each copy, but for one at most
  abbrev pub IsUpset : Vote k → Type 0
  IsUpset t = (i : ℕ) → i < width t.a → OneUpset (t.right i) (v t.a i) (v t.b i) (v t.c i)

  abbrev pub AllOneUpset : List (Vote k) → Type 0
  AllOneUpset ts = (t : Vote k) → In t ts → IsUpset t

  abbrev pub Masked : List (Vote k) → Type 0
  Masked ts = (t : Vote k) → In t ts → (i : ℕ) → i < width t.a → v t.out i ≡ t.right i

  abbrev pub is_wrong : Vote k → Bool
  is_wrong t = any_from (λ i. wrong (t.right i) (v t.a i) (v t.b i) (v t.c i)) 0 (width t.a)

  disputed-wrong :
      (ts : List (Vote k)) → AllOneUpset ts → any_of is_disputed ts ≡ any_of is_wrong ts
  disputed-wrong [] upsets = refl
  disputed-wrong (t ∷ ts) upsets =
      ap₂ ◌||◌
        (any_from-same _ _ 0 (width t.a)
          (λ i lo hi. disagree-wrong _ _ _ _ (upsets t (inl refl) i (omega (arith, hi)))))
        (disputed-wrong ts (λ x at. upsets x (inr at)))

  -- what the calls of `build` have done so far
  record Built (ts : List (Vote k)) (old : VoterBuilder k) (m : Module) (new : VoterBuilder k)
      (m' : Module) : Type 0 where
    pub counted : length new.reductions ≡ length old.reductions + length ts
    pub bits : AllBits k s v new.reductions
    pub before : Allows m' v → Allows m v
    pub votes : Allows m' v → (t : Vote k) → In t ts → IsVoted t
    pub reports :
        Allows m' v
        → any_set k s v new.reductions ≡ (any_set k s v old.reductions || any_of is_disputed ts)

  first-Built :
      (t : Vote k) (ts : List (Vote k)) (old : VoterBuilder k) (m : Module) (mid : VoterBuilder k)
      (m1 : Module) (new : VoterBuilder k) (m' : Module)
      → Voter k s v t.a t.b t.c t.out old m mid m1
      → Built ts mid m1 new m'
      → Built (t ∷ ts) old m new m'
  first-Built t ts old m mid m1 new m' voter rest = record {
    counted = omega (
      arith,
      rest.counted,
      ap length voter.reported,
      length-append old.reductions (voter.report ∷ []),
    );
    bits = rest.bits;
    before = λ allowed. voter.before (rest.before allowed);
    votes = λ allowed x at.
        ⊎_elim (λ e. subst IsVoted e (voter.votes (rest.before allowed)))
          (λ later. rest.votes allowed x later) at;
    reports = λ allowed.
        let now = voter.reports (rest.before allowed) in
        let more = ap (any_set k s v) voter.reported ∙ any_set-snoc old.reductions voter.report in
        ground (arith, rest.reports allowed, more, now);
  }

  build_all-Built :
      (ts : List (Vote k)) (old : VoterBuilder k) (m : Module)
      → AllSameWidth k ts
      → AllBits k s v old.reductions
      → Yields (Built ts old m) (build_all k ts old m)
  build_all-Built [] old m wide bits = yields (record {
    counted = omega arith;
    bits = bits;
    before = λ allowed. allowed;
    votes = λ allowed t at. absurd at;
    reports = λ allowed. ground arith;
  })
  build_all-Built (t ∷ ts) old m ((b, c, out, pos), wide) bits =
      seq (build-Voter k s v t.a t.b t.c t.out old m b c out pos) (λ mid m1 voter.
        weaken
          (build_all-Built ts mid m1 wide
            (subst (AllBits k s v) (sym voter.reported) (AllBits-snoc _ _ bits voter.bit)))
          (λ new m' rest. first-Built t ts old m mid m1 new m' voter rest))

  reports-some :
      (ts : List (Vote k)) (builder : VoterBuilder k) (m m1 : Module)
      → ts ≢ []
      → Built ts (new_builder k) m builder m1
      → builder.reductions ≢ []
  reports-some [] builder m m1 some_vote built none_there = some_vote refl
  reports-some (t ∷ ts) builder m m1 some_vote built none_there =
      absurd (omega (arith, built.counted, ap length none_there))

  -- The voters of a module mask what goes wrong in one copy of three. With a list of votes, each
  -- over four wires of one positive width, and with an error signal of one bit, the calls of
  -- `build` and the call of `finalise` after them succeed if there is a vote at all. If on each bit
  -- of each vote at most one copy is not the right value, then whatever the netlist allows has the
  -- right value on each bit of each output, and has the error signal set exactly if some copy is
  -- wrong on some bit.
  pub finalise-masks :
      (ts : List (Vote k)) (error : Wire) (m : Module)
      → ts ≢ []
      → AllSameWidth k ts
      → width error ≡ 1
      → AllOneUpset ts
      → Yields
          (λ _ m'. Allows m' v → Allows m v × Masked ts × (v error 0 ≡ any_of is_wrong ts))
          (and_then (build_all k ts (new_builder k) m) (λ builder m1. finalise k builder error m1))
  finalise-masks ts error m some_vote wide bit upsets =
      seq (build_all-Built ts (new_builder k) m wide tt) (λ builder m1 built.
        weaken
          (finalise-any k s v builder error m1 bit (reports-some ts builder m m1 some_vote built)
            built.bits)
          (λ _ m' joined allowed.
            let (x, e) = joined allowed in
            (
              built.before x,
              λ t at i hi. built.votes x t at i hi ∙ majority-masks _ _ _ _ (upsets t at i hi),
              e ∙ built.reports x ∙ disputed-wrong ts upsets,
            )))
