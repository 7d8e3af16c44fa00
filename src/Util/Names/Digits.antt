-- ===== src/Util/Names/Digits.antt =====
-- `std::stol`, which reads back what `std::to_string` prints.
use Prim.Native.Nat.{◌/◌, ◌%◌, ◌^◌}
use Prim.Native.Char.{code, Char}
use Prim.Native.String.{[], ◌∷◌}
use text.Mathlib.TextLemmas.{cons-append, nil-append}
use tamara.Util.Names.{digit, digits_before, to_string}
use tamara.Common.{
  ℕ, zero, suc, ◌+◌, ◌-◌, ◌*◌, ◌<◌, ◌≡◌, refl, ap, ◌∙◌, String, str_append, Bool, true, ◌&&◌, ◌||◌,
  ltb, ◌==◌, if◌then◌else◌, arith, Option, none, some, Bool-cases, inl, inr, ltb→lt, subst,
  ltb-false,
}

abbrev is_digit : ℕ → Bool
is_digit c = ltb 47 c && ltb c 58

-- white space in the C locale
abbrev is_space : ℕ → Bool
is_space c = c == 32 || (ltb 8 c && ltb c 14)

-- the number of the first character, 0 in an empty text
abbrev first : String → ℕ
first [] = 0
first (ch ∷ rest) = code ch

skip_spaces : String → String
skip_spaces [] = []
skip_spaces (ch ∷ rest) =
    let more = skip_spaces rest in if is_space (code ch) then more else ch ∷ rest

abbrev after_plus : String → String
after_plus [] = []
after_plus (ch ∷ rest) = if code ch == 43 then rest else ch ∷ rest

-- the digits up to the first other character, behind `n`
scan : String → ℕ → ℕ
scan [] n = n
scan (ch ∷ rest) n =
    let more = scan rest (n * 10 + (code ch - 48)) in if is_digit (code ch) then more else n

-- `std::stol` on a `long` of 64 bits. `none` is an exception or a negative number.
unfoldable pub stol : String → Option ℕ
unfolding skip_spaces scan
stol text =
    let digits = after_plus (skip_spaces text) in
    let n = scan digits 0 in if is_digit (first digits) && ltb n (2 ^ 63) then some n else none

stol-table : stol " +12px" ≡ some 12
unfolding stol
stol-table = refl

-- one digit at the head
scan-one :
    (ch : Char) (n : ℕ) (rest : String)
    → is_digit (code ch) ≡ true
    → (scan (str_append (ch ∷ []) rest) n ≡ scan rest (n * 10 + (code ch - 48)))
      × (first (str_append (ch ∷ []) rest) ≡ code ch)
unfolding scan
scan-one ch n rest h = rw (cons-append ch [] rest, nil-append rest) (rw h refl, refl)

IsDigits : String → String → ℕ → ℕ → Type 0
IsDigits text rest n m = (scan text n ≡ scan rest m) × (is_digit (first text) ≡ true)

scanned :
    (ch : Char) (n d : ℕ) (rest : String)
    → is_digit (code ch) ≡ true
    → code ch - 48 ≡ d
    → IsDigits (str_append (ch ∷ []) rest) rest n (n * 10 + d)
unfolding IsDigits
scanned ch n d rest h e =
    let (scans, head) = scan-one ch n rest h in
    (scans ∙ ap (λ x. scan rest (n * 10 + x)) e, ap is_digit head ∙ h)

digit-IsDigits :
    (d n : ℕ) (rest : String) → d < 10 → IsDigits (str_append (digit d) rest) rest n (n * 10 + d)
unfolding digit
digit-IsDigits zero n rest h = scanned "0" n 0 rest refl refl
digit-IsDigits (suc zero) n rest h = scanned "1" n 1 rest refl refl
digit-IsDigits (suc (suc zero)) n rest h = scanned "2" n 2 rest refl refl
digit-IsDigits (suc (suc (suc zero))) n rest h = scanned "3" n 3 rest refl refl
digit-IsDigits (suc (suc (suc (suc zero)))) n rest h = scanned "4" n 4 rest refl refl
digit-IsDigits (suc (suc (suc (suc (suc zero))))) n rest h = scanned "5" n 5 rest refl refl
digit-IsDigits (suc (suc (suc (suc (suc (suc zero)))))) n rest h = scanned "6" n 6 rest refl refl
digit-IsDigits (suc (suc (suc (suc (suc (suc (suc zero))))))) n rest h =
    scanned "7" n 7 rest refl refl
digit-IsDigits (suc (suc (suc (suc (suc (suc (suc (suc zero)))))))) n rest h =
    scanned "8" n 8 rest refl refl
digit-IsDigits (suc (suc (suc (suc (suc (suc (suc (suc (suc zero))))))))) n rest h =
    scanned "9" n 9 rest refl refl
digit-IsDigits (suc (suc (suc (suc (suc (suc (suc (suc (suc (suc d)))))))))) n rest h =
    absurd (omega arith)

digits_before-IsDigits :
    (fuel n : ℕ) (rest : String) → n < fuel → IsDigits (digits_before fuel n rest) rest 0 n
unfolding digits_before IsDigits
digits_before-IsDigits zero n rest h = absurd (omega arith)
digits_before-IsDigits (suc fuel) n rest h = elim (Bool-cases (ltb n 10)) [
  | inl small ↦ rw small (
      subst (λ m. IsDigits (str_append (digit n) rest) rest 0 m) (omega arith)
        (digit-IsDigits n 0 rest (ltb→lt n 10 small)))
  | inr large ↦
      let (scans, head) =
        digits_before-IsDigits fuel (n / 10) (str_append (digit (n % 10)) rest)
          (omega (arith, ltb-false n 10 large)) in
      let (last, _) = digit-IsDigits (n % 10) (n / 10) rest (omega arith) in
      rw large (scans ∙ last ∙ ap (scan rest) (omega arith), head)
]

-- a text that starts with a digit has no white space and no sign to pass over
unsigned : (text : String) → is_digit (first text) ≡ true → after_plus (skip_spaces text) ≡ text
unfolding skip_spaces
unsigned [] h = refl
unsigned (ch ∷ rest) h = ground arith

-- A number below 2 ^ 63 is read back from its decimal digits.
pub stol-to_string : (n : ℕ) → n < 2 ^ 63 → stol (to_string n) ≡ some n
unfolding stol to_string scan IsDigits
stol-to_string n fits =
    let (scans, head) = digits_before-IsDigits (suc n) n "" (omega arith) in
    rw (unsigned (to_string n) head, scans, head) (ground arith)
