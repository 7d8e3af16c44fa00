-- ===== src/Util/Names.antt =====
-- The annotations of util.hpp (`ID(x)` is the public name `\x`), `tamaraId` of util.cpp and the
-- decimal digits of `std::to_string`.
pub mod Digits
use Prim.Native.Nat.{◌/◌, ◌%◌}
use tamara.Common.{
  ℕ, zero, suc, ◌≡◌, refl, String, str_append, M, call, pure, ◌>>=◌, ltb, ◌==◌, if◌then◌else◌,
}
use tamara.Rtlil.Kernel.{Kernel}

abbrev pub ignore_annotation : String
ignore_annotation = "\\tamara_ignore"

abbrev pub cone_annotation : String
cone_annotation = "\\tamara_cone"

abbrev pub original_annotation : String
original_annotation = "\\tamara_original"

abbrev pub voter_annotation : String
voter_annotation = "\\tamara_voter"

abbrev pub error_sink_annotation : String
error_sink_annotation = "\\tamara_error_sink"

digit : ℕ → String
digit n =
    if n == 0
    then "0"
    else if n == 1
    then "1"
    else if n == 2
    then "2"
    else if n == 3
    then "3"
    else if n == 4
    then "4"
    else if n == 5
    then "5"
    else if n == 6
    then "6"
    else if n == 7
    then "7"
    else if n == 8
    then "8"
    else "9"

-- the digits of `n`, most significant first, before `rest`; `n + 1` rounds are enough
digits_before : ℕ → ℕ → String → String
digits_before zero n rest = rest
digits_before (suc fuel) n rest =
    let more = digits_before fuel (n / 10) (str_append (digit (n % 10)) rest) in
    if ltb n 10 then str_append (digit n) rest else more

unfoldable pub to_string : ℕ → String
unfolding digit digits_before
to_string n = digits_before (suc n) n ""

to_string-table : str_append (to_string 1907) (to_string 10) ≡ "190710"
unfolding to_string
to_string-table = refl

module _ (k : Kernel) where
  open k use {Module, next_index}

  unfoldable pub tamara_id : String → M Module String
  tamara_id name = do
    index ← call next_index
    pure (str_append (str_append "$tmr$" name) (str_append "$" (to_string index)))
