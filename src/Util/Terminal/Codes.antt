-- ===== src/Util/Terminal/Codes.antt =====
-- The escape sequences of `colour`.
use text.Mathlib.TextLemmas.{append_cancel_left, append_cancel_right}
use tamara.Util.Terminal.{Colour, colour, colour_code}
use tamara.Util.Names.{to_string}
use tamara.Util.Names.Digits.{stol, stol-to_string}
use tamara.Common.{
  ℕ, false, if◌then◌else◌, ◌≡◌, some, true, ◌<◌, ◌==◌, arith, some_injective, refl, sym, ◌∙◌, ap,
}

colour_of : ℕ → Colour
colour_of n =
    if n == 30
    then Colour.black
    else if n == 31
    then Colour.red
    else if n == 32
    then Colour.green
    else if n == 33
    then Colour.yellow
    else if n == 34
    then Colour.blue
    else if n == 35
    then Colour.magenta
    else if n == 36
    then Colour.cyan
    else if n == 37
    then Colour.white
    else Colour.reset_all

colour_of-colour_code : (c : Colour) → (colour_of (colour_code c) ≡ c) × (colour_code c < 38)
unfolding colour_of
colour_of-colour_code Colour.black = (refl, omega arith)
colour_of-colour_code Colour.red = (refl, omega arith)
colour_of-colour_code Colour.green = (refl, omega arith)
colour_of-colour_code Colour.yellow = (refl, omega arith)
colour_of-colour_code Colour.blue = (refl, omega arith)
colour_of-colour_code Colour.magenta = (refl, omega arith)
colour_of-colour_code Colour.cyan = (refl, omega arith)
colour_of-colour_code Colour.white = (refl, omega arith)
colour_of-colour_code Colour.reset_all = (refl, omega arith)

code_read : (c : Colour) → stol (to_string (colour_code c)) ≡ some (colour_code c)
code_read c = stol-to_string (colour_code c) (omega (arith, (colour_of-colour_code c).1))

-- No colour is written where the output is no terminal. On a terminal, two colours with the same
-- escape sequence are the same colour.
colour_injective : (c d : Colour) → (colour false c ≡ "") × (colour true c ≡ colour true d → c ≡ d)
unfolding colour
colour_injective c d = (
  refl,
  λ same.
      let digits =
        append_cancel_left "\u{1b}[1;" (to_string (colour_code c)) (to_string (colour_code d))
          (append_cancel_right _ _ "m" same) in
      let codes = some_injective (sym (code_read c) ∙ ap stol digits ∙ code_read d) in
      sym (colour_of-colour_code c).0 ∙ ap colour_of codes ∙ (colour_of-colour_code d).0,
)
