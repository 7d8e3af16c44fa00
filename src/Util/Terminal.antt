-- ===== src/Util/Terminal.antt =====
-- include/tamara/termcolour.hpp: colours of the terminal's text. `isTTY` is the terminal's answer.
pub mod Codes
use tamara.Util.Names.{to_string}
use tamara.Common.{ℕ, String, str_append, Bool, if◌then◌else◌}

-- enum class Colour
pub data Colour : Type 0 where
  black red green yellow blue magenta cyan white reset_all : Colour

abbrev pub colour_code : Colour → ℕ
colour_code Colour.black = 30
colour_code Colour.red = 31
colour_code Colour.green = 32
colour_code Colour.yellow = 33
colour_code Colour.blue = 34
colour_code Colour.magenta = 35
colour_code Colour.cyan = 36
colour_code Colour.white = 37
colour_code Colour.reset_all = 0

-- `colour`
unfoldable pub colour : Bool → Colour → String
colour is_tty c =
    if is_tty then str_append (str_append "\u{1b}[1;" (to_string (colour_code c))) "m" else ""

-- `reset`
unfoldable pub reset : Bool → String
unfolding colour
reset is_tty = colour is_tty Colour.reset_all
