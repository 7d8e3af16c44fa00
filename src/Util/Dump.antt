-- ===== src/Util/Dump.antt =====
-- The debug dumps of src/util.cpp (`dumpAsync`, `generateColours`, `generateRandomHex`) and the
-- colours of include/tamara/util.hpp. `getenv` is asked only whether a variable is set.
pub mod Names
pub mod Hex
use Prim.Native.Char.{code}
use Prim.Native.String.{[] as empty, ◌∷◌ as char_cons}
use tamara.Util.Names.{to_string}
use tamara.Common.{
  ℕ, zero, suc, ◌+◌, String, str_append, Bool, Option, none, some, List, [], ◌∷◌, Result, ok, err,
  Error, if◌then◌else◌, ◌==◌, length, is_some, not,
}

abbrev pub Environment : Type 0
Environment = String → Bool

-- CONE_COLOURS
abbrev pub cone_colours : List String
cone_colours =
    "darkgreen" ∷ "blue" ∷ "purple" ∷ "coral" ∷ "darkcyan" ∷ "darksalmon" ∷ "mistyrose" ∷ "red" ∷ []

-- `std::array::at`
abbrev colour_at : List String → ℕ → Result String
colour_at [] i = err Error.key_not_found
colour_at (c ∷ cs) zero = ok c
colour_at (c ∷ cs) (suc i) = colour_at cs i

abbrev pub colour_option : String → ℕ → String
colour_option colour i =
    str_append
      (str_append (str_append "-color " colour) (str_append " a:tamara_cone=" (to_string i))) " "

-- the rounds `i`, `i + 1`, … of the loop, `left` of them
unfoldable pub add_colours : List String → ℕ → ℕ → String → Result String
add_colours colours i zero text = ok text
add_colours colours i (suc left) text = elim (colour_at colours i) [
  | err e ↦ err e
  | ok c ↦ add_colours colours (i + 1) left (str_append text (colour_option c i))
]

-- `generateColours`
unfoldable pub generate_colours : Environment → Result String
unfolding add_colours
generate_colours set =
    if set "TAMARA_DISABLE_CONE_COLOURS"
    then ok " "
    else add_colours cone_colours 0 (length cone_colours) ""

-- `file.substr(file.find_last_of('/') + 1)`, and the whole text where there is no slash
unfoldable pub after_slash : String → Option String
after_slash empty = none
after_slash (char_cons ch rest) = elim (after_slash rest) [
  | some name ↦ some name
  | none ↦ if code ch == 47 then some rest else none
]

unfoldable pub strip_path : String → String
unfolding after_slash
strip_path file = elim (after_slash file) [ none ↦ file | some name ↦ name ]

-- the name of the picture; `unique` is the time, in milliseconds
unfoldable pub graph_name : String → String → String → String → ℕ → String
unfolding strip_path
graph_name unique top file function line = str_append "./dump_" (
    str_append unique (
      str_append "_" (
        str_append top (
          str_append "_@_" (
            str_append (strip_path file)
              (str_append ":" (str_append function (str_append ":" (to_string line)))))))))

-- `dumpAsync`: the command that Yosys runs and the file that is removed then, if there is a dump
unfoldable pub dump_async :
    Environment → String → String → String → String → ℕ → Result (Option (String × String))
unfolding generate_colours graph_name
dump_async set unique top file function line =
    if not (set "TAMARA_DEBUG_DUMP_ASYNC") then ok none else elim (generate_colours set) [
      | err e ↦ err e
      | ok colours ↦
          let name = graph_name unique top file function line in
          ok (
            some (
              str_append "show -long -colors 420 -format png "
                  (str_append colours (str_append " -prefix " name)),
              str_append name ".dot",
            ))
    ]

abbrev hex_digit : ℕ → String
hex_digit n =
    if n == 10
    then "a"
    else if n == 11
    then "b"
    else if n == 12
    then "c"
    else if n == 13
    then "d"
    else if n == 14
    then "e"
    else if n == 15
    then "f"
    else to_string n

-- the rounds `i`, `i + 1`, …; `draw` is the stream of the generator, numbers from 0 to 15
unfoldable pub add_hex : (ℕ → ℕ) → ℕ → ℕ → String → String
add_hex draw i zero text = text
add_hex draw i (suc left) text = add_hex draw (i + 1) left (str_append text (hex_digit (draw i)))

-- `generateRandomHex`
unfoldable pub generate_random_hex : (ℕ → ℕ) → ℕ → String
unfolding add_hex
generate_random_hex draw len = add_hex draw 0 len ""
