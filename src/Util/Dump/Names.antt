-- ===== src/Util/Dump/Names.antt =====
-- What `dumpAsync` calls its files, and the texts of `generateColours` and `generateRandomHex`.
use Prim.Native.String.{[] as empty, ◌∷◌ as char_cons}
use text.Mathlib.TextLemmas.{cons-append, nil-append, append-nil, append_assoc}
use tamara.Util.Dump.{
  after_slash, strip_path, colour_at, add_colours, generate_colours, Environment, colour_option,
  cone_colours,
}
use tamara.Common.{
  ℕ, suc, ◌+◌, List, String, ◌∷◌, ◌≡◌, length, none, ok, str_append, ap, if◌then◌else◌, some, [],
  refl, sym, Bool-cases, arith, inl, inr, ◌∙◌,
}

after_slash-join :
    (dir name : String)
    → after_slash name ≡ none
    → after_slash (str_append dir (str_append "/" name)) ≡ some name
unfolding after_slash
after_slash-join empty name plain =
    rw (nil-append (str_append "/" name), cons-append "/" empty name, nil-append name, plain) refl
after_slash-join (char_cons ch dir) name plain =
    rw (cons-append ch dir (str_append "/" name), after_slash)
      (rw (after_slash-join dir name plain) refl)

-- A file name without a slash is what is left of any path to it, and of itself.
strip_path-join :
    (dir name : String)
    → after_slash name ≡ none
    → (strip_path (str_append dir (str_append "/" name)) ≡ name) × (strip_path name ≡ name)
unfolding strip_path
strip_path-join dir name plain =
    (rw (strip_path, after_slash-join dir name plain) refl, rw (strip_path, plain) refl)

-- one option per colour, with the number of the cone
abbrev pub colour_options : List String → ℕ → String
colour_options [] i = ""
colour_options (c ∷ cs) i = str_append (colour_option c i) (colour_options cs (i + 1))

add_colours-next :
    (colours : List String) (c : String) (i left : ℕ) (text : String)
    → colour_at colours i ≡ ok c
    → add_colours colours i (suc left) text
      ≡ add_colours colours (i + 1) left (str_append text (colour_option c i))
unfolding add_colours
add_colours-next colours c i left text now = rw (now, add_colours) refl

add_colours-options :
    (colours rest : List String) (i : ℕ) (text : String)
    → ((k : ℕ) → colour_at colours (i + k) ≡ colour_at rest k)
    → add_colours colours i (length rest) text ≡ ok (str_append text (colour_options rest i))
unfolding add_colours
add_colours-options colours [] i text here = ap ok (sym (append-nil text))
add_colours-options colours (c ∷ rest) i text here =
    add_colours-next colours c i (length rest) text (ap (colour_at colours) (omega arith) ∙ here 0)
    ∙ add_colours-options colours rest (i + 1) (str_append text (colour_option c i))
        (λ k. ap (colour_at colours) (omega arith) ∙ here (suc k))
    ∙ ap ok (append_assoc text (colour_option c i) (colour_options rest (i + 1)))

-- `generate_colours` never reads past the array: it gives a blank if the colours are disabled, and
-- else the options of all eight colours in order, each with its own cone number.
generate_colours-options :
    (set : Environment)
    → generate_colours set
      ≡ ok (if set "TAMARA_DISABLE_CONE_COLOURS" then " " else colour_options cone_colours 0)
unfolding generate_colours
generate_colours-options set = elim (Bool-cases (set "TAMARA_DISABLE_CONE_COLOURS")) [
  | inl disabled ↦ rw disabled refl
  | inr enabled ↦ rw enabled (
      add_colours-options cone_colours cone_colours 0 ""
        (λ k. ap (colour_at cone_colours) (omega arith))
      ∙ ap ok (nil-append (colour_options cone_colours 0)))
]
