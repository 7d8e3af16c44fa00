-- ===== src/Util/Dump/Hex.antt =====
-- What `generateRandomHex` gives.
use Prim.Native.String.{[] as empty, ◌∷◌ as char_cons, count}
use text.Mathlib.TextLemmas.{length-append, cons-append, nil-append}
use Prim.Native.Char.{code}
use tamara.Util.Dump.{hex_digit, add_hex, generate_random_hex}
use tamara.Util.Names.{to_string}
use tamara.Common.{
  ℕ, zero, suc, ◌+◌, String, ◌<◌, arith, ◌≡◌, str_append, true, refl, Bool, ltb, ◌&&◌, ◌||◌,
}

-- a decimal digit or a letter from a to f
abbrev is_hex : ℕ → Bool
is_hex c = (ltb 47 c && ltb c 58) || (ltb 96 c && ltb c 103)

abbrev pub all_hex : String → Bool
all_hex empty = true
all_hex (char_cons ch rest) = is_hex (code ch) && all_hex rest

all_hex-append :
    (s t : String) → all_hex s ≡ true → all_hex t ≡ true → all_hex (str_append s t) ≡ true
all_hex-append empty t hs ht = rw (nil-append t) ht
all_hex-append (char_cons ch s) t hs ht =
    rw (cons-append ch s t) (ground (arith, all_hex-append s t))

IsHex : String → ℕ → Type 0
IsHex text n = (count text ≡ n) × (all_hex text ≡ true)

hex_digit-IsHex : (n : ℕ) → n < 16 → IsHex (hex_digit n) 1
unfolding to_string IsHex
hex_digit-IsHex zero h = (refl, refl)
hex_digit-IsHex (suc zero) h = (refl, refl)
hex_digit-IsHex (suc (suc zero)) h = (refl, refl)
hex_digit-IsHex (suc (suc (suc zero))) h = (refl, refl)
hex_digit-IsHex (suc (suc (suc (suc zero)))) h = (refl, refl)
hex_digit-IsHex (suc (suc (suc (suc (suc zero))))) h = (refl, refl)
hex_digit-IsHex (suc (suc (suc (suc (suc (suc zero)))))) h = (refl, refl)
hex_digit-IsHex (suc (suc (suc (suc (suc (suc (suc zero))))))) h = (refl, refl)
hex_digit-IsHex (suc (suc (suc (suc (suc (suc (suc (suc zero)))))))) h = (refl, refl)
hex_digit-IsHex (suc (suc (suc (suc (suc (suc (suc (suc (suc zero))))))))) h = (refl, refl)
hex_digit-IsHex (suc (suc (suc (suc (suc (suc (suc (suc (suc (suc zero)))))))))) h = (refl, refl)
hex_digit-IsHex (suc (suc (suc (suc (suc (suc (suc (suc (suc (suc (suc zero))))))))))) h =
    (refl, refl)
hex_digit-IsHex (suc (suc (suc (suc (suc (suc (suc (suc (suc (suc (suc (suc zero)))))))))))) h =
    (refl, refl)
hex_digit-IsHex (suc (suc (suc (suc (suc (suc (suc (suc (suc (suc (suc (suc (suc zero)))))))))))))
      h =
    (refl, refl)
hex_digit-IsHex
      (suc (suc (suc (suc (suc (suc (suc (suc (suc (suc (suc (suc (suc (suc zero)))))))))))))) h =
    (refl, refl)
hex_digit-IsHex
      (suc (suc (suc (suc (suc (suc (suc (suc (suc (suc (suc (suc (suc (suc (suc zero)))))))))))))))
      h =
    (refl, refl)
hex_digit-IsHex
      (suc
        (suc (suc (suc (suc (suc (suc (suc (suc (suc (suc (suc (suc (suc (suc (suc n))))))))))))))))
      h =
    absurd (omega arith)

add_hex-IsHex :
    (draw : ℕ → ℕ) (i left n : ℕ) (text : String)
    → ((k : ℕ) → draw k < 16)
    → IsHex text n
    → IsHex (add_hex draw i left text) (n + left)
unfolding add_hex IsHex
add_hex-IsHex draw i zero n text drawn (counted, hex) = (omega (arith, counted), hex)
add_hex-IsHex draw i (suc left) n text drawn (counted, hex) =
    let (one, digit) = hex_digit-IsHex (draw i) (drawn i) in
    let next = str_append text (hex_digit (draw i)) in
    let (total, all) = add_hex-IsHex draw (i + 1) left (n + 1) next drawn (
      omega (arith, length-append text (hex_digit (draw i)), one, counted),
      all_hex-append text (hex_digit (draw i)) hex digit,
    ) in
    (omega (arith, total), all)

-- If the generator draws numbers below 16, then `generate_random_hex len` has `len` characters, and
-- all of them are hexadecimal digits.
generate_random_hex-length :
    (draw : ℕ → ℕ) (len : ℕ)
    → ((k : ℕ) → draw k < 16)
    → (count (generate_random_hex draw len) ≡ len) × (all_hex (generate_random_hex draw len) ≡ true)
unfolding generate_random_hex IsHex
generate_random_hex-length draw len drawn =
    let (counted, all) = add_hex-IsHex draw 0 len 0 "" drawn (refl, refl) in
    (omega (arith, counted), all)
