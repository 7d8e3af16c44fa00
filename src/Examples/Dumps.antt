-- ===== src/Examples/Dumps.antt =====
-- The debug dumps.
use tamara.Util.Dump.{generate_random_hex, dump_async}
use Prim.Native.Nat.{◌%◌}
use tamara.Util.Names.{to_string}
use tamara.Common.{refl, ◌≡◌, false, ok, ℕ, none}

-- every draw is the remainder of its number
abbrev counter : ℕ → ℕ
counter i = i % 16

random_text : generate_random_hex counter 18 ≡ "0123456789abcdef01"
unfolding generate_random_hex to_string
random_text = refl

no_dump : dump_async (λ _. false) "17" "top" "src/util.cpp" "wire" 3 ≡ ok none
unfolding dump_async
no_dump = refl
