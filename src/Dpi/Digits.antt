-- ===== src/Dpi/Digits.antt =====
-- `%x`, `%04x` and its like, hex.EncodeToString, and join16 and join8 of internal/dpi/dpi.go.
use netprobe_ir.Prelude.{
  zero, suc, ltb, if◌then◌else◌, ℕ, Bytes, ◌+◌, ◌/◌, ◌%◌, ◌∷◌, [], ◌++◌, List, join, map, decimal,
  codes,
}

abbrev pub hex_digit : ℕ → ℕ
hex_digit n = if ltb n 10 then 48 + n else 87 + n

hex_loop : ℕ → ℕ → Bytes
hex_loop zero n = []
hex_loop (suc fuel) n =
    let rest = hex_loop fuel (n / 16) in
    if ltb n 16 then hex_digit n ∷ [] else rest ++ hex_digit (n % 16) ∷ []

-- `%x` of a number of 16 bits, which has at most four digits
unfoldable pub hex : ℕ → Bytes
unfolding hex_loop
hex n = hex_loop 4 n

-- `%04x` and its like, of a number of at most so many digits
unfoldable pub hex_fixed : ℕ → ℕ → Bytes
hex_fixed zero n = []
hex_fixed (suc width) n = hex_fixed width (n / 16) ++ hex_digit (n % 16) ∷ []

-- hex.EncodeToString
unfoldable pub hex_text : Bytes → Bytes
unfolding hex_fixed
hex_text [] = []
hex_text (b ∷ bs) = hex_fixed 2 b ++ hex_text bs

-- `%02d` of a number below 100
abbrev pub two_digits : ℕ → Bytes
two_digits n = (48 + n / 10) ∷ (48 + n % 10) ∷ []

abbrev pub join16 : List ℕ → Bytes
join16 v = join (codes "-") (map decimal v)
