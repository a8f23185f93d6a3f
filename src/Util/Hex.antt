-- ===== src/Util/Hex.antt =====
-- The addresses that src/util.c and src/ac_data.c print by `%06X`.
use dumphfdl.Common.{ℕ, zero, suc, ◌+◌, ◌-◌, ◌/◌, ◌%◌, ◌^◌, List, [], ◌∷◌, ltb, if◌then◌else◌}

-- Ten and more are the letters from A on.
abbrev pub hex_digit : ℕ → ℕ
hex_digit d = if ltb d 10 then b'0' + d else b'A' + (d - 10)

-- The last n hexadecimal digits.
abbrev pub hex_digits : ℕ → ℕ → List ℕ
hex_digits zero n = []
hex_digits (suc k) n = hex_digit (n / 16 ^ k % 16) ∷ hex_digits k n

-- What printf makes of a uint32_t by %06X: six digits, or as many as it has.
unfoldable pub hex_string : ℕ → List ℕ
hex_string n = hex_digits (if ltb n (2 ^ 24) then 6 else if ltb n (2 ^ 28) then 7 else 8) n
