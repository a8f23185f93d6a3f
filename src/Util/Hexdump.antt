-- ===== src/Util/Hexdump.antt =====
-- hexdump of src/util.c, with the characters that it writes through its pointer as a list.
pub mod Reading
use dumphfdl.Common.{
  ℕ, zero, suc, ◌+◌, ◌-◌, ◌*◌, ◌/◌, ◌%◌, ◌^◌, ◌||◌, Option, none, some, ◌>>=◌, List, [], ◌∷◌, ◌++◌,
  length, get_elem?, ◌==◌, ltb, if◌then◌else◌,
}

-- hex[d] for a digit.
abbrev pub lower_digit : ℕ → ℕ
lower_digit d = if ltb d 10 then b'0' + d else b'a' + (d - 10)

-- A space after the eighth column.
abbrev pub gap : ℕ → List ℕ
gap column = if column == 7 then b' ' ∷ [] else []

-- The two digits of an octet, or two spaces past the end, and a space.
abbrev pub hex_cell : Option ℕ → List ℕ
hex_cell none = b' ' ∷ b' ' ∷ b' ' ∷ []
hex_cell (some d) = lower_digit (d / 2 ^ 4 % 2 ^ 4) ∷ lower_digit (d % 2 ^ 4) ∷ b' ' ∷ []

abbrev pub char_cell : Option ℕ → List ℕ
char_cell none = b' ' ∷ []
char_cell (some d) = if ltb d 32 || ltb 126 d then b'.' ∷ [] else d ∷ []

-- The inner loops of a row, with the rounds left: `i` is the start of the row, `j` is i + column.
unfoldable pub hex_cells : ℕ → List ℕ → ℕ → ℕ → List ℕ
hex_cells zero buf i column = []
hex_cells (suc rounds) buf i column =
    hex_cell (get_elem? buf (i + column)) ++ (gap column ++ hex_cells rounds buf i (suc column))

unfoldable pub char_cells : ℕ → List ℕ → ℕ → ℕ → List ℕ
char_cells zero buf i column = []
char_cells (suc rounds) buf i column =
    char_cell (get_elem? buf (i + column)) ++ (gap column ++ char_cells rounds buf i (suc column))

unfoldable pub row : List ℕ → ℕ → List ℕ
row buf i = hex_cells 16 buf i 0 ++ (b' ' ∷ b'|' ∷ char_cells 16 buf i 0 ++ b'|' ∷ b'\n' ∷ [])

-- The loop over the rows, on fuel.
unfoldable pub rows_loop : ℕ → List ℕ → ℕ → Option (List ℕ)
unfolding row
rows_loop zero buf i = none
rows_loop (suc fuel) buf i =
    let rest = rows_loop fuel buf (i + 16) in
    if ltb i (length buf) then (rest >>= λ out. some (row buf i ++ out)) else some []

-- Rows of 16 octets, the last one perhaps not full.
unfoldable pub rows_of : ℕ → ℕ
rows_of len = if len % 16 == 0 then len / 16 else len / 16 + 1

-- `rows * rowlen + 1`, with room for the terminating zero.
unfoldable pub alloc_size : ℕ → ℕ
unfolding rows_of
alloc_size len = rows_of len * (16 * 2 + 16 + 16 + 10) + 1

-- Fuel enough for an empty rest. A null pointer and no data are texts of their own.
unfoldable pub hexdump : Option (List ℕ) → Option (List ℕ)
unfolding rows_loop
hexdump none = some (b'<' ∷ b'u' ∷ b'n' ∷ b'd' ∷ b'e' ∷ b'f' ∷ b'>' ∷ [])
hexdump (some []) = some (b'<' ∷ b'n' ∷ b'o' ∷ b'n' ∷ b'e' ∷ b'>' ∷ [])
hexdump (some (b ∷ buf)) = rows_loop (suc (length (b ∷ buf))) (b ∷ buf) 0
