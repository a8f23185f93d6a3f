-- ===== src/Util/Hexdump/Reading.antt =====
-- What hexdump of src/util.c writes: its length, and the octets that its digits stand for.
use dumphfdl.Common.{
  ℕ, zero, suc, ◌+◌, ◌-◌, ◌*◌, ◌/◌, ◌%◌, ◌^◌, ◌≤◌, ◌<◌, ◌≡◌, ◌∙◌, refl, ap, sym, Option, none, some,
  ◌>>=◌, List, [], ◌∷◌, ◌++◌, length, length-append, get_elem?, get_elem?-lt, ltb, leb, byte_at,
  byte_at-lt, IsOctets, if◌then◌else◌, Bool-cases, inl, inr, arith,
}
use dumphfdl.Util.Hexdump.{
  lower_digit, gap, hex_cell, char_cell, hex_cells, char_cells, row, rows_loop, rows_of, alloc_size,
  hexdump,
}

length-hex_cell : (o : Option ℕ) → length (hex_cell o) ≡ 3
length-hex_cell none = refl
length-hex_cell (some d) = refl

length-char_cell : (o : Option ℕ) → length (char_cell o) ≡ 1
length-char_cell none = refl
length-char_cell (some d) = ground arith

-- What the gap adds to the cells from a column on.
abbrev gap_in : ℕ → ℕ → ℕ
gap_in rounds column = if leb column 7 then (if ltb 7 (column + rounds) then 1 else 0) else 0

length-hex_cells :
    (rounds : ℕ) (buf : List ℕ) (i column : ℕ)
    → length (hex_cells rounds buf i column) ≡ 3 * rounds + gap_in rounds column
unfolding hex_cells
length-hex_cells zero buf i column = ground arith
length-hex_cells (suc rounds) buf i column =
    let c = hex_cell (get_elem? buf (i + column)) in
    let r = hex_cells rounds buf i (suc column) in
    ground (
      arith,
      length-append c (gap column ++ r),
      length-append (gap column) r,
      length-hex_cell (get_elem? buf (i + column)),
      length-hex_cells rounds buf i (suc column),
    )

length-char_cells :
    (rounds : ℕ) (buf : List ℕ) (i column : ℕ)
    → length (char_cells rounds buf i column) ≡ rounds + gap_in rounds column
unfolding char_cells
length-char_cells zero buf i column = ground arith
length-char_cells (suc rounds) buf i column =
    let c = char_cell (get_elem? buf (i + column)) in
    let r = char_cells rounds buf i (suc column) in
    ground (
      arith,
      length-append c (gap column ++ r),
      length-append (gap column) r,
      length-char_cell (get_elem? buf (i + column)),
      length-char_cells rounds buf i (suc column),
    )

length-row : (buf : List ℕ) (i : ℕ) → length (row buf i) ≡ 70
unfolding row
length-row buf i = omega (
  arith,
  length-append (hex_cells 16 buf i 0) (b' ' ∷ b'|' ∷ char_cells 16 buf i 0 ++ b'|' ∷ b'\n' ∷ []),
  length-append (b' ' ∷ b'|' ∷ char_cells 16 buf i 0) (b'|' ∷ b'\n' ∷ []),
  length-hex_cells 16 buf i 0,
  length-char_cells 16 buf i 0,
)

rows_of-none : rows_of 0 ≡ 0
unfolding rows_of
rows_of-none = refl

rows_of-suc : (n : ℕ) → 0 < n → rows_of n ≡ suc (rows_of (n - 16))
unfolding rows_of
rows_of-suc n h = ground (arith, h)

-- Where a row of the output stands.
Stands : List ℕ → List ℕ → ℕ → Type 0
Stands out buf i =
    (r : ℕ)
    → i + 16 * r < length buf
    → (j : ℕ) → j < 70
    → get_elem? out (70 * r + j) ≡ get_elem? (row buf (i + 16 * r)) j

get_elem?-append_left :
    (xs ys : List ℕ) (j : ℕ) → j < length xs → get_elem? (xs ++ ys) j ≡ get_elem? xs j
get_elem?-append_left [] ys j h = elim h [ ]
get_elem?-append_left (x ∷ xs) ys zero h = refl
get_elem?-append_left (x ∷ xs) ys (suc j) h = get_elem?-append_left xs ys j (omega (arith, h))

get_elem?-append_right :
    (xs ys : List ℕ) (j k : ℕ) → k ≡ length xs + j → get_elem? (xs ++ ys) k ≡ get_elem? ys j
get_elem?-append_right [] ys j k e = let e' : k ≡ j = omega (arith, e) in ap (get_elem? ys) e'
get_elem?-append_right (x ∷ xs) ys j zero e = absurd (omega (arith, e))
get_elem?-append_right (x ∷ xs) ys j (suc k) e = get_elem?-append_right xs ys j k (omega (arith, e))

row_then-Stands :
    (buf out : List ℕ) (i : ℕ) → Stands out buf (i + 16) → Stands (row buf i ++ out) buf i
unfolding Stands
row_then-Stands buf out i at zero small j h =
    let e : 70 * 0 + j ≡ j = omega arith in
    let e' : i + 16 * 0 ≡ i = omega arith in
    ap (get_elem? (row buf i ++ out)) e
    ∙ get_elem?-append_left (row buf i) out j (omega (arith, length-row buf i, h))
    ∙ ap (λ k. get_elem? (row buf k) j) (sym e')
row_then-Stands buf out i at (suc r) small j h =
    let e : i + 16 + 16 * r ≡ i + 16 * suc r = omega arith in
    get_elem?-append_right (row buf i) out (70 * r + j) (70 * suc r + j)
      (omega (arith, length-row buf i))
    ∙ at r (omega (arith, small)) j h
    ∙ ap (λ k. get_elem? (row buf k) j) e

length-row_then :
    (buf out : List ℕ) (i : ℕ)
    → i < length buf
    → length out ≡ 70 * rows_of (length buf - (i + 16))
    → length (row buf i ++ out) ≡ 70 * rows_of (length buf - i)
length-row_then buf out i h n =
    let e : length buf - i - 16 ≡ length buf - (i + 16) = omega arith in
    omega (
      arith,
      length-append (row buf i) out,
      length-row buf i,
      rows_of-suc (length buf - i) (omega (arith, h)),
      ap rows_of e,
      n,
    )

rows_loop_lem :
    (fuel : ℕ) (buf : List ℕ) (i : ℕ)
    → i ≤ length buf + 15
    → length buf + 16 ≤ i + 16 * fuel
    → (out : List ℕ) × (rows_loop fuel buf i ≡ some out)
      × (length out ≡ 70 * rows_of (length buf - i))
      × Stands out buf i
unfolding rows_loop Stands
rows_loop_lem zero buf i h0 h = absurd (omega (arith, h0, h))
rows_loop_lem (suc fuel) buf i h0 h = elim (Bool-cases (ltb i (length buf))) [
  | inr past ↦
      let e : length buf - i ≡ 0 = ground (arith, past) in
      rw past (
        [],
        refl,
        omega (arith, ap rows_of e, rows_of-none),
        (λ r small j lt. absurd (ground (arith, past, small))),
      )
  | inl more ↦
      let below : i < length buf = ground (arith, more) in
      let (out, e, n, at) =
        rows_loop_lem fuel buf (i + 16) (omega (arith, below)) (omega (arith, h)) in
      rw (more, e)
        (row buf i ++ out, refl, length-row_then buf out i below n, row_then-Stands buf out i at)
]

hex_cells-at :
    (rounds : ℕ) (buf : List ℕ) (i column c t : ℕ)
    → c < rounds
    → t < 3
    → get_elem? (hex_cells rounds buf i column) (3 * c + gap_in c column + t)
      ≡ get_elem? (hex_cell (get_elem? buf (i + (column + c)))) t
unfolding hex_cells
hex_cells-at zero buf i column c t h ht = absurd (omega (arith, h))
hex_cells-at (suc rounds) buf i column zero t h ht =
    let cell = hex_cell (get_elem? buf (i + column)) in
    let rest = gap column ++ hex_cells rounds buf i (suc column) in
    let e : 3 * 0 + gap_in 0 column + t ≡ t = ground arith in
    let e' : i + column ≡ i + (column + 0) = omega arith in
    ap (get_elem? (cell ++ rest)) e
    ∙ get_elem?-append_left cell rest t
        (omega (arith, length-hex_cell (get_elem? buf (i + column)), ht))
    ∙ ap (λ k. get_elem? (hex_cell (get_elem? buf k)) t) e'
hex_cells-at (suc rounds) buf i column (suc c) t h ht =
    let cell = hex_cell (get_elem? buf (i + column)) in
    let cells = hex_cells rounds buf i (suc column) in
    let k = 3 * c + gap_in c (suc column) + t in
    let e' : i + (suc column + c) ≡ i + (column + suc c) = omega arith in
    get_elem?-append_right cell (gap column ++ cells) (length (gap column) + k)
      (3 * suc c + gap_in (suc c) column + t)
      (ground (arith, length-hex_cell (get_elem? buf (i + column))))
    ∙ get_elem?-append_right (gap column) cells k (length (gap column) + k) refl
    ∙ hex_cells-at rounds buf i (suc column) c t (omega (arith, h)) ht
    ∙ ap (λ n. get_elem? (hex_cell (get_elem? buf n)) t) e'

row-at :
    (buf : List ℕ) (i c t : ℕ)
    → c < 16
    → t < 3
    → get_elem? (row buf i) (3 * c + gap_in c 0 + t)
      ≡ get_elem? (hex_cell (get_elem? buf (i + (0 + c)))) t
unfolding row
row-at buf i c t h ht =
    get_elem?-append_left (hex_cells 16 buf i 0) _ (3 * c + gap_in c 0 + t)
      (ground (arith, length-hex_cells 16 buf i 0, h, ht))
    ∙ hex_cells-at 16 buf i 0 c t h ht

-- The value of a digit, where the digits of an octet stand, and what is read there.
abbrev pub undigit : ℕ → ℕ
undigit c = if ltb c 58 then c - b'0' else c + 10 - b'a'

abbrev pub digit_pos : ℕ → ℕ
digit_pos k = 70 * (k / 16) + (3 * (k % 16) + gap_in (k % 16) 0)

abbrev pub octet_at : List ℕ → ℕ → Option ℕ
octet_at out k = do
  high ← get_elem? out (digit_pos k + 0)
  low ← get_elem? out (digit_pos k + 1)
  some (undigit high * 16 + undigit low)

undigit-lower_digit : (d : ℕ) → d < 16 → undigit (lower_digit d) ≡ d
undigit-lower_digit d h = ground (arith, h)

digit-found :
    (out buf : List ℕ) (k t : ℕ)
    → Stands out buf 0
    → k < length buf
    → t < 3
    → get_elem? out (digit_pos k + t) ≡ get_elem? (hex_cell (some (byte_at buf k))) t
unfolding Stands
digit-found out buf k t at h ht =
    let r = k / 16 in
    let c = k % 16 in
    let j = 3 * c + gap_in c 0 + t in
    let e : 70 * (k / 16) + (3 * (k % 16) + gap_in (k % 16) 0) + t ≡ 70 * r + j = ground arith in
    let e' : 0 + 16 * r + (0 + c) ≡ k = omega arith in
    ap (get_elem? out) e
    ∙ at r (omega (arith, h)) j (ground (arith, ht))
    ∙ row-at buf (0 + 16 * r) c t (omega arith) ht
    ∙ ap (λ n. get_elem? (hex_cell (get_elem? buf n)) t) e'
    ∙ ap (λ o. get_elem? (hex_cell o) t) (get_elem?-lt buf k 0 h)

octet-found :
    (out buf : List ℕ) (k : ℕ)
    → Stands out buf 0
    → IsOctets buf
    → k < length buf
    → octet_at out k ≡ some (byte_at buf k)
octet-found out buf k at octets h =
    let d = byte_at buf k in
    let small = byte_at-lt buf k octets in
    let e : undigit (lower_digit (d / 2 ^ 4 % 2 ^ 4)) * 16 + undigit (lower_digit (d % 2 ^ 4)) ≡ d =
      omega (
        arith,
        small,
        undigit-lower_digit (d / 2 ^ 4 % 2 ^ 4) (omega arith),
        undigit-lower_digit (d % 2 ^ 4) (omega arith),
      ) in
    rw (digit-found out buf k 0 at h (omega arith), digit-found out buf k 1 at h (omega arith))
      (ap some e)

dumped :
    (b : ℕ) (buf : List ℕ)
    → (out : List ℕ) × (hexdump (some (b ∷ buf)) ≡ some out)
      × (length out ≡ 70 * rows_of (length (b ∷ buf)))
      × Stands out (b ∷ buf) 0
unfolding hexdump
dumped b buf =
    let (out, e, n, at) =
      rows_loop_lem (suc (length (b ∷ buf))) (b ∷ buf) 0 (omega arith) (omega arith) in
    let same : length (b ∷ buf) - 0 ≡ length (b ∷ buf) = omega arith in
    (out, e, n ∙ ap (λ k. 70 * rows_of k) same, at)

fits : (len n : ℕ) → n ≡ 70 * rows_of len → n + 1 ≤ alloc_size len
unfolding alloc_size
fits len n e = omega (arith, e)

-- The dump of octets ends, and fits with its terminating zero into the buffer that is allocated for
-- it; every octet can be read back from the two digits at its place.
pub hexdump-octet_at :
    (b : ℕ) (buf : List ℕ)
    → IsOctets (b ∷ buf)
    → (out : List ℕ) × (hexdump (some (b ∷ buf)) ≡ some out)
      × (length out + 1 ≤ alloc_size (length (b ∷ buf)))
      × ((k : ℕ) → k < length (b ∷ buf) → octet_at out k ≡ some (byte_at (b ∷ buf) k))
hexdump-octet_at b buf octets =
    let (out, e, n, at) = dumped b buf in
    (
      out,
      e,
      fits (length (b ∷ buf)) (length out) n,
      (λ k h. octet-found out (b ∷ buf) k at octets h),
    )
