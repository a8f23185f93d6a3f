-- ===== src/Hfdl/Deinterleaver.antt =====
-- src/hfdl.c: the deinterleaver, a table of 40 rows that a frame fills along one path and leaves along
-- another. `none` is an access outside the table.
use dumphfdl.Common.{
  ℕ, zero, suc, ◌+◌, ◌-◌, ◌*◌, ◌/◌, ◌%◌, ltb, ◌==◌, if◌then◌else◌, List, [], ◌∷◌, Option, some,
  ◌>>=◌, get_elem?, set, replicate,
}
use dumphfdl.Hfdl.{HfdlParams, hfdl_frame_params, data_frame_len}

pub record Deinterleaver : Type 0 where
  pub table : List (List ℕ)
  pub row : ℕ
  pub col : ℕ
  pub column_cnt : ℕ
  pub push_column_shift : ℕ

abbrev pub deinterleaver_row_cnt : ℕ
deinterleaver_row_cnt = 40

abbrev pub deinterleaver_pop_row_shift : ℕ
deinterleaver_pop_row_shift = 9

-- The table of `columns` columns that XCALLOC gives, under the cursor at its first cell.
abbrev pub empty_table : ℕ → ℕ → Deinterleaver
empty_table columns shift = record {
  table = replicate deinterleaver_row_cnt (replicate columns 0);
  row = 0;
  col = 0;
  column_cnt = columns;
  push_column_shift = shift;
}

abbrev pub columns_of : HfdlParams → ℕ
columns_of p = p.data_segment_cnt * data_frame_len * p.scheme / deinterleaver_row_cnt

unfoldable pub deinterleaver_create : ℕ → Option Deinterleaver
deinterleaver_create m1 = do
  p ← get_elem? hfdl_frame_params m1
  some (empty_table (columns_of p) p.deinterleaver_push_column_shift)

-- The cursor after a push. The source subtracts the shift first and adds the columns to a negative
-- difference.
abbrev pub push_row : Deinterleaver → ℕ
push_row d = if d.row + 1 == deinterleaver_row_cnt then 0 else d.row + 1

abbrev pub push_col : Deinterleaver → ℕ
push_col d =
    let next = if d.row + 1 == deinterleaver_row_cnt then d.col + 1 else d.col in
    if ltb next d.push_column_shift
    then next + d.column_cnt - d.push_column_shift
    else next - d.push_column_shift

unfoldable pub deinterleaver_push : Deinterleaver → ℕ → Option Deinterleaver
deinterleaver_push d val = do
  line ← get_elem? d.table d.row
  old ← get_elem? line d.col
  some (record d {
    table = set d.table d.row (set line d.col val);
    row = push_row d;
    col = push_col d;
  })

abbrev pub pop_row : Deinterleaver → ℕ
pop_row d = (d.row + deinterleaver_pop_row_shift) % deinterleaver_row_cnt

unfoldable pub deinterleaver_pop : Deinterleaver → Option (ℕ × Deinterleaver)
deinterleaver_pop d = do
  line ← get_elem? d.table d.row
  ret ← get_elem? line d.col
  some (ret, record d { row = pop_row d; col = if pop_row d == 0 then d.col + 1 else d.col })

unfoldable pub deinterleaver_reset : Deinterleaver → Deinterleaver
deinterleaver_reset d = record d { row = 0; col = 0 }

-- The loops of decode_user_data over the table.
unfoldable pub push_bits : Deinterleaver → List ℕ → Option Deinterleaver
push_bits d [] = some d
push_bits d (val ∷ vals) = do d1 ← deinterleaver_push d val; push_bits d1 vals

unfoldable pub pop_bits : ℕ → Deinterleaver → Option (List ℕ × Deinterleaver)
pop_bits zero d = some ([], d)
pop_bits (suc n) d = do
  (val, d1) ← deinterleaver_pop d
  (vals, d2) ← pop_bits n d1
  some (val ∷ vals, d2)
