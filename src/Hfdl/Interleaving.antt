-- ===== src/Hfdl/Interleaving.antt =====
-- What the deinterleaver of src/hfdl.c does to the soft bits of a frame.
use dumphfdl.Common.{
  zero_plus, ℕ, ◌+◌, ◌*◌, ◌/◌, ◌%◌, ◌≡◌, ◌≢◌, ◌<◌, refl, ap, sym, ◌∙◌, arith, some, List, get_elem?,
  length,
}
use dumphfdl.Hfdl.Deinterleaver.{
  Deinterleaver, push_bits, pop_bits, deinterleaver_reset, columns_of,
}
use dumphfdl.Hfdl.Permutation.{IsPath, path_col, path_at, frame, frame-IsPath, inverse}
use dumphfdl.Hfdl.Table.{cell}
use dumphfdl.Hfdl.Filling.{IsSized, IsAt, IsFilled, push_bits_found, pop_bits_found}

module _ (columns shift inverse : ℕ) (path : IsPath columns shift inverse) where
  path_source : ℕ → ℕ
  path_source i = path_at columns shift inverse ((9 * i) % 40) (i / 40)

  filled_row : (n : ℕ) → n ≡ 40 * columns → (0 + n) % 40 ≡ 0
  filled_row n e = omega (arith, e)

  filled_col : (n : ℕ) → n ≡ 40 * columns → path_col columns shift (0 + n) ≡ 0
  filled_col n e = rw (zero_plus n, e) path.home

  cell_source :
      (vals : List ℕ) (d0 d : Deinterleaver) (i : ℕ)
      → IsFilled columns shift inverse path 0 d0 vals d
      → length vals ≡ 40 * columns
      → i < 40 * columns
      → cell d.table ((9 * (0 + i)) % 40) ((0 + i) / 40) ≡ get_elem? vals (path_source i)
  unfolding path_source
  cell_source vals d0 d i f all b =
      let r = (9 * i) % 40 in
      let k = path_at columns shift inverse r (i / 40) in
      let low : r < 40 = omega arith in
      let left : i / 40 < columns = omega (arith, b) in
      let row : k % 40 ≡ r = omega (arith, low) in
      rw
        (
          zero_plus i,
          sym (f.new k (omega (arith, path.inside r (i / 40) low, all))),
          zero_plus k,
          row,
          path.meets r (i / 40) low left,
        )
        refl

  through :
      (d : Deinterleaver) (vals : List ℕ)
      → IsSized columns shift d
      → d.row ≡ 0
      → d.col ≡ 0
      → length vals ≡ 40 * columns
      → (d1 : Deinterleaver) × (out : List ℕ) × (d2 : Deinterleaver) × (push_bits d vals ≡ some d1)
        × (pop_bits (40 * columns) d1 ≡ some (out, d2))
        × IsSized columns shift d2
        × (length out ≡ 40 * columns)
        × ((i : ℕ) → i < 40 * columns → get_elem? out i ≡ get_elem? vals (path_source i))
  through d vals sized row col all =
      let start : IsAt columns shift 0 d = record {
        sized = sized;
        row = row;
        col = col ∙ sym path.origin;
      } in
      let (d1, pushes, filled) =
        push_bits_found columns shift inverse path vals 0 d start (omega (arith, all)) in
      let (out, d2, pops, sized2, len, at) =
        pop_bits_found columns shift inverse path (40 * columns) 0 d1 filled.at.sized
          (filled.at.row ∙ filled_row (length vals) all)
          (filled.at.col ∙ filled_col (length vals) all) (omega arith) in
      (d1, out, d2, pushes, pops, sized2, len, λ i b. at i b ∙ cell_source vals d d1 i filled all b)

  path_once :
      (i j : ℕ)
      → i < 40 * columns
      → j < 40 * columns
      → (path_source i < 40 * columns) × (path_source i ≡ path_source j → i ≡ j)
  unfolding path_source
  path_once i j ib jb = (
    path.inside ((9 * i) % 40) (i / 40) (omega arith),
    λ e.
        let rows : (9 * i) % 40 ≡ (9 * j) % 40 = omega (arith, e) in
        let left : i / 40 < columns = omega (arith, ib) in
        let left' : j / 40 < columns = omega (arith, jb) in
        let mi = path.meets ((9 * i) % 40) (i / 40) (omega arith) left in
        let mj = path.meets ((9 * j) % 40) (j / 40) (omega arith) left' in
        let cols : i / 40 ≡ j / 40 = sym mi ∙ ap (path_col columns shift) e ∙ mj in
        omega (arith, rows, cols),
  )

-- The push whose bit is the i-th to be popped.
abbrev pub source : ℕ → ℕ → ℕ
source m1 i =
    path_at (columns_of (frame m1)) (frame m1).deinterleaver_push_column_shift (inverse m1)
      ((9 * i) % 40) (i / 40)

abbrev pub frame_bits : ℕ → ℕ
frame_bits m1 = 40 * columns_of (frame m1)

abbrev pub IsFor : ℕ → Deinterleaver → Type 0
IsFor m1 d = IsSized (columns_of (frame m1)) (frame m1).deinterleaver_push_column_shift d

pub frame_through :
    (m1 : ℕ) (d : Deinterleaver) (vals : List ℕ)
    → m1 < 8
    → IsFor m1 d
    → d.row ≡ 0
    → d.col ≡ 0
    → length vals ≡ frame_bits m1
    → (d1 : Deinterleaver) × (out : List ℕ) × (d2 : Deinterleaver) × (push_bits d vals ≡ some d1)
      × (pop_bits (frame_bits m1) d1 ≡ some (out, d2))
      × IsFor m1 d2
      × (length out ≡ frame_bits m1)
      × ((i : ℕ) → i < frame_bits m1 → get_elem? out i ≡ get_elem? vals (source m1 i))
unfolding path_source
frame_through m1 d vals h for row col all =
    through (columns_of (frame m1)) (frame m1).deinterleaver_push_column_shift (inverse m1)
      (frame-IsPath m1 h) d vals for row col all

pub reset-IsFor : (m1 : ℕ) (d : Deinterleaver) → IsFor m1 d → IsFor m1 (deinterleaver_reset d)
unfolding deinterleaver_reset
reset-IsFor m1 d for = record {
  shaped = for.shaped;
  column_cnt = for.column_cnt;
  push_column_shift = for.push_column_shift;
}

-- After a reset, as many pushes as the table has cells and as many pops meet no access outside the
-- table, and the i-th soft bit popped is the one pushed as number `source m1 i`. The table stays fit
-- for the next frame.
pub deinterleaver_lem :
    (m1 : ℕ) (d : Deinterleaver) (vals : List ℕ)
    → m1 < 8
    → IsFor m1 d
    → length vals ≡ frame_bits m1
    → (d1 : Deinterleaver) × (out : List ℕ) × (d2 : Deinterleaver) × (push_bits
          (deinterleaver_reset d)
          vals
        ≡ some d1)
      × (pop_bits (frame_bits m1) d1 ≡ some (out, d2))
      × IsFor m1 d2
      × (length out ≡ frame_bits m1)
      × ((i : ℕ) → i < frame_bits m1 → get_elem? out i ≡ get_elem? vals (source m1 i))
unfolding deinterleaver_reset
deinterleaver_lem m1 d vals h for all =
    frame_through m1 (deinterleaver_reset d) vals h (reset-IsFor m1 d for) refl refl all

-- The pops of a frame take each of its soft bits, and none twice.
pub source_once :
    (m1 i j : ℕ)
    → m1 < 8
    → i < frame_bits m1
    → j < frame_bits m1
    → i ≢ j
    → (source m1 i < frame_bits m1) × (source m1 i ≢ source m1 j)
unfolding path_source
source_once m1 i j h ib jb apart =
    let (inside, once) =
      path_once (columns_of (frame m1)) (frame m1).deinterleaver_push_column_shift (inverse m1)
        (frame-IsPath m1 h) i j ib jb in
    (inside, λ same. apart (once same))
