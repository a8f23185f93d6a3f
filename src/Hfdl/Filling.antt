-- ===== src/Hfdl/Filling.antt =====
-- How the pushes of src/hfdl.c fill the table of the deinterleaver, and what the pops read there.
use dumphfdl.Common.{
  suc_right, plus_zero, ℕ, zero, suc, ◌+◌, ◌*◌, ◌/◌, ◌%◌, ◌≡◌, ◌<◌, ◌≤◌, inl, inr, refl, ap, sym,
  arith, Option, some, List, [], ◌∷◌, get_elem?, length, get_or, Bool-cases, if◌then◌else◌, ◌==◌,
  ==_iff,
}
use dumphfdl.Hfdl.Deinterleaver.{
  Deinterleaver, deinterleaver_push, deinterleaver_pop, push_row, push_col, pop_row, push_bits,
  pop_bits,
}
use dumphfdl.Hfdl.Permutation.{IsPath, path_col}
use dumphfdl.Hfdl.Table.{
  cell, IsTable, row_at, written, row_found, cell_found, written-IsTable, cell-written,
}

-- The deinterleaver of a frame, and the same under the cursor of the k-th push.
pub record IsSized (columns shift : ℕ) (d : Deinterleaver) : Type 0 where
  pub shaped : IsTable columns d.table
  pub column_cnt : d.column_cnt ≡ columns
  pub push_column_shift : d.push_column_shift ≡ shift

pub record IsAt (columns shift k : ℕ) (d : Deinterleaver) : Type 0 where
  pub sized : IsSized columns shift d
  pub row : d.row ≡ k % 40
  pub col : d.col ≡ path_col columns shift k

cons-agrees :
    (a : ℕ) (xs : List ℕ) (n : ℕ) (f : ℕ → Option ℕ)
    → some a ≡ f 0
    → ((j : ℕ) → j < n → get_elem? xs j ≡ f (suc j))
    → (j : ℕ) → j < suc n
    → get_elem? (a ∷ xs) j ≡ f j
cons-agrees a xs n f first later zero b = first
cons-agrees a xs n f first later (suc j) b = later j (omega (arith, b))

IsAt-same :
    (columns shift k k' : ℕ) (d : Deinterleaver)
    → k ≡ k'
    → IsAt columns shift k d
    → IsAt columns shift k' d
IsAt-same columns shift k k' d e h = rw (sym e) h

module _ (columns shift inverse : ℕ) (path : IsPath columns shift inverse) where
  pushed : (d : Deinterleaver) → ℕ → Deinterleaver
  pushed d val = record d {
    table = written d.table d.row d.col val;
    row = push_row d;
    col = push_col d;
  }

  push_found :
      (d : Deinterleaver) (k val : ℕ)
      → IsAt columns shift k d
      → deinterleaver_push d val ≡ some (pushed d val)
  unfolding deinterleaver_push pushed
  push_found d k val h =
      let low : d.row < 40 = omega (arith, h.row) in
      let left : d.col < columns = omega (arith, h.col, path.within k) in
      rw
        (
          row_found columns d.table d.row d.col h.sized.shaped low left,
          cell_found columns d.table d.row d.col h.sized.shaped low left,
        )
        refl

  pushed-IsAt :
      (d : Deinterleaver) (k val : ℕ)
      → IsAt columns shift k d
      → IsAt columns shift (suc k) (pushed d val)
  unfolding pushed
  pushed-IsAt d k val h =
      let low : d.row < 40 = omega (arith, h.row) in
      let left : d.col < columns = omega (arith, h.col, path.within k) in
      record {
        sized = record {
          shaped = written-IsTable columns d.table d.row d.col h.sized.shaped low left val;
          column_cnt = h.sized.column_cnt;
          push_column_shift = h.sized.push_column_shift;
        };
        row = ground (arith, h.row);
        col = rw (h.row, h.col, h.sized.column_cnt, h.sized.push_column_shift) (path.advance k);
      }

  -- Each push writes the cell of its number, and leaves those of the others.
  cell-pushed :
      (d : Deinterleaver) (k val j : ℕ)
      → IsAt columns shift k d
      → k < 40 * columns
      → j < 40 * columns
      → cell (pushed d val).table (j % 40) (path_col columns shift j)
        ≡ (if k == j then some val else cell d.table (j % 40) (path_col columns shift j))
  unfolding pushed
  cell-pushed d k val j h kb jb =
      let low : d.row < 40 = omega (arith, h.row) in
      let left : d.col < columns = omega (arith, h.col, path.within k) in
      rw
        (
          cell-written columns d.table d.row d.col h.sized.shaped low left val (j % 40)
              (path_col columns shift j),
          h.row,
          h.col,
        )
        (elim (Bool-cases (k == j)) [
          | inl e ↦ rw (sym ((==_iff k j).0 e)) (ground arith)
          | inr e ↦ ground (arith, path.once k j kb jb, e)
        ])

  -- A table that holds the soft bits in the cells of their pushes, from the k-th one.
  pub record IsFilled (k : ℕ) (before : Deinterleaver) (vals : List ℕ) (d : Deinterleaver)
      : Type 0 where
    pub at : IsAt columns shift (k + length vals) d
    pub old :
        (j : ℕ)
        → j < k
        → cell d.table (j % 40) (path_col columns shift j)
          ≡ cell before.table (j % 40) (path_col columns shift j)
    pub new :
        (j : ℕ)
        → j < length vals
        → cell d.table ((k + j) % 40) (path_col columns shift (k + j)) ≡ get_elem? vals j

  pub push_bits_found :
      (vals : List ℕ) (k : ℕ) (d : Deinterleaver)
      → IsAt columns shift k d
      → k + length vals ≤ 40 * columns
      → (d1 : Deinterleaver) × (push_bits d vals ≡ some d1) × IsFilled k d vals d1
  unfolding push_bits
  push_bits_found [] k d h room = (
    d,
    refl,
    record {
      at = IsAt-same columns shift k (k + 0) d (omega arith) h;
      old = λ j b. refl;
      new = λ j b. absurd (omega (arith, b));
    },
  )
  push_bits_found (val ∷ vals) k d h room =
      let next = pushed d val in
      let (d1, e, f) =
        push_bits_found vals (suc k) next (pushed-IsAt d k val h) (omega (arith, room)) in
      let written_before : (j : ℕ)
          → j < 40 * columns
          → cell next.table (j % 40) (path_col columns shift j)
            ≡ (if k == j then some val else cell d.table (j % 40) (path_col columns shift j)) =
        λ j b. cell-pushed d k val j h (omega (arith, room)) b in
      (
        d1,
        rw (push_found d k val h) e,
        record {
          at =
              IsAt-same columns shift (suc k + length vals) (k + suc (length vals)) d1 (omega arith)
                f.at;
          old = λ j b. ground (arith, f.old j, written_before j, b, room);
          new = λ j b. sym (
              cons-agrees val vals (length vals)
                (λ (i : ℕ). cell d1.table ((k + i) % 40) (path_col columns shift (k + i)))
                (rw
                  (
                    plus_zero k,
                    f.old k (omega arith),
                    written_before k (omega (arith, room)),
                    (==_iff k k).1 refl,
                  )
                  refl)
                (λ i ib. rw (suc_right k i) (sym (f.new i ib))) j b);
        },
      )

  popped : (d : Deinterleaver) → Deinterleaver
  popped d = record d { row = pop_row d; col = if pop_row d == 0 then d.col + 1 else d.col }

  -- Pops read the rows in steps of nine, column after column.
  pub pop_bits_found :
      (n i : ℕ) (d : Deinterleaver)
      → IsSized columns shift d
      → d.row ≡ (9 * i) % 40
      → d.col ≡ i / 40
      → i + n ≤ 40 * columns
      → (out : List ℕ) × (d1 : Deinterleaver) × (pop_bits n d ≡ some (out, d1))
        × IsSized columns shift d1
        × (length out ≡ n)
        × ((j : ℕ) → j < n → get_elem? out j ≡ cell d.table ((9 * (i + j)) % 40) ((i + j) / 40))
  unfolding pop_bits deinterleaver_pop popped
  pop_bits_found zero i d h row col room = ([], d, refl, h, refl, λ j b. absurd (omega (arith, b)))
  pop_bits_found (suc n) i d h row col room =
      let low : d.row < 40 = omega (arith, row) in
      let left : d.col < columns = omega (arith, col, room) in
      let next_row : pop_row d ≡ (9 * suc i) % 40 = omega (arith, row) in
      let next_col : (if pop_row d == 0 then d.col + 1 else d.col) ≡ suc i / 40 =
        ground (arith, row, col) in
      let (out, d1, e, sized, len, out_at) =
        pop_bits_found n (suc i) (popped d)
          (record {
            shaped = h.shaped;
            column_cnt = h.column_cnt;
            push_column_shift = h.push_column_shift;
          })
          next_row next_col (omega (arith, room)) in
      (
        get_or (row_at d.table d.row) d.col 0 ∷ out,
        d1,
        rw
            (
              row_found columns d.table d.row d.col h.shaped low left,
              cell_found columns d.table d.row d.col h.shaped low left,
              e,
            )
            refl,
        sized,
        ap suc len,
        cons-agrees (get_or (row_at d.table d.row) d.col 0) out n
            (λ (j : ℕ). cell d.table ((9 * (i + j)) % 40) ((i + j) / 40))
            (rw
              (
                plus_zero i,
                sym row,
                sym col,
                row_found columns d.table d.row d.col h.shaped low left,
                cell_found columns d.table d.row d.col h.shaped low left,
              )
              refl)
            (λ j b. rw (suc_right i j) (out_at j b)),
      )
