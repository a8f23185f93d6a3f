-- ===== src/Hfdl/Table.antt =====
-- The table of the deinterleaver of src/hfdl.c: what one access does to its cells.
use dumphfdl.Common.{
  ℕ, zero, suc, ◌≡◌, ◌<◌, inl, inr, refl, sym, ◌∙◌, arith, Option, some, ◌>>=◌, List, [], ◌∷◌,
  get_elem?, set, length, length-set, get_elem?-set_self, Bool-cases, get_elem?-set_ne,
  if◌then◌else◌, ◌==◌, ==_iff, get_elem?-lt, get_or, ◌&&◌,
}
use dumphfdl.Hfdl.Deinterleaver.{deinterleaver_row_cnt}

abbrev pub cell : List (List ℕ) → ℕ → ℕ → Option ℕ
cell table r c = get_elem? table r >>= λ line. get_elem? line c

-- Forty rows of so many columns.
pub record IsTable (columns : ℕ) (table : List (List ℕ)) : Type 0 where
  pub rows : length table ≡ deinterleaver_row_cnt
  pub wide : (r : ℕ) → r < deinterleaver_row_cnt → length (get_or table r []) ≡ columns

get_elem?-set_if :
    {A : Type 0} (xs : List A) (i j : ℕ) (v : A)
    → i < length xs
    → get_elem? (set xs i v) j ≡ (if i == j then some v else get_elem? xs j)
get_elem?-set_if xs i j v h = elim (Bool-cases (i == j)) [
  | inl e ↦ rw (e, sym ((==_iff i j).0 e)) (get_elem?-set_self xs i v h)
  | inr e ↦ rw e (get_elem?-set_ne xs i j v (λ p. ground (arith, e, p)))
]

get_or-set :
    {A : Type 0} (xs : List A) (i j : ℕ) (v d : A)
    → i < length xs
    → get_or (set xs i v) j d ≡ (if i == j then v else get_or xs j d)
get_or-set [] i j v d h = absurd (omega (arith, h))
get_or-set (x ∷ xs) zero zero v d h = refl
get_or-set (x ∷ xs) zero (suc j) v d h = ground arith
get_or-set (x ∷ xs) (suc i) zero v d h = ground arith
get_or-set (x ∷ xs) (suc i) (suc j) v d h = ground (arith, get_or-set xs i j v d (omega (arith, h)))

abbrev pub row_at : List (List ℕ) → ℕ → List ℕ
row_at table r = get_or table r []

abbrev pub written : List (List ℕ) → ℕ → ℕ → ℕ → List (List ℕ)
written table r c val = set table r (set (row_at table r) c val)

module _ (columns : ℕ) (table : List (List ℕ)) (r c : ℕ) (shaped : IsTable columns table)
    (low : r < deinterleaver_row_cnt) (left : c < columns) where
  pub row_found : get_elem? table r ≡ some (row_at table r)
  row_found = get_elem?-lt table r [] (omega (arith, low, shaped.rows))

  cell_inside : c < length (row_at table r)
  cell_inside = omega (arith, left, shaped.wide r low)

  pub cell_found : get_elem? (row_at table r) c ≡ some (get_or (row_at table r) c 0)
  cell_found = get_elem?-lt (row_at table r) c 0 cell_inside

  pub written-IsTable : (val : ℕ) → IsTable columns (written table r c val)
  written-IsTable val =
      let line = set (row_at table r) c val in
      let width : length line ≡ columns = length-set (row_at table r) c val ∙ shaped.wide r low in
      record {
        rows = length-set table r line ∙ shaped.rows;
        wide = λ r' h.
            rw (get_or-set table r r' line [] (omega (arith, low, shaped.rows)))
              (elim (Bool-cases (r == r')) [
                | inl e ↦ rw e width
                | inr e ↦ rw e (shaped.wide r' h)
              ]);
      }

  pub cell-written :
      (val r' c' : ℕ)
      → cell (written table r c val) r' c'
        ≡ (if (r == r') && (c == c') then some val else cell table r' c')
  cell-written val r' c' =
      let line = set (row_at table r) c val in
      rw (get_elem?-set_if table r r' line (omega (arith, low, shaped.rows)))
        (elim (Bool-cases (r == r')) [
          | inl e ↦
              rw
                (
                  e,
                  sym ((==_iff r r').0 e),
                  row_found,
                  get_elem?-set_if (row_at table r) c c' val cell_inside,
                )
                refl
          | inr e ↦ rw e refl
        ])
