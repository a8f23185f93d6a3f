-- ===== src/Hfdl/Permutation.antt =====
-- The path that the pushes of src/hfdl.c take through the table of the deinterleaver: as numbers, for
-- each of the frame parameters.
use dumphfdl.Common.{
  ℕ, zero, suc, ◌+◌, ◌-◌, ◌*◌, ◌/◌, ◌%◌, ◌≡◌, ◌<◌, refl, arith, if◌then◌else◌, ltb, ◌==◌, get_or,
  [], ◌∷◌,
}
use dumphfdl.Hfdl.{HfdlParams, hfdl_frame_params, params_of}
use dumphfdl.Hfdl.Deinterleaver.{columns_of}

-- The column of the k-th push, and the push that meets a cell.
abbrev pub path_col : ℕ → ℕ → ℕ → ℕ
path_col columns shift k = (k / 40 + (columns - shift) * k) % columns

abbrev pub path_at : ℕ → ℕ → ℕ → ℕ → ℕ → ℕ
path_at columns shift inverse r c = 40 * (((c + shift * r) * inverse) % columns) + r

abbrev pub next_col : ℕ → ℕ → ℕ → ℕ → ℕ
next_col columns shift r c =
    let next = if r + 1 == 40 then c + 1 else c in
    if ltb next shift then next + columns - shift else next - shift

pub record IsPath (columns shift inverse : ℕ) : Type 0 where
  pub within : (k : ℕ) → path_col columns shift k < columns
  pub advance :
      (k : ℕ)
      → next_col columns shift (k % 40) (path_col columns shift k) ≡ path_col columns shift (suc k)
  pub once :
      (k j : ℕ)
      → k < 40 * columns
      → j < 40 * columns
      → k % 40 ≡ j % 40
      → path_col columns shift k ≡ path_col columns shift j
      → k ≡ j
  pub inside : (r c : ℕ) → r < 40 → path_at columns shift inverse r c < 40 * columns
  pub meets :
      (r c : ℕ)
      → r < 40
      → c < columns
      → path_col columns shift (path_at columns shift inverse r c) ≡ c
  pub origin : path_col columns shift 0 ≡ 0
  pub home : path_col columns shift (40 * columns) ≡ 0

IsPath-54 : IsPath 54 17 47
IsPath-54 = record {
  within = λ k. omega arith;
  advance = λ k. ground arith;
  once = λ k j kb jb rows cols. omega (arith, kb, jb, rows, cols);
  inside = λ r c rb. omega (arith, rb);
  meets = λ r c rb cb. omega (arith, rb, cb);
  origin = refl;
  home = refl;
}

IsPath-108 : IsPath 108 17 101
IsPath-108 = record {
  within = λ k. omega arith;
  advance = λ k. ground arith;
  once = λ k j kb jb rows cols. omega (arith, kb, jb, rows, cols);
  inside = λ r c rb. omega (arith, rb);
  meets = λ r c rb cb. omega (arith, rb, cb);
  origin = refl;
  home = refl;
}

IsPath-162 : IsPath 162 17 47
IsPath-162 = record {
  within = λ k. omega arith;
  advance = λ k. ground arith;
  once = λ k j kb jb rows cols. omega (arith, kb, jb, rows, cols);
  inside = λ r c rb. omega (arith, rb);
  meets = λ r c rb cb. omega (arith, rb, cb);
  origin = refl;
  home = refl;
}

IsPath-126 : IsPath 126 23 17
IsPath-126 = record {
  within = λ k. omega arith;
  advance = λ k. ground arith;
  once = λ k j kb jb rows cols. omega (arith, kb, jb, rows, cols);
  inside = λ r c rb. omega (arith, rb);
  meets = λ r c rb cb. omega (arith, rb, cb);
  origin = refl;
  home = refl;
}

IsPath-252 : IsPath 252 23 17
IsPath-252 = record {
  within = λ k. omega arith;
  advance = λ k. ground arith;
  once = λ k j kb jb rows cols. omega (arith, kb, jb, rows, cols);
  inside = λ r c rb. omega (arith, rb);
  meets = λ r c rb cb. omega (arith, rb, cb);
  origin = refl;
  home = refl;
}

IsPath-378 : IsPath 378 23 269
IsPath-378 = record {
  within = λ k. omega arith;
  advance = λ k. ground arith;
  once = λ k j kb jb rows cols. omega (arith, kb, jb, rows, cols);
  inside = λ r c rb. omega (arith, rb);
  meets = λ r c rb cb. omega (arith, rb, cb);
  origin = refl;
  home = refl;
}

abbrev pub no_params : HfdlParams
no_params = params_of 0 0 1 0

-- The parameters that a shift of M1 selects, and the multiplier that finds the push of a cell.
abbrev pub frame : ℕ → HfdlParams
frame m1 = get_or hfdl_frame_params m1 no_params

abbrev pub inverse : ℕ → ℕ
inverse m1 = get_or (47 ∷ 47 ∷ 101 ∷ 47 ∷ 17 ∷ 17 ∷ 17 ∷ 269 ∷ []) m1 0

pub frame-IsPath :
    (m1 : ℕ)
    → m1 < 8
    → IsPath (columns_of (frame m1)) (frame m1).deinterleaver_push_column_shift (inverse m1)
frame-IsPath zero h = IsPath-54
frame-IsPath (suc zero) h = IsPath-54
frame-IsPath (suc (suc zero)) h = IsPath-108
frame-IsPath (suc (suc (suc zero))) h = IsPath-162
frame-IsPath (suc (suc (suc (suc zero)))) h = IsPath-126
frame-IsPath (suc (suc (suc (suc (suc zero))))) h = IsPath-126
frame-IsPath (suc (suc (suc (suc (suc (suc zero)))))) h = IsPath-252
frame-IsPath (suc (suc (suc (suc (suc (suc (suc zero))))))) h = IsPath-378
frame-IsPath (suc (suc (suc (suc (suc (suc (suc (suc m1)))))))) h = absurd (omega (arith, h))
