-- ===== src/Hfdl/Matching.antt =====
-- match_sequence of src/hfdl.c: which of the templates it finds.
use dumphfdl.Common.{
  ℕ, zero, suc, ◌+◌, ◌≡◌, ◌<◌, ◌≤◌, ◌⊎◌, inl, inr, refl, arith, Option, some, none, List, [], ◌∷◌,
  length, get_or, Bool-cases, ltb, ltb→lt, ap, ◌∙◌,
}
use dumphfdl.Hfdl.Channel.{correlation, match_loop, match_sequence}

abbrev pub at : List ℕ → ℕ → ℕ
at templates i = correlation (get_or templates i 0)

-- What the search gives from a best match so far: that one, or the first of the greatest behind it.
-- The first template that has the greatest correlation, under its number from `idx` on.
record IsFirst (idx : ℕ) (templates : List ℕ) (floor j : ℕ) (result : ℕ × Option ℕ) : Type 0 where
  inside : j < length templates
  number : result.1 ≡ some (idx + j)
  reached : at templates j ≡ result.0
  over : floor < result.0
  first : (k : ℕ) → k < j → at templates k < result.0

record IsBest (idx : ℕ) (templates : List ℕ) (best result : ℕ × Option ℕ) : Type 0 where
  before : best.0 ≤ result.0
  greatest : (j : ℕ) → j < length templates → at templates j ≤ result.0
  found : (result ≡ best) ⊎ ((j : ℕ) × IsFirst idx templates best.0 j result)

suc_right : (a b : ℕ) → suc a + b ≡ a + suc b
suc_right a b = omega arith

IsFirst-later :
    (idx equal : ℕ) (templates : List ℕ) (floor floor' j : ℕ) (result : ℕ × Option ℕ)
    → correlation equal ≤ floor
    → floor' ≤ floor
    → IsFirst (suc idx) templates floor j result
    → IsFirst idx (equal ∷ templates) floor' (suc j) result
IsFirst-later idx equal templates floor floor' j result low lower h = record {
  inside = omega (arith, h.inside);
  number = h.number ∙ ap some (suc_right idx j);
  reached = h.reached;
  over = omega (arith, h.over, lower);
  first = later;
}
  where
    later : (k : ℕ) → k < suc j → at (equal ∷ templates) k < result.0
    later zero b = omega (arith, low, h.over)
    later (suc k) b = h.first k (omega (arith, b))

all_at :
    (equal bound : ℕ) (templates : List ℕ)
    → correlation equal ≤ bound
    → ((j : ℕ) → j < length templates → at templates j ≤ bound)
    → (j : ℕ) → j < length (equal ∷ templates)
    → at (equal ∷ templates) j ≤ bound
all_at equal bound templates low rest zero b = low
all_at equal bound templates low rest (suc j) b = rest j (omega (arith, b))

match_loop-IsBest :
    (idx : ℕ) (templates : List ℕ) (best : ℕ × Option ℕ)
    → IsBest idx templates best (match_loop idx templates best)
unfolding match_loop
match_loop-IsBest idx [] best = record {
  before = omega arith;
  greatest = λ j h. absurd (omega (arith, h));
  found = inl refl;
}
match_loop-IsBest idx (equal ∷ templates) best =
    elim (Bool-cases (ltb best.0 (correlation equal))) [
      | inl better ↦
          let here : ℕ × Option ℕ = (correlation equal, some idx) in
          let h = match_loop-IsBest (suc idx) templates here in
          let up : best.0 < correlation equal = ltb→lt _ _ better in
          rw better (record {
            before = omega (arith, h.before, up);
            greatest =
                all_at equal (match_loop (suc idx) templates here).0 templates h.before h.greatest;
            found = inr (elim h.found [
              | inl same ↦ (
                0,
                rw same (record {
                  inside = omega arith;
                  number = ap some (omega arith);
                  reached = refl;
                  over = up;
                  first = λ k b. absurd (omega (arith, b));
                }),
              )
              | inr (j, at_j) ↦ (
                suc j,
                IsFirst-later idx equal templates (correlation equal) best.0 j
                    (match_loop (suc idx) templates here) (omega arith) (omega (arith, up)) at_j,
              )
            ]);
          })
      | inr worse ↦
          let h = match_loop-IsBest (suc idx) templates best in
          let down : correlation equal ≤ best.0 = ground (arith, worse) in
          rw worse (record {
            before = h.before;
            greatest =
                all_at equal (match_loop (suc idx) templates best).0 templates
                  (omega (arith, down, h.before)) h.greatest;
            found = elim h.found [
              | inl same ↦ inl same
              | inr (j, at_j) ↦ inr (
                suc j,
                IsFirst-later idx equal templates best.0 best.0 j
                    (match_loop (suc idx) templates best) down (omega arith) at_j,
              )
            ];
          })
    ]

-- No template correlates better than the result says. If the result is above 0, it names a template
-- that reaches it, and none before that one does; if it is 0, it names none.
pub match_sequence_lem :
    (templates : List ℕ)
    → ((j : ℕ) → j < length templates → at templates j ≤ (match_sequence templates).0)
      × (((match_sequence templates).0 ≡ 0 × (match_sequence templates).1 ≡ none)
          ⊎ ((i : ℕ) × (i < length templates)
              × ((match_sequence templates).1 ≡ some i)
              × (at templates i ≡ (match_sequence templates).0)
              × (0 < (match_sequence templates).0)
              × ((k : ℕ) → k < i → at templates k < at templates i)))
unfolding match_sequence
match_sequence_lem templates =
    let start : ℕ × Option ℕ = (0, none) in
    let h = match_loop-IsBest 0 templates start in
    (
      h.greatest,
      elim h.found [
        | inl same ↦ inl (ap (λ (r : ℕ × Option ℕ). r.0) same, ap (λ (r : ℕ × Option ℕ). r.1) same)
        | inr (i, f) ↦ inr (
          i,
          f.inside,
          f.number ∙ ap some (omega arith),
          f.reached,
          f.over,
          λ k b. omega (arith, f.first k b, f.reached),
        )
      ],
    )
