-- ===== src/Kvargs/Parsing.antt =====
-- Option strings and the pairs that they hold (src/kvargs.c).
use dumphfdl.Common.{
  ℕ, zero, suc, ◌≡◌, ◌≤◌, ◌<◌, ◌∙◌, refl, ap, Bool, true, false, ◌&&◌, Option, none, some, List, [],
  ◌∷◌, ◌++◌, length, length-append, if◌then◌else◌, ◌==◌, not, Option-cases, Bool-cases, inl, inr,
  ◌⊎◌, arith, Safe,
}
use dumphfdl.LaHash.{LaHash}
use dumphfdl.Kvargs.{strsep, success, store_pair, pairs_loop, kvargs_from_string, kvargs_get}

-- A string without a character.
abbrev pub lacks : ℕ → List ℕ → Bool
lacks c [] = true
lacks c (x ∷ s) = not (x == c) && lacks c s

strsep-lacks : (c : ℕ) (s : List ℕ) → lacks c s ≡ true → strsep c s ≡ (s, none)
unfolding strsep
strsep-lacks c [] e = refl
strsep-lacks c (x ∷ s) e =
    let other : (x == c) ≡ false = ground (arith, e) in
    rw (other, strsep-lacks c s (ground (arith, e))) refl

strsep-append : (c : ℕ) (s t : List ℕ) → lacks c s ≡ true → strsep c (s ++ c ∷ t) ≡ (s, some t)
unfolding strsep
strsep-append c [] t e = ground arith
strsep-append c (x ∷ s) t e =
    let other : (x == c) ≡ false = ground (arith, e) in
    rw (other, strsep-append c s t (ground (arith, e))) refl

-- A pair: a key of one character or more, given by its first and the others, and a value.
pub record Pair : Type 0 where
  pub first : ℕ
  pub others : List ℕ
  pub value : List ℕ

abbrev pub key_of : Pair → List ℕ
key_of p = p.first ∷ p.others

abbrev pub written : Pair → List ℕ
written p = key_of p ++ 61 ∷ p.value

-- No comma in the pair and no equals sign in the key.
abbrev pub IsPlain : Pair → Type 0
IsPlain p = (lacks 44 (written p) ≡ true) × (lacks 61 (key_of p) ≡ true)

abbrev pub AllPlain : List Pair → Type 0
AllPlain [] = Unit
AllPlain (p ∷ ps) = IsPlain p × AllPlain ps

-- The pairs between commas, the first of them given apart.
abbrev pub option_string : Pair → List Pair → List ℕ
option_string p [] = written p
option_string p (q ∷ ps) = written p ++ 44 ∷ option_string q ps

strsep-shorter : (c : ℕ) (s t : List ℕ) → (strsep c s).1 ≡ some t → length t < length s
unfolding strsep
strsep-shorter c [] t e = absurd (ground (arith, e))
strsep-shorter c (x ∷ s) t e = elim (Bool-cases (x == c)) [
  | inl is ↦
      let same : some s ≡ some t = ground (arith, is, e) in
      let same' : s ≡ t = ground (arith, same) in omega (arith, ap length same')
  | inr other ↦
      let rest : (strsep c s).1 ≡ some t = ground (arith, other, e) in
      omega (arith, strsep-shorter c s t rest)
]

List-cases : (l : List ℕ) → (l ≡ []) ⊎ ((x : ℕ) × (xs : List ℕ) × (l ≡ x ∷ xs))
List-cases [] = inl refl
List-cases (x ∷ xs) = inr (x, xs, refl)

module _ (h : LaHash (List ℕ) (List ℕ)) where
  pairs_loop-Safe :
      (fuel : ℕ) (kv : h.Table) (string : List ℕ) (pos : ℕ)
      → length string < fuel
      → Safe (pairs_loop h fuel kv string pos)
  unfolding pairs_loop
  pairs_loop-Safe zero kv string pos lt = absurd (omega (arith, lt))
  pairs_loop-Safe (suc fuel) kv string pos lt =
      let pair = (strsep 44 string).0 in
      elim (List-cases (strsep 61 pair).0) [
        | inl empty ↦ rw (pairs_loop, empty) (_, refl)
        | inr (x, xs, key) ↦
            rw (pairs_loop, key)
              (elim (Option-cases (strsep 61 pair).1) [
                | inl absent ↦ rw absent (_, refl)
                | inr (v, value) ↦ rw value (elim (Option-cases (strsep 44 string).1) [
                  | inl last ↦ rw last (_, refl)
                  | inr (rest, more) ↦ rw more (
                      pairs_loop-Safe fuel (store_pair h kv (x ∷ xs) v) rest _
                        (omega (arith, strsep-shorter 44 string rest more, lt)))
                ])
              ])
      ]

  -- Parsing any string, or none, ends with a result.
  pub kvargs_from_string-Safe : (string : Option (List ℕ)) → Safe (kvargs_from_string h string)
  unfolding kvargs_from_string
  kvargs_from_string-Safe none = (_, refl)
  kvargs_from_string-Safe (some string) =
      pairs_loop-Safe (suc (length string)) h.new string 0 (omega arith)

  abbrev pub store_pairs : h.Table → Pair → List Pair → h.Table
  store_pairs kv p [] = store_pair h kv (key_of p) p.value
  store_pairs kv p (q ∷ ps) = store_pairs (store_pair h kv (key_of p) p.value) q ps

  pairs_loop-option_string :
      (fuel : ℕ) (kv : h.Table) (p : Pair) (ps : List Pair) (pos : ℕ)
      → IsPlain p
      → AllPlain ps
      → length ps < fuel
      → pairs_loop h fuel kv (option_string p ps) pos ≡ some (success (store_pairs kv p ps))
  unfolding pairs_loop
  pairs_loop-option_string zero kv p ps pos plain all lt = absurd (omega (arith, lt))
  pairs_loop-option_string (suc fuel) kv p [] pos plain all lt =
      rw
        (
          pairs_loop,
          strsep-lacks 44 (written p) plain.0,
          strsep-append 61 (key_of p) p.value plain.1,
        )
        refl
  pairs_loop-option_string (suc fuel) kv p (q ∷ ps) pos plain all lt =
      rw
        (
          pairs_loop,
          strsep-append 44 (written p) (option_string q ps) plain.0,
          strsep-append 61 (key_of p) p.value plain.1,
        )
        (pairs_loop-option_string fuel (store_pair h kv (key_of p) p.value) q ps _ all.0 all.1
          (omega (arith, lt)))

  -- The value that the last pair with a key gives it, or else `d`.
  abbrev pub last_value : List Pair → List ℕ → Option (List ℕ) → Option (List ℕ)
  last_value [] k d = d
  last_value (p ∷ ps) k d = last_value ps k (if h.same (key_of p) k then some p.value else d)

  get-store_pairs :
      (kv : h.Table) (p : Pair) (ps : List Pair) (k : List ℕ)
      → h.lookup (store_pairs kv p ps) k ≡ last_value (p ∷ ps) k (h.lookup kv k)
  get-store_pairs kv p [] k = h.lookup-insert kv (key_of p) p.value k
  get-store_pairs kv p (q ∷ ps) k =
      get-store_pairs (store_pair h kv (key_of p) p.value) q ps k
      ∙ ap (last_value (q ∷ ps) k) (h.lookup-insert kv (key_of p) p.value k)

  length-option_string : (p : Pair) (ps : List Pair) → length ps ≤ length (option_string p ps)
  length-option_string p [] = omega arith
  length-option_string p (q ∷ ps) =
      omega (arith, length-option_string q ps, length-append (written p) (44 ∷ option_string q ps))

  -- One or more pairs written with commas between them, where no pair holds a comma and no key an
  -- equals sign, parse without an error, and then every key has the value of the last pair with
  -- that key, and no other key has a value.
  pub kvargs_from_string-option_string :
      (p : Pair) (ps : List Pair)
      → IsPlain p
      → AllPlain ps
      → (kv : h.Table) × (kvargs_from_string h (some (option_string p ps)) ≡ some (success kv))
        × ((k : List ℕ) → kvargs_get h kv k ≡ last_value (p ∷ ps) k none)
  unfolding kvargs_from_string kvargs_get
  kvargs_from_string-option_string p ps plain all = (
    store_pairs h.new p ps,
    pairs_loop-option_string (suc (length (option_string p ps))) h.new p ps 0 plain all
        (omega (arith, length-option_string p ps)),
    λ k. get-store_pairs h.new p ps k ∙ ap (last_value (p ∷ ps) k) (h.lookup-new k),
  )
