-- ===== src/Hfdl/Bank.antt =====
-- The deinterleavers of a channel of src/hfdl.c, one for each shift of M1.
use dumphfdl.Common.{
  ℕ, zero, suc, ◌≡◌, ◌<◌, inl, inr, refl, sym, ◌∙◌, arith, some, ◌>>=◌, List, [], ◌∷◌, get_elem?,
  set, get_elem?-set_self, get_elem?-set_ne, length, map, Bool-cases, ◌==◌, ==_iff,
}
use dumphfdl.Hfdl.Deinterleaver.{Deinterleaver, deinterleaver_reset}
use dumphfdl.Hfdl.Interleaving.{IsFor, reset-IsFor}

get_elem?-bound :
    {A : Type 0} (xs : List A) (i : ℕ) (a : A) → get_elem? xs i ≡ some a → i < length xs
get_elem?-bound [] i a h = absurd (ground (arith, h))
get_elem?-bound (x ∷ xs) zero a h = omega arith
get_elem?-bound (x ∷ xs) (suc i) a h = omega (arith, get_elem?-bound xs i a h)

get_elem?-map :
    {A B : Type 0} (f : A → B) (xs : List A) (i : ℕ)
    → get_elem? (map f xs) i ≡ (get_elem? xs i >>= λ (x : A). some (f x))
get_elem?-map f [] i = refl
get_elem?-map f (x ∷ xs) zero = refl
get_elem?-map f (x ∷ xs) (suc i) = get_elem?-map f xs i

-- The deinterleavers of a channel, one for each shift of M1.
abbrev pub IsBank : List Deinterleaver → Type 0
IsBank ds = (m1 : ℕ) → m1 < 8 → (d : Deinterleaver) × (get_elem? ds m1 ≡ some d) × IsFor m1 d

abbrev pub IsHome : List Deinterleaver → Type 0
IsHome ds =
    (m1 : ℕ)
    → m1 < 8
    → (d : Deinterleaver) × (get_elem? ds m1 ≡ some d) × IsFor m1 d × (d.row ≡ 0) × (d.col ≡ 0)

pub reset-IsHome : (ds : List Deinterleaver) → IsBank ds → IsHome (map deinterleaver_reset ds)
unfolding deinterleaver_reset
reset-IsHome ds bank m1 h =
    let (d, e, for) = bank m1 h in
    (
      deinterleaver_reset d,
      rw (get_elem?-map deinterleaver_reset ds m1, e) refl,
      reset-IsFor m1 d for,
      refl,
      refl,
    )

pub set-IsBank :
    (ds : List Deinterleaver) (m : ℕ) (d : Deinterleaver)
    → IsHome ds
    → IsFor m d
    → IsBank (set ds m d)
set-IsBank ds m d home for m1 h = elim (Bool-cases (m == m1)) [
  | inl e ↦
      let same : m ≡ m1 = (==_iff m m1).0 e in
      let (d', found, _, _, _) = home m (omega (arith, h, same)) in
      rw (sym same) (d, get_elem?-set_self ds m d (get_elem?-bound ds m d' found), for)
  | inr e ↦
      let (d', e', for', _, _) = home m1 h in
      (d', get_elem?-set_ne ds m m1 d (λ p. ground (arith, e, p)) ∙ e', for')
]
