-- ===== src/Tests/Options.antt =====
-- Runs of the parser of option strings.
use dumphfdl.Common.{ℕ, ◌≡◌, ◌↔◌, refl, true, none, some, List, [], ◌∷◌, ==_iff, arith}
use dumphfdl.LaHash.{LaHash}
use dumphfdl.LaHash.Assoc.{assoc}
use dumphfdl.Systable.{same_octets}
use dumphfdl.Kvargs.{success, kvargs_from_string, kvargs_get}
use dumphfdl.Kvargs.Parsing.{Pair, option_string, last_value, kvargs_from_string-option_string}

same_octets_refl : (s : List ℕ) → same_octets s s ≡ true
same_octets_refl [] = refl
same_octets_refl (x ∷ s) = ground (arith, same_octets_refl s, (==_iff x x).1 refl)

same_octets_sound : (s t : List ℕ) → same_octets s t ≡ true → s ≡ t
same_octets_sound [] [] e = refl
same_octets_sound [] (y ∷ t) e = absurd (ground (arith, e))
same_octets_sound (x ∷ s) [] e = absurd (ground (arith, e))
same_octets_sound (x ∷ s) (y ∷ t) e =
    let head : x ≡ y = (==_iff _ _).0 (ground (arith, e)) in
    let tail : s ≡ t = same_octets_sound s t (ground (arith, e)) in rw (head, tail) refl

same_octets_iff : (s t : List ℕ) → (same_octets s t ≡ true) ↔ (s ≡ t)
same_octets_iff s t = (same_octets_sound s t, λ e. rw e (same_octets_refl t))

abbrev strings : LaHash (List ℕ) (List ℕ)
strings = assoc same_octets same_octets_iff

-- a=1,b=
abbrev a_is_1 : Pair
a_is_1 = record { first = 97; others = []; value = 49 ∷ [] }

abbrev b_is_empty : Pair
b_is_empty = record { first = 98; others = []; value = [] }

kvargs_from_string-option_string_example :
    (kv : strings.Table) × (kvargs_from_string strings
        (some (option_string a_is_1 (b_is_empty ∷ [])))
      ≡ some (success kv))
    × ((k : List ℕ)
        → kvargs_get strings kv k ≡ last_value strings (a_is_1 ∷ b_is_empty ∷ []) k none)
kvargs_from_string-option_string_example =
    kvargs_from_string-option_string strings a_is_1 (b_is_empty ∷ []) (refl, refl) ((refl, refl), _)
