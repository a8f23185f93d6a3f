-- ===== src/Systable/PduSets.antt =====
-- The store of system table PDUs in src/systable.c: the PDUs of one table may come in any order
-- and any number of times.
use dumphfdl.Common.{
  ℕ, suc, ◌<◌, ◌≡◌, ◌∙◌, sym, refl, ap, Bool, true, false, ◌||◌, Option, none, some, List, [], ◌∷◌,
  ◌++◌, length, get_elem?, get_or, set, length-set, get_elem?-set_self, get_elem?-set_ne,
  get_elem?-lt, length-replicate, ◌==◌, ==_iff, ltb, leb, Bool-cases, inl, inr, arith,
}
use dumphfdl.Systable.{
  PduSet, pdu_set_create, kept_set, same_octets, stored_at, systable_store_pdu, joined, reassemble,
}

same_octets-eq : (xs ys : List ℕ) → same_octets xs ys ≡ true → xs ≡ ys
same_octets-eq [] [] e = refl
same_octets-eq [] (y ∷ ys) e = absurd (ground (arith, e))
same_octets-eq (x ∷ xs) [] e = absurd (ground (arith, e))
same_octets-eq (x ∷ xs) (y ∷ ys) e =
    let head : x ≡ y = (==_iff _ _).0 (ground (arith, e)) in
    let tail : xs ≡ ys = same_octets-eq xs ys (ground (arith, e)) in rw (head, tail) refl

-- The new contents, whether or not the old ones are replaced.
stored_at_lem : (old : Option (List ℕ)) (buf : List ℕ) → stored_at old buf ≡ buf
stored_at_lem none buf = refl
stored_at_lem (some old) buf = elim (Bool-cases (same_octets old buf)) [
  | inl same ↦ rw same (same_octets-eq old buf same)
  | inr other ↦ rw other refl
]

-- The store holds a set of n PDUs of a version, with the given contents at an index.
Holds : ℕ → ℕ → Option PduSet → ℕ → List ℕ → Type 0
Holds version n st i buf =
    (ps : PduSet) × (st ≡ some ps)
    × (ps.version ≡ version)
    × (length ps.pdus ≡ n)
    × (get_elem? ps.pdus i ≡ some (some buf))

kept_set-fits :
    (version n : ℕ) (st : Option PduSet)
    → ((kept_set version n st).version ≡ version) × (length (kept_set version n st).pdus ≡ n)
unfolding kept_set pdu_set_create
kept_set-fits version n none = (refl, length-replicate n none)
kept_set-fits version n (some old) = elim (Bool-cases (old.version == version)) [
  | inl same ↦ elim (Bool-cases (length old.pdus == n)) [
    | inl as_long ↦ rw (same, as_long) ((==_iff _ _).0 same, (==_iff _ _).0 as_long)
    | inr other ↦ rw (same, other) (refl, length-replicate n none)
  ]
  | inr other ↦ rw other (refl, length-replicate n none)
]

kept_set-same :
    (version n : ℕ) (ps : PduSet)
    → ps.version ≡ version
    → length ps.pdus ≡ n
    → kept_set version n (some ps) ≡ ps
unfolding kept_set
kept_set-same version n ps e1 e2 =
    let v : (ps.version == version) ≡ true = (==_iff _ _).1 e1 in
    let l : (length ps.pdus == n) ≡ true = (==_iff _ _).1 e2 in rw (v, l) refl

systable_store_pdu_lem :
    (st : Option PduSet) (version i n : ℕ) (buf : List ℕ)
    → i < n
    → systable_store_pdu st version i n buf
      ≡ some
          (record (kept_set version n st) { pdus = set (kept_set version n st).pdus i (some buf) })
unfolding systable_store_pdu
systable_store_pdu_lem st version i n buf h =
    let ps = kept_set version n st in
    let accepted : (ltb n 1 || leb n i) ≡ false = ground arith in
    let there : get_elem? ps.pdus i ≡ some (get_or ps.pdus i none) =
      get_elem?-lt ps.pdus i none (omega (arith, (kept_set-fits version n st).1, h)) in
    rw (accepted, there, stored_at_lem (get_or ps.pdus i none) buf) refl

-- A store of the PDU at an index makes the set hold it.
store-Holds :
    (st : Option PduSet) (version i n : ℕ) (buf : List ℕ)
    → i < n
    → Holds version n (systable_store_pdu st version i n buf) i buf
unfolding Holds
store-Holds st version i n buf h =
    let ps = kept_set version n st in
    let (v, l) = kept_set-fits version n st in
    (
      record ps { pdus = set ps.pdus i (some buf) },
      systable_store_pdu_lem st version i n buf h,
      v,
      length-set ps.pdus i (some buf) ∙ l,
      get_elem?-set_self ps.pdus i (some buf) (omega (arith, l, h)),
    )

-- A PDU that the set holds is still held after the same PDU or another of the set is stored.
store-keeps :
    (st : Option PduSet) (version i j n : ℕ) (buf buf' : List ℕ)
    → j < n
    → Holds version n st i buf
    → (i ≡ j → buf ≡ buf')
    → Holds version n (systable_store_pdu st version j n buf') i buf
unfolding Holds
store-keeps st version i j n buf buf' h (ps, e, v, l, at) same =
    let kept : kept_set version n st ≡ ps =
      ap (kept_set version n) e ∙ kept_set-same version n ps v l in
    let stored : systable_store_pdu st version j n buf'
        ≡ some (record ps { pdus = set ps.pdus j (some buf') }) =
      systable_store_pdu_lem st version j n buf' h
      ∙ ap (λ (q : PduSet). some (record q { pdus = set q.pdus j (some buf') })) kept in
    (
      record ps { pdus = set ps.pdus j (some buf') },
      stored,
      v,
      length-set ps.pdus j (some buf') ∙ l,
      (elim (Bool-cases (j == i)) [
        | inl is ↦
            let e' : j ≡ i = (==_iff _ _).0 is in
            rw (e', same (sym e'))
              (get_elem?-set_self ps.pdus i (some buf') (omega (arith, l, h, e')))
        | inr other ↦
            get_elem?-set_ne ps.pdus j i (some buf')
              (λ e'. ground (arith, other, (==_iff j i).1 e'))
            ∙ at
      ]),
    )

-- The PDUs of a set, stored in the order of a list of their indices.
abbrev pub store_all : ℕ → List (List ℕ) → List ℕ → Option PduSet → Option PduSet
store_all version fragments [] st = st
store_all version fragments (i ∷ order) st =
    store_all version fragments order
      (systable_store_pdu st version i (length fragments) (get_or fragments i []))

abbrev pub AllBelow : ℕ → List ℕ → Type 0
AllBelow n [] = Unit
AllBelow n (i ∷ order) = (i < n) × AllBelow n order

abbrev pub occurs : ℕ → List ℕ → Bool
occurs i [] = false
occurs i (j ∷ order) = i == j || occurs i order

store_all-keeps :
    (version : ℕ) (fragments : List (List ℕ)) (order : List ℕ) (st : Option PduSet) (i : ℕ)
    → AllBelow (length fragments) order
    → Holds version (length fragments) st i (get_or fragments i [])
    → Holds version
        (length fragments)
        (store_all version fragments order st)
        i
        (get_or fragments i [])
store_all-keeps version fragments [] st i h held = held
store_all-keeps version fragments (j ∷ order) st i h held =
    store_all-keeps version fragments order _ i h.1 (
      store-keeps st version i j (length fragments) (get_or fragments i []) (get_or fragments j [])
        h.0 held (λ e. ap (λ k. get_or fragments k []) e))

store_all-Holds :
    (version : ℕ) (fragments : List (List ℕ)) (order : List ℕ) (st : Option PduSet) (i : ℕ)
    → AllBelow (length fragments) order
    → occurs i order ≡ true
    → Holds version
        (length fragments)
        (store_all version fragments order st)
        i
        (get_or fragments i [])
store_all-Holds version fragments [] st i h found = absurd (ground (arith, found))
store_all-Holds version fragments (j ∷ order) st i h found = elim (Bool-cases (i == j)) [
  | inl is ↦
      let e : i ≡ j = (==_iff _ _).0 is in
      store_all-keeps version fragments order _ i h.1
        (rw e (store-Holds st version j (length fragments) (get_or fragments j []) h.0))
  | inr other ↦ store_all-Holds version fragments order _ i h.1 (ground (arith, other, found))
]

abbrev pub concat : List (List ℕ) → List ℕ
concat [] = []
concat (l ∷ ls) = l ++ concat ls

joined-concat :
    (pdus : List (Option (List ℕ))) (fragments : List (List ℕ))
    → length pdus ≡ length fragments
    → ((i : ℕ) → i < length fragments → get_elem? pdus i ≡ some (some (get_or fragments i [])))
    → joined pdus ≡ some (concat fragments)
joined-concat [] [] e h = refl
joined-concat [] (f ∷ fs) e h = absurd (omega (arith, e))
joined-concat (p ∷ ps) [] e h = absurd (omega (arith, e))
joined-concat (p ∷ ps) (f ∷ fs) e h =
    let head : some p ≡ some (some f) = h 0 (omega arith) in
    let p' : p ≡ some f = ground (arith, head) in
    let rest : joined ps ≡ some (concat fs) =
      joined-concat ps fs (omega (arith, e)) (λ i lt. h (suc i) (omega (arith, lt))) in
    rw (p', rest) refl

-- Store the PDUs of a set that is not empty in any order, each once or more, whatever was stored before: then the
-- set is complete and its message is the PDUs' contents in the order of their indices.
pub reassemble-store_all :
    (version : ℕ) (fragments : List (List ℕ)) (order : List ℕ) (st : Option PduSet)
    → 0 < length fragments
    → AllBelow (length fragments) order
    → ((i : ℕ) → i < length fragments → occurs i order ≡ true)
    → reassemble (store_all version fragments order st) ≡ some (concat fragments)
unfolding reassemble Holds
reassemble-store_all version fragments order st h below all =
    let held : (i : ℕ)
        → i < length fragments
        → Holds version (length fragments) (store_all version fragments order st) i
            (get_or fragments i []) =
      λ i lt. store_all-Holds version fragments order st i below (all i lt) in
    let (ps, e, v, l, at) = held 0 h in
    let nonempty : ltb 0 (length ps.pdus) ≡ true = ground (arith, l, h) in
    let elements : (i : ℕ)
        → i < length fragments
        → get_elem? ps.pdus i ≡ some (some (get_or fragments i [])) =
      λ i lt.
        let (ps', e', v', l', at') = held i lt in
        let same : some ps ≡ some ps' = sym e ∙ e' in
        let same' : ps ≡ ps' = ground (arith, same) in rw same' at' in
    rw (e, nonempty) (joined-concat ps.pdus fragments l elements)
