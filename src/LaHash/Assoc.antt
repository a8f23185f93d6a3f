-- ===== src/LaHash/Assoc.antt =====
-- An association list with distinct keys meets every law that is assumed of la_hash.
use dumphfdl.Common.{
  ℕ, suc, ◌+◌, ◌≡◌, refl, ◌↔◌, Bool, true, Option, none, some, if◌then◌else◌, is_some, List, [],
  ◌∷◌, length, arith,
}
use dumphfdl.LaHash.{LaHash, keep_unless}

module _ {K V : Type 0} (same : K → K → Bool) where
  unfoldable pub find : List (K × V) → K → Option V
  find [] j = none
  find ((k, v) ∷ l) j = if same k j then some v else find l j

  unfoldable pub store : List (K × V) → K → V → List (K × V)
  store [] k v = (k, v) ∷ []
  store ((j, w) ∷ l) k v = if same j k then (k, v) ∷ l else (j, w) ∷ store l k v

  unfoldable pub drop_key : List (K × V) → K → List (K × V)
  drop_key [] k = []
  drop_key ((j, w) ∷ l) k = if same j k then l else (j, w) ∷ drop_key l k

  unfoldable pub sweep : List (K × V) → (K → V → Bool) → List (K × V)
  sweep [] p = []
  sweep ((k, v) ∷ l) p = if p k v then sweep l p else (k, v) ∷ sweep l p

  unfoldable pub swept : List (K × V) → (K → V → Bool) → ℕ
  swept [] p = 0
  swept ((k, v) ∷ l) p = if p k v then suc (swept l p) else swept l p

  abbrev pub IsDistinct : List (K × V) → Type 0
  IsDistinct [] = Unit
  IsDistinct ((k, v) ∷ l) = (find l k ≡ none) × IsDistinct l

  module _ (same_iff : (a b : K) → (same a b ≡ true) ↔ (a ≡ b)) where
    pub find-store :
        (l : List (K × V)) (k : K) (v : V) (j : K)
        → find (store l k v) j ≡ (if same k j then some v else find l j)
    unfolding find store
    find-store [] k v j = refl
    find-store ((i, w) ∷ l) k v j =
        ground (arith, same_iff i k, same_iff i j, same_iff k j, find-store l k v j)

    pub store-IsDistinct :
        (l : List (K × V)) (k : K) (v : V) → IsDistinct l → IsDistinct (store l k v)
    unfolding find store
    store-IsDistinct [] k v d = (refl, tt)
    store-IsDistinct ((i, w) ∷ l) k v d =
        ground (arith, same_iff i k, same_iff k i, find-store l k v i, store-IsDistinct l k v d.1)

    pub find-drop_key :
        (l : List (K × V)) (k j : K)
        → IsDistinct l
        → find (drop_key l k) j ≡ (if same k j then none else find l j)
    unfolding find drop_key
    find-drop_key [] k j d = ground arith
    find-drop_key ((i, w) ∷ l) k j d =
        ground (arith, same_iff i k, same_iff i j, same_iff k j, find-drop_key l k j d.1)

    pub drop_key-IsDistinct : (l : List (K × V)) (k : K) → IsDistinct l → IsDistinct (drop_key l k)
    unfolding find drop_key
    drop_key-IsDistinct [] k d = tt
    drop_key-IsDistinct ((i, w) ∷ l) k d =
        ground (arith, find-drop_key l k i d.1, drop_key-IsDistinct l k d.1)

    pub find-sweep :
        (l : List (K × V)) (p : K → V → Bool) (j : K)
        → IsDistinct l
        → find (sweep l p) j ≡ keep_unless (p j) (find l j)
    unfolding find sweep
    find-sweep [] p j d = refl
    find-sweep ((i, w) ∷ l) p j d = ground (arith, same_iff i j, find-sweep l p j d.1)

    pub sweep-IsDistinct :
        (l : List (K × V)) (p : K → V → Bool) → IsDistinct l → IsDistinct (sweep l p)
    unfolding find sweep
    sweep-IsDistinct [] p d = tt
    sweep-IsDistinct ((i, w) ∷ l) p d =
        ground (arith, find-sweep l p i d.1, sweep-IsDistinct l p d.1)

    pub length-store :
        (l : List (K × V)) (k : K) (v : V)
        → length (store l k v) ≡ (if is_some (find l k) then length l else length l + 1)
    unfolding find store
    length-store [] k v = refl
    length-store ((i, w) ∷ l) k v = ground (arith, length-store l k v)

    pub length-drop_key :
        (l : List (K × V)) (k : K)
        → length l
          ≡ (if is_some (find l k) then length (drop_key l k) + 1 else length (drop_key l k))
    unfolding find drop_key
    length-drop_key [] k = refl
    length-drop_key ((i, w) ∷ l) k = ground (arith, length-drop_key l k)

    pub length-sweep :
        (l : List (K × V)) (p : K → V → Bool) → length l ≡ length (sweep l p) + swept l p
    unfolding sweep swept
    length-sweep [] p = refl
    length-sweep ((i, w) ∷ l) p = ground (arith, length-sweep l p)

    unfoldable pub assoc : LaHash K V
    unfolding find store drop_key sweep swept
    assoc = record {
      Table = (l : List (K × V)) × IsDistinct l;
      same = same;
      new = ([], tt);
      insert = λ t k v. ((store t.0 k v, store-IsDistinct t.0 k v t.1), is_some (find t.0 k));
      remove = λ t k. ((drop_key t.0 k, drop_key-IsDistinct t.0 k t.1), is_some (find t.0 k));
      lookup = λ t k. find t.0 k;
      foreach_remove = λ t p. ((sweep t.0 p, sweep-IsDistinct t.0 p t.1), swept t.0 p);
      count = λ t. length t.0;
      same_iff = same_iff;
      lookup-new = λ k. refl;
      lookup-insert = λ t k v j. find-store t.0 k v j;
      insert_replaced = λ t k v. refl;
      lookup-remove = λ t k j. find-drop_key t.0 k j t.1;
      remove_found = λ t k. refl;
      lookup-foreach_remove = λ t p j. find-sweep t.0 p j t.1;
      count-new = refl;
      count-insert = λ t k v. length-store t.0 k v;
      count-remove = λ t k. length-drop_key t.0 k;
      count-foreach_remove = λ t p. length-sweep t.0 p;
    }
