-- ===== src/LaHash.antt =====
-- The hash table of libacars (la_hash_*), which is not part of this repository: its operations as
-- a parameter, with what src/cache.c and src/kvargs.c rely on. `same` is the compare function
-- of the vtable. `count` is the number of entries held, which no function of the library returns.
pub mod Assoc
use dumphfdl.Common.{ℕ, ◌+◌, ◌≡◌, ◌↔◌, Bool, true, Option, none, some, if◌then◌else◌, is_some}

abbrev pub keep_unless : {V : Type 0} → (V → Bool) → Option V → Option V
keep_unless p none = none
keep_unless p (some v) = if p v then none else some v

pub record LaHash (K V : Type 0) : Type 1 where
  pub Table : Type 0
  pub same : K → K → Bool
  pub new : Table
  -- The Boolean tells whether an entry with this key was replaced.
  pub insert : Table → K → V → Table × Bool
  -- The Boolean tells whether there was such an entry.
  pub remove : Table → K → Table × Bool
  pub lookup : Table → K → Option V
  -- Removes the entries that the callback picks, and counts them.
  pub foreach_remove : Table → (K → V → Bool) → Table × ℕ
  pub count : Table → ℕ
  pub same_iff : (a b : K) → (same a b ≡ true) ↔ (a ≡ b)
  pub lookup-new : (k : K) → lookup new k ≡ none
  pub lookup-insert :
      (t : Table) (k : K) (v : V) (j : K)
      → lookup (insert t k v).0 j ≡ (if same k j then some v else lookup t j)
  pub insert_replaced : (t : Table) (k : K) (v : V) → (insert t k v).1 ≡ is_some (lookup t k)
  pub lookup-remove :
      (t : Table) (k j : K) → lookup (remove t k).0 j ≡ (if same k j then none else lookup t j)
  pub remove_found : (t : Table) (k : K) → (remove t k).1 ≡ is_some (lookup t k)
  pub lookup-foreach_remove :
      (t : Table) (p : K → V → Bool) (j : K)
      → lookup (foreach_remove t p).0 j ≡ keep_unless (p j) (lookup t j)
  pub count-new : count new ≡ 0
  pub count-insert :
      (t : Table) (k : K) (v : V)
      → count (insert t k v).0 ≡ (if (insert t k v).1 then count t else count t + 1)
  pub count-remove :
      (t : Table) (k : K)
      → count t ≡ (if (remove t k).1 then count (remove t k).0 + 1 else count (remove t k).0)
  pub count-foreach_remove :
      (t : Table) (p : K → V → Bool)
      → count t ≡ count (foreach_remove t p).0 + (foreach_remove t p).1
