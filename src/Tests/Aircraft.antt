-- ===== src/Tests/Aircraft.antt =====
-- Runs of the look-ups of src/ac_data.c, over a database with one aircraft.
use dumphfdl.Common.{
  ℕ, ◌≡◌, ◌≢◌, refl, ap, inl, length, Bool, true, false, Option, none, some, List, [], ◌∷◌, ◌==◌,
  ==_iff, ◌&&◌, arith, if◌then◌else◌,
}
use dumphfdl.LaHash.{LaHash}
use dumphfdl.LaHash.Assoc.{assoc}
use dumphfdl.Cache.{Entry, cache_create, cache_expire, cache_entry_lookup}
use dumphfdl.Util.Hex.{hex_string}
use dumphfdl.AcData.{AcDataEntry, Sqlite, no_entry, AcData, ac_data_entry_lookup, ac_data_create}
use dumphfdl.AcData.Answering.{
  Row, Steps, Serves, answers, expected_answers, ac_data_create-answers,
}
use dumphfdl.AcData.Failures.{lookup-no_row_cached, lookup-failed}

abbrev hash : LaHash ℕ (Entry AcDataEntry)
hash = assoc (λ a b. a == b) ==_iff

abbrev is_same : List ℕ → List ℕ → Bool
is_same [] [] = true
is_same (a ∷ as') (b ∷ bs) = (a == b) && is_same as' bs
is_same as' bs = false

abbrev columns : Row
columns i = if i == 0 then some (b'S' ∷ b'P' ∷ []) else none

-- 4B1234
abbrev key : List ℕ
key = b'4' ∷ b'B' ∷ b'1' ∷ b'2' ∷ b'3' ∷ b'4' ∷ []

abbrev table : List ℕ → Option Row
table k = if is_same k key then some columns else none

-- The statement is the key that is bound to it, and whether it is ready; 21, SQLITE_MISUSE, is the
-- answer to a call on one that is not. `code` is what a step without a row gives.
abbrev database : ℕ → Sqlite
database code = record {
  Db = Unit;
  Stmt = List ℕ × Bool;
  sqlite3_open_v2 = λ f. (_, 0);
  sqlite3_prepare_v2 = λ d. (([], true), 0);
  sqlite3_reset = λ s. ((s.0, true), 0);
  sqlite3_bind_text = λ s k. if s.1 then ((k, true), 0) else (s, 21);
  sqlite3_step =
      λ s. if s.1 then ((s.0, false), if is_same s.0 key then 100 else code) else (s, 21);
  sqlite3_column_count = λ s. 6;
  sqlite3_column_text = λ s i. columns i;
}

step-Steps :
    (s : List ℕ × Bool) (b : Bool)
    → Steps (database 101) (if b then some columns else none) (s, if b then 100 else 101)
step-Steps s true = (refl, refl, λ i. refl)
step-Steps s false = refl

serves : Serves (database 101) table
serves = record {
  is_ready = λ s. s.1;
  reset_ok = λ s. refl;
  reset_ready = λ s. refl;
  bind_ok = λ s k ready. rw ready refl;
  steps = λ s k ready. rw ready (step-Steps (k, false) (is_same k key));
}

abbrev calls : List (ℕ × ℕ × ℕ × ℕ)
calls = (0x4b1234, 10, 10, 10) ∷ (5, 11, 11, 11) ∷ (0x4b1234, 12, 12, 12) ∷ []

ac_data_create-answers_example :
    (d : AcData (database 101) hash) × (ac_data_create (database 101) hash (some key) 1 2 3 4
      ≡ some d)
    × (answers (database 101) hash table d calls ≡ expected_answers (database 101) hash table calls)
ac_data_create-answers_example =
    ac_data_create-answers (database 101) hash table serves key 1 2 3 4 calls refl refl
      (omega arith)

-- 5 is SQLITE_BUSY.
abbrev busy : AcData (database 5) hash
busy = record { cache = cache_create hash 3600 305 0; stmt = ([], true) }

empty-miss :
    (addr : ℕ)
    → cache_entry_lookup hash (cache_expire hash (cache_create hash 3600 305 0) 10).0 addr 10 ≡ none
unfolding cache_entry_lookup cache_expire cache_create assoc
empty-miss addr = refl

ttl_3600 : (cache_create hash 3600 305 0).ttl ≡ 3600
unfolding cache_create
ttl_3600 = refl

seven : hex_string 7 ≡ b'0' ∷ b'0' ∷ b'0' ∷ b'0' ∷ b'0' ∷ b'7' ∷ []
unfolding hex_string
seven = refl

no_row : ◌≢◌ {A = ℕ} (if is_same (hex_string 7) key then 100 else 5) 100
unfolding hex_string
no_row = omega arith

too_long : length (hex_string 0x1000000) ≢ 6
unfolding hex_string
too_long = omega arith

lookup-no_row_cached_example :
    ((ac_data_entry_lookup (database 5) hash busy 7 10 10 10).1 ≡ some no_entry)
    × ((ac_data_entry_lookup
          (database 5)
          hash
          (ac_data_entry_lookup (database 5) hash busy 7 10 10 10).0
          7
          3000
          3000
          3000).1
        ≡ some no_entry)
lookup-no_row_cached_example =
    lookup-no_row_cached (database 5) hash busy 7 10 10 10 3000 3000 3000 (ap length seven) refl
      refl no_row (empty-miss 7) (omega (arith, ttl_3600)) (omega (arith, ttl_3600))

lookup-failed_example :
    ((ac_data_entry_lookup (database 5) hash busy 0x1000000 10 10 10).1 ≡ none)
    × ((ac_data_entry_lookup (database 5) hash busy 0x1000000 10 10 10).0.cache
        ≡ (cache_expire hash busy.cache 10).0)
lookup-failed_example =
    lookup-failed (database 5) hash busy 0x1000000 10 10 10 (empty-miss 0x1000000) (inl too_long)
