-- ===== src/AcData/Answering.antt =====
-- What src/ac_data.c tells of an aircraft, against the database.
use dumphfdl.Common.{
  ℕ, ◌<◌, ◌^◌, ◌≡◌, refl, ap, sym, ◌∙◌, true, Option, none, some, List, [], ◌∷◌, length, ltb,
  lt→ltb, if◌then◌else◌, Bool-cases, Option-cases, inl, inr, arith, Bool,
}
use dumphfdl.Util.Hex.{hex_string}
use dumphfdl.LaHash.{LaHash}
use dumphfdl.Cache.{
  Entry, cache_create, cache_entry_create, cache_entry_lookup, cache_expire, is_cache_entry_expired,
}
use dumphfdl.AcData.{
  AcDataEntry, Sqlite, sqlite_ok, sqlite_row, sqlite_done, no_entry, AcData, entry_of_row, stepped,
  bound, query, ac_data_entry_fetch_from_db, ac_data_entry_create, fetched, looked_up,
  ac_data_entry_lookup, ac_data_create, tested, prepared, opened, ac_data_ttl,
  ac_data_expiration_interval,
}

-- The columns of a row.
abbrev pub Row : Type 0
Row = ℕ → Option (List ℕ)

abbrev pub entry_for : Option Row → AcDataEntry
entry_for none = no_entry
entry_for (some row) = record {
  registration = row 0;
  icaotypecode = row 1;
  operatorflagcode = row 2;
  manufacturer = row 3;
  type_name = row 4;
  registeredowners = row 5;
  exists = true;
}

-- What SQLite documents of a query for a text: the row with this key and its six columns, or else
-- that there is none.
abbrev pub Steps : (q : Sqlite) → Option Row → q.Stmt × ℕ → Type 0
Steps q none r = r.1 ≡ sqlite_done
Steps q (some row) r =
    (r.1 ≡ sqlite_row)
    × (q.sqlite3_column_count r.0 ≡ 6)
    × ((i : ℕ) → q.sqlite3_column_text r.0 i ≡ row i)

-- The database holds these rows, and no call on it fails that is allowed: a statement that has been
-- stepped is busy, and can be bound and stepped for another key only once it is reset.
pub record Serves (q : Sqlite) (rows : List ℕ → Option Row) : Type 0 where
  pub is_ready : q.Stmt → Bool
  pub reset_ok : (s : q.Stmt) → (q.sqlite3_reset s).1 ≡ sqlite_ok
  pub reset_ready : (s : q.Stmt) → is_ready (q.sqlite3_reset s).0 ≡ true
  pub bind_ok :
      (s : q.Stmt) (key : List ℕ) → is_ready s ≡ true → (q.sqlite3_bind_text s key).1 ≡ sqlite_ok
  pub steps :
      (s : q.Stmt) (key : List ℕ)
      → is_ready s ≡ true
      → Steps q (rows key) (q.sqlite3_step (q.sqlite3_bind_text s key).0)

length-hex_string : (a : ℕ) → a < 2 ^ 24 → length (hex_string a) ≡ 6
unfolding hex_string
length-hex_string a small = let e : ltb a (2 ^ 24) ≡ true = lt→ltb _ _ small in rw e refl

abbrev value_or : AcDataEntry → Option (Entry AcDataEntry) → AcDataEntry
value_or a none = a
value_or a (some e) = e.value

module _ (q : Sqlite) (h : LaHash ℕ (Entry AcDataEntry)) (rows : List ℕ → Option Row) where
  -- The entry for the row whose ModeS column is the address in six hexadecimal digits.
  abbrev pub expected : ℕ → AcDataEntry
  expected addr = entry_for (rows (hex_string addr))

  stepped_lem :
      (o : Option Row) (r : q.Stmt × ℕ) → Steps q o r → (stepped q h r).1 ≡ some (entry_for o)
  unfolding stepped entry_of_row
  stepped_lem none (stmt, rc) e = ground (arith, e)
  stepped_lem (some row) (stmt, rc) (e, n, cols) =
      ground (arith, e, n, cols 0, cols 1, cols 2, cols 3, cols 4, cols 5)

  module _ (serves : Serves q rows) where
    fetch_lem :
        (stmt : q.Stmt) (addr : ℕ)
        → addr < 2 ^ 24
        → (ac_data_entry_fetch_from_db q h stmt addr).1 ≡ some (expected addr)
    unfolding ac_data_entry_fetch_from_db query bound
    fetch_lem stmt addr small =
        let key = hex_string addr in
        let s = (q.sqlite3_reset stmt).0 in
        let ready = serves.reset_ready stmt in
        rw (length-hex_string addr small, serves.reset_ok stmt, serves.bind_ok s key ready)
          (stepped_lem (rows key) _ (serves.steps s key ready))

  -- Each cached entry is that of the database.
  IsTrue : AcData q h → Type 0
  IsTrue d =
      (k : ℕ) (e : Entry AcDataEntry) → h.lookup d.cache.table k ≡ some e → e.value ≡ expected k

  cache_expire-IsTrue :
      (d : AcData q h) (now : ℕ)
      → IsTrue d
      → IsTrue (record d { cache = (cache_expire h d.cache now).0 })
  unfolding IsTrue cache_expire
  cache_expire-IsTrue d now t k e found = ground (
    arith,
    t k e,
    found,
    h.lookup-foreach_remove d.cache.table (λ j e'. is_cache_entry_expired d.cache.ttl now e') k,
  )

  create-IsTrue :
      (d : AcData q h) (stmt : q.Stmt) (addr now : ℕ)
      → IsTrue d
      → IsTrue (ac_data_entry_create q h (record d { stmt = stmt }) addr (expected addr) now)
  unfolding IsTrue ac_data_entry_create cache_entry_create
  create-IsTrue d stmt addr now t k e found =
      let entry : Entry AcDataEntry = record { created_time = now; value = expected addr } in
      let found' : (if h.same addr k then some entry else h.lookup d.cache.table k) ≡ some e =
        sym (h.lookup-insert d.cache.table addr entry k) ∙ found in
      elim (Bool-cases (h.same addr k)) [
        | inl is ↦
            let same : addr ≡ k = (h.same_iff addr k).0 is in
            let found_new : some entry ≡ some e = rw is at found' in
            ap (value_or (expected addr)) (sym found_new) ∙ ap expected same
        | inr other ↦ t k e (rw other at found')
      ]

  fresh-true :
      (d : AcData q h) (addr now : ℕ) (a : AcDataEntry)
      → IsTrue d
      → cache_entry_lookup h d.cache addr now ≡ some a
      → a ≡ expected addr
  unfolding IsTrue cache_entry_lookup
  fresh-true d addr now a t e = elim (Option-cases (h.lookup d.cache.table addr)) [
    | inl missing ↦ ground (arith, e, missing)
    | inr (x, there) ↦ ground (arith, e, there, t addr x there)
  ]

  abbrev Answered : ℕ → AcData q h × Option AcDataEntry → Type 0
  Answered addr r = (r.1 ≡ some (expected addr)) × IsTrue r.0

  module _ (serves : Serves q rows) where
    fetched_lem :
        (d : AcData q h) (addr now : ℕ) (r : q.Stmt × Option AcDataEntry)
        → IsTrue d
        → r.1 ≡ some (expected addr)
        → Answered addr (fetched q h d addr now r)
    unfolding fetched
    fetched_lem d addr now (stmt, none) t e = absurd (ground (arith, e))
    fetched_lem d addr now (stmt, some entry) t e =
        let same : entry ≡ expected addr = ground (arith, e) in
        rw same (refl, create-IsTrue d stmt addr now t)

    looked_up_lem :
        (d : AcData q h) (addr now : ℕ) (o : Option AcDataEntry)
        → addr < 2 ^ 24
        → IsTrue d
        → ((a : AcDataEntry) → o ≡ some a → a ≡ expected addr)
        → Answered addr (looked_up q h d addr now o)
    unfolding looked_up
    looked_up_lem d addr now (some entry) small t hit = (ap some (hit entry refl), t)
    looked_up_lem d addr now none small t hit =
        fetched_lem d addr now _ t (fetch_lem serves d.stmt addr small)

    ac_data_entry_lookup_lem :
        (d : AcData q h) (addr now1 now2 now3 : ℕ)
        → addr < 2 ^ 24
        → IsTrue d
        → Answered addr (ac_data_entry_lookup q h d addr now1 now2 now3)
    unfolding ac_data_entry_lookup
    ac_data_entry_lookup_lem d addr now1 now2 now3 small t =
        let t1 = cache_expire-IsTrue d now1 t in
        looked_up_lem _ addr now3 _ small t1 (λ a e.
          fresh-true (record d { cache = (cache_expire h d.cache now1).0 }) addr now2 a t1 e)

  -- Look-ups one after the other: an address and the times of its three steps.
  unfoldable pub answers : AcData q h → List (ℕ × ℕ × ℕ × ℕ) → List (Option AcDataEntry)
  answers d [] = []
  answers d ((addr, now1, now2, now3) ∷ calls) =
      let r = ac_data_entry_lookup q h d addr now1 now2 now3 in r.1 ∷ answers r.0 calls

  unfoldable pub expected_answers : List (ℕ × ℕ × ℕ × ℕ) → List (Option AcDataEntry)
  expected_answers [] = []
  expected_answers ((addr, now1, now2, now3) ∷ calls) =
      some (expected addr) ∷ expected_answers calls

  abbrev pub AreAddresses : List (ℕ × ℕ × ℕ × ℕ) → Type 0
  AreAddresses [] = Unit
  AreAddresses ((addr, now1, now2, now3) ∷ calls) = (addr < 2 ^ 24) × AreAddresses calls

  module _ (serves : Serves q rows) where
    answers_lem :
        (d : AcData q h) (calls : List (ℕ × ℕ × ℕ × ℕ))
        → AreAddresses calls
        → IsTrue d
        → answers d calls ≡ expected_answers calls
    unfolding answers expected_answers
    answers_lem d [] small t = refl
    answers_lem d ((addr, now1, now2, now3) ∷ calls) small t =
        let (e, t') = ac_data_entry_lookup_lem serves d addr now1 now2 now3 small.0 t in
        rw (e, answers_lem (ac_data_entry_lookup q h d addr now1 now2 now3).0 calls small.1 t') refl

    new-IsTrue :
        (stmt : q.Stmt) (now : ℕ)
        → IsTrue (record {
          cache = cache_create h ac_data_ttl ac_data_expiration_interval now;
          stmt = stmt;
        })
    unfolding IsTrue cache_create
    new-IsTrue stmt now k e found = absurd (ground (arith, h.lookup-new k, found))

    tested_lem :
        (r : AcData q h × Option AcDataEntry) (calls : List (ℕ × ℕ × ℕ × ℕ))
        → Answered 0 r
        → AreAddresses calls
        → (d : AcData q h) × (tested q h r ≡ some d) × (answers d calls ≡ expected_answers calls)
    unfolding tested
    tested_lem (d, none) calls a small = absurd (ground (arith, a.0))
    tested_lem (d, some entry) calls a small = (d, refl, answers_lem d calls small a.1)

    -- A database that opens and on which no call fails that SQLite allows is accepted, and every look-up of a
    -- 24-bit address, in any sequence and at any times, gives what the database holds for the
    -- address in six hexadecimal digits, whether it comes from the cache or from a query.
    pub ac_data_create-answers :
        (file : List ℕ) (now now1 now2 now3 : ℕ) (calls : List (ℕ × ℕ × ℕ × ℕ))
        → (q.sqlite3_open_v2 file).1 ≡ sqlite_ok
        → (q.sqlite3_prepare_v2 (q.sqlite3_open_v2 file).0).1 ≡ sqlite_ok
        → AreAddresses calls
        → (d : AcData q h) × (ac_data_create q h (some file) now now1 now2 now3 ≡ some d)
          × (answers d calls ≡ expected_answers calls)
    unfolding ac_data_create opened prepared
    ac_data_create-answers file now now1 now2 now3 calls e1 e2 small =
        rw (e1, e2)
          (tested_lem _ calls
            (ac_data_entry_lookup_lem serves _ 0 now1 now2 now3 (omega arith) (new-IsTrue _ now))
            small)
