-- ===== src/AcData/Failures.antt =====
-- How src/ac_data.c answers when the database fails.
use dumphfdl.Common.{
  ℕ, ◌+◌, ◌≤◌, ◌<◌, ◌≡◌, ◌≢◌, ◌⊎◌, refl, ap, ◌∙◌, true, false, Option, none, some, length, ◌==◌,
  arith,
}
use dumphfdl.Util.Hex.{hex_string}
use dumphfdl.LaHash.{LaHash}
use dumphfdl.Cache.{
  Entry, cache_entry_create, cache_entry_lookup, cache_expire, is_cache_entry_expired,
}
use dumphfdl.AcData.{
  AcDataEntry, Sqlite, sqlite_ok, sqlite_row, no_entry, AcData, stepped, bound, query,
  ac_data_entry_fetch_from_db, ac_data_entry_create, fetched, looked_up, ac_data_entry_lookup,
}

module _ (q : Sqlite) (h : LaHash ℕ (Entry AcDataEntry)) where
  -- The entry of an address, as it is before a time and its removal.
  abbrev entry_of : AcData q h → ℕ → Option (Entry AcDataEntry)
  entry_of d addr = h.lookup d.cache.table addr

  lookup-cached :
      (d : AcData q h) (addr now1 now2 now3 : ℕ) (e : Entry AcDataEntry)
      → entry_of d addr ≡ some e
      → now1 < e.created_time + d.cache.ttl
      → now2 ≤ e.created_time + d.cache.ttl
      → (ac_data_entry_lookup q h d addr now1 now2 now3).1 ≡ some e.value
  unfolding ac_data_entry_lookup cache_expire cache_entry_lookup looked_up
  lookup-cached d addr now1 now2 now3 e there early fresh =
      let kept =
        h.lookup-foreach_remove d.cache.table (λ k e'. is_cache_entry_expired d.cache.ttl now1 e')
          addr in
      ground (arith, there, kept)

  expired_cache : AcData q h → ℕ → AcData q h
  expired_cache d now = record d { cache = (cache_expire h d.cache now).0 }

  -- A query whose step gives no row ends with an empty entry, whatever its code.
  fetch-no_row :
      (stmt : q.Stmt) (addr : ℕ)
      → length (hex_string addr) ≡ 6
      → (q.sqlite3_reset stmt).1 ≡ sqlite_ok
      → (q.sqlite3_bind_text (q.sqlite3_reset stmt).0 (hex_string addr)).1 ≡ sqlite_ok
      → (q.sqlite3_step (q.sqlite3_bind_text (q.sqlite3_reset stmt).0 (hex_string addr)).0).1
        ≢ sqlite_row
      → (ac_data_entry_fetch_from_db q h stmt addr).1 ≡ some no_entry
  unfolding ac_data_entry_fetch_from_db query bound stepped
  fetch-no_row stmt addr six reset bind no_row =
      let key = hex_string addr in
      let rc = (q.sqlite3_step (q.sqlite3_bind_text (q.sqlite3_reset stmt).0 key).0).1 in
      let other : (rc == sqlite_row) ≡ false = ground (arith, no_row) in
      rw (six, reset, bind, other) refl

  fetched-cached :
      (d : AcData q h) (addr now : ℕ) (r : q.Stmt × Option AcDataEntry) (a : AcDataEntry)
      → r.1 ≡ some a
      → ((fetched q h d addr now r).1 ≡ some a)
        × (entry_of (fetched q h d addr now r).0 addr
            ≡ some (record { created_time = now; value = a }))
        × ((fetched q h d addr now r).0.cache.ttl ≡ d.cache.ttl)
  unfolding fetched ac_data_entry_create cache_entry_create
  fetched-cached d addr now (stmt, none) a e = absurd (ground (arith, e))
  fetched-cached d addr now (stmt, some b) a e =
      let same : b ≡ a = ground (arith, e) in
      let itself : h.same addr addr ≡ true = (h.same_iff addr addr).1 refl in
      rw same (refl, h.lookup-insert d.cache.table addr _ addr ∙ rw itself refl, refl)

  expire-ttl : (d : AcData q h) (now : ℕ) → (cache_expire h d.cache now).0.ttl ≡ d.cache.ttl
  unfolding cache_expire
  expire-ttl d now = ground arith

  lookup-missed :
      (d : AcData q h) (addr now1 now2 now3 : ℕ)
      → cache_entry_lookup h (cache_expire h d.cache now1).0 addr now2 ≡ none
      → ac_data_entry_lookup q h d addr now1 now2 now3
        ≡ fetched q h (expired_cache d now1) addr now3 (ac_data_entry_fetch_from_db q h d.stmt addr)
  unfolding ac_data_entry_lookup looked_up expired_cache
  lookup-missed d addr now1 now2 now3 miss = rw miss refl

  missed-cached :
      (d : AcData q h) (addr now1 now3 : ℕ) (r : q.Stmt × Option AcDataEntry) (a : AcDataEntry)
      (d' : AcData q h × Option AcDataEntry)
      → d' ≡ fetched q h (expired_cache d now1) addr now3 r
      → r.1 ≡ some a
      → (d'.1 ≡ some a)
        × (entry_of d'.0 addr ≡ some (record { created_time = now3; value = a }))
        × (d'.0.cache.ttl ≡ d.cache.ttl)
  unfolding expired_cache
  missed-cached d addr now1 now3 r a d' is e =
      let (e1, e2, e3) = fetched-cached (expired_cache d now1) addr now3 r a e in
      (
        ap (λ x. x.1) is ∙ e1,
        ap (λ x. entry_of x.0 addr) is ∙ e2,
        ap (λ x. x.0.cache.ttl) is ∙ e3 ∙ expire-ttl d now1,
      )

  -- If a query for an address of six digits ends without a row, the look-up reports that the aircraft
  -- does not exist. A look-up of the same address directly after it, before the time to live is
  -- over, reports the same, whatever the database would answer by then. The code of the query does
  -- not matter: an error of the database is remembered like an aircraft that it does not have.
  pub lookup-no_row_cached :
      (d : AcData q h) (addr now1 now2 now3 t1 t2 t3 : ℕ)
      → length (hex_string addr) ≡ 6
      → (q.sqlite3_reset d.stmt).1 ≡ sqlite_ok
      → (q.sqlite3_bind_text (q.sqlite3_reset d.stmt).0 (hex_string addr)).1 ≡ sqlite_ok
      → (q.sqlite3_step (q.sqlite3_bind_text (q.sqlite3_reset d.stmt).0 (hex_string addr)).0).1
        ≢ sqlite_row
      → cache_entry_lookup h (cache_expire h d.cache now1).0 addr now2 ≡ none
      → t1 < now3 + d.cache.ttl
      → t2 ≤ now3 + d.cache.ttl
      → ((ac_data_entry_lookup q h d addr now1 now2 now3).1 ≡ some no_entry)
        × ((ac_data_entry_lookup q h
              (ac_data_entry_lookup q h d addr now1 now2 now3).0
              addr
              t1
              t2
              t3).1
            ≡ some no_entry)
  lookup-no_row_cached d addr now1 now2 now3 t1 t2 t3 six reset bind no_row miss early fresh =
      let d' = (ac_data_entry_lookup q h d addr now1 now2 now3).0 in
      let (e, there, ttl) =
        missed-cached d addr now1 now3 (ac_data_entry_fetch_from_db q h d.stmt addr) no_entry
          (ac_data_entry_lookup q h d addr now1 now2 now3)
          (lookup-missed d addr now1 now2 now3 miss)
          (fetch-no_row d.stmt addr six reset bind no_row) in
      (
        e,
        lookup-cached d' addr t1 t2 t3 (record { created_time = now3; value = no_entry }) there
            (omega (arith, ttl, early)) (omega (arith, ttl, fresh)),
      )

  fetched-none :
      (d : AcData q h) (addr now : ℕ) (r : q.Stmt × Option AcDataEntry)
      → r.1 ≡ none
      → ((fetched q h d addr now r).1 ≡ none) × ((fetched q h d addr now r).0.cache ≡ d.cache)
  unfolding fetched
  fetched-none d addr now (stmt, none) e = (refl, refl)
  fetched-none d addr now (stmt, some a) e = absurd (ground (arith, e))

  -- The three failures in front of the step.
  abbrev pub Fails : q.Stmt → ℕ → Type 0
  Fails stmt addr =
      (length (hex_string addr) ≢ 6)
      ⊎ ((q.sqlite3_reset stmt).1 ≢ sqlite_ok)
      ⊎ ((q.sqlite3_bind_text (q.sqlite3_reset stmt).0 (hex_string addr)).1 ≢ sqlite_ok)

  fetch-none :
      (stmt : q.Stmt) (addr : ℕ)
      → Fails stmt addr
      → (ac_data_entry_fetch_from_db q h stmt addr).1 ≡ none
  unfolding ac_data_entry_fetch_from_db query bound
  fetch-none stmt addr why = ground (arith, why)

  -- A look-up that finds nothing cached and whose query fails, or whose address has more than six
  -- digits, gives no entry and caches none: a later look-up asks the database again.
  pub lookup-failed :
      (d : AcData q h) (addr now1 now2 now3 : ℕ)
      → cache_entry_lookup h (cache_expire h d.cache now1).0 addr now2 ≡ none
      → Fails d.stmt addr
      → ((ac_data_entry_lookup q h d addr now1 now2 now3).1 ≡ none)
        × ((ac_data_entry_lookup q h d addr now1 now2 now3).0.cache
            ≡ (cache_expire h d.cache now1).0)
  unfolding expired_cache
  lookup-failed d addr now1 now2 now3 miss why =
      rw (lookup-missed d addr now1 now2 now3 miss)
        (fetched-none (expired_cache d now1) addr now3 _ (fetch-none d.stmt addr why))
