-- ===== src/AcData.antt =====
-- src/ac_data.c, built with SQLite: the data of an aircraft, cached from a database. SQLite is a
-- parameter. Metrics and the destructors are left out.
pub mod Answering
pub mod Failures
use dumphfdl.Common.{
  ℕ, zero, suc, ◌+◌, ◌<◌, Bool, true, false, Option, none, some, List, [], ◌∷◌, length, ◌==◌, ltb,
  not, if◌then◌else◌,
}
use dumphfdl.Util.Hex.{hex_string}
use dumphfdl.LaHash.{LaHash}
use dumphfdl.Cache.{
  Entry, Cache, cache_create, cache_entry_create, cache_entry_lookup, cache_expire,
}

-- struct ac_data_entry of src/ac_data.h; a null pointer is `none`.
pub record AcDataEntry : Type 0 where
  pub registration : Option (List ℕ)
  pub icaotypecode : Option (List ℕ)
  pub operatorflagcode : Option (List ℕ)
  pub manufacturer : Option (List ℕ)
  pub type_name : Option (List ℕ)
  pub registeredowners : Option (List ℕ)
  pub exists : Bool

-- SQLite, with the database and the prepared statement as one state. A result code is a number.
pub record Sqlite : Type 1 where
  pub Db : Type 0
  pub Stmt : Type 0
  pub sqlite3_open_v2 : List ℕ → Db × ℕ
  -- SELECT of the six columns FROM Aircraft WHERE ModeS = ?
  pub sqlite3_prepare_v2 : Db → Stmt × ℕ
  pub sqlite3_reset : Stmt → Stmt × ℕ
  pub sqlite3_bind_text : Stmt → List ℕ → Stmt × ℕ
  pub sqlite3_step : Stmt → Stmt × ℕ
  pub sqlite3_column_count : Stmt → ℕ
  pub sqlite3_column_text : Stmt → ℕ → Option (List ℕ)

abbrev pub sqlite_ok : ℕ
sqlite_ok = 0

abbrev pub sqlite_row : ℕ
sqlite_row = 100

abbrev pub sqlite_done : ℕ
sqlite_done = 101

abbrev pub ac_data_ttl : ℕ
ac_data_ttl = 3600

abbrev pub ac_data_expiration_interval : ℕ
ac_data_expiration_interval = 305

-- The structure as XCALLOC gives it.
abbrev pub no_entry : AcDataEntry
no_entry = record {
  registration = none;
  icaotypecode = none;
  operatorflagcode = none;
  manufacturer = none;
  type_name = none;
  registeredowners = none;
  exists = false;
}

module _ (q : Sqlite) (h : LaHash ℕ (Entry AcDataEntry)) where
  -- struct ac_data
  pub record AcData : Type 0 where
    pub cache : Cache h
    pub stmt : q.Stmt

  unfoldable pub entry_of_row : q.Stmt → AcDataEntry
  entry_of_row stmt = record {
    registration = q.sqlite3_column_text stmt 0;
    icaotypecode = q.sqlite3_column_text stmt 1;
    operatorflagcode = q.sqlite3_column_text stmt 2;
    manufacturer = q.sqlite3_column_text stmt 3;
    type_name = q.sqlite3_column_text stmt 4;
    registeredowners = q.sqlite3_column_text stmt 5;
    exists = true;
  }

  -- What sqlite3_step returned: a code that is neither of the expected ones leaves the entry as
  -- it was allocated.
  unfoldable pub stepped : q.Stmt × ℕ → q.Stmt × Option AcDataEntry
  unfolding entry_of_row
  stepped (stmt, rc) =
      if rc == sqlite_row
      then (if ltb (q.sqlite3_column_count stmt) 6
          then (stmt, none)
          else (stmt, some (entry_of_row stmt)))
      else (stmt, some no_entry)

  unfoldable pub bound : q.Stmt × ℕ → q.Stmt × Option AcDataEntry
  unfolding stepped
  bound (stmt, rc) = if rc == sqlite_ok then stepped (q.sqlite3_step stmt) else (stmt, none)

  unfoldable pub query : q.Stmt × ℕ → List ℕ → q.Stmt × Option AcDataEntry
  unfolding bound
  query (stmt, rc) hex_address =
      if rc == sqlite_ok then bound (q.sqlite3_bind_text stmt hex_address) else (stmt, none)

  unfoldable pub ac_data_entry_fetch_from_db : q.Stmt → ℕ → q.Stmt × Option AcDataEntry
  unfolding query
  ac_data_entry_fetch_from_db stmt icao_address =
      if length (hex_string icao_address) == 6
      then query (q.sqlite3_reset stmt) (hex_string icao_address)
      else (stmt, none)

  unfoldable pub ac_data_entry_create : AcData → ℕ → AcDataEntry → ℕ → AcData
  ac_data_entry_create d icao_address entry now = record d {
    cache = (cache_entry_create h d.cache icao_address entry now).0;
  }

  -- Behind a cache miss.
  unfoldable pub fetched :
      AcData → ℕ → ℕ → q.Stmt × Option AcDataEntry → AcData × Option AcDataEntry
  unfolding ac_data_entry_create
  fetched d icao_address now (stmt, none) = (record d { stmt = stmt }, none)
  fetched d icao_address now (stmt, some entry) =
      (ac_data_entry_create (record d { stmt = stmt }) icao_address entry now, some entry)

  unfoldable pub looked_up : AcData → ℕ → ℕ → Option AcDataEntry → AcData × Option AcDataEntry
  unfolding fetched
  looked_up d icao_address now (some entry) = (d, some entry)
  looked_up d icao_address now none =
      fetched d icao_address now (ac_data_entry_fetch_from_db d.stmt icao_address)

  -- The three times are those of the expiration, the look-up and the creation.
  unfoldable pub ac_data_entry_lookup : AcData → ℕ → ℕ → ℕ → ℕ → AcData × Option AcDataEntry
  unfolding looked_up
  ac_data_entry_lookup d icao_address now1 now2 now3 =
      let d1 : AcData = record d { cache = (cache_expire h d.cache now1).0 } in
      looked_up d1 icao_address now3 (cache_entry_lookup h d1.cache icao_address now2)

  -- The test query; a database that fails it is closed.
  unfoldable pub tested : AcData × Option AcDataEntry → Option AcData
  tested (d, none) = none
  tested (d, some entry) = some d

  unfoldable pub prepared : q.Stmt × ℕ → ℕ → ℕ → ℕ → ℕ → Option AcData
  unfolding tested
  prepared (stmt, rc) now now1 now2 now3 =
      if rc == sqlite_ok
      then tested (
          ac_data_entry_lookup
            (record {
              cache = cache_create h ac_data_ttl ac_data_expiration_interval now;
              stmt = stmt;
            })
            0 now1 now2 now3)
      else none

  unfoldable pub opened : q.Db × ℕ → ℕ → ℕ → ℕ → ℕ → Option AcData
  unfolding prepared
  opened (db, rc) now now1 now2 now3 =
      if rc == 0 then prepared (q.sqlite3_prepare_v2 db) now now1 now2 now3 else none

  -- The times are those of the creation of the cache and of the test query.
  unfoldable pub ac_data_create : Option (List ℕ) → ℕ → ℕ → ℕ → ℕ → Option AcData
  unfolding opened
  ac_data_create none now now1 now2 now3 = none
  ac_data_create (some bs_db_file) now now1 now2 now3 =
      opened (q.sqlite3_open_v2 bs_db_file) now now1 now2 now3
