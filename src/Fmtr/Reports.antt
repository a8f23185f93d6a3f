-- ===== src/Fmtr/Reports.antt =====
-- What src/fmtr-basestation.c reports of the positions that src/position.c extracts.
use dumphfdl.Common.{ℕ, ◌≡◌, ◌⊎◌, true, Option, some}
use dumphfdl.LaHash.{LaHash}
use dumphfdl.Cache.{Entry}
use dumphfdl.AcCache.{FwdKey, AcCacheEntry, InvEntry, AcCache, ac_cache_entry_lookup}
use dumphfdl.Pdu.{downlink_pdu}
use dumphfdl.Hfnpdu.Data.{HfnpduNode}
use dumphfdl.Lpdu.Data.{LpduNode, logon_request}
use dumphfdl.Position.{
  Calendar, Timestamp, PositionInfo, location_is_valid, hfnpdu_position_info_extract,
  lpdu_position_info_extract, fixup_timestamp,
}

module _ (c : Calendar) (f : LaHash FwdKey (Entry AcCacheEntry))
    (i : LaHash ℕ (Entry InvEntry)) where
  module _ {S A : Type 0} (cache : AcCache f i) (zero_date : c.Date)
      (acars : HfnpduNode S A → Option (PositionInfo c.Date)) (root : LpduNode (HfnpduNode S A))
      (now1 now2 now3 : ℕ) where
    -- A position of the tree that is valid, with the time that was filled in.
    abbrev Extracted : PositionInfo c.Date → Type 0
    Extracted pos_info =
        (info : PositionInfo c.Date) × ((lpdu_position_info_extract c f i cache zero_date acars root
            now1 now2).1
          ≡ some info)
        × (location_is_valid c info.location ≡ true)
        × ((ts : Timestamp c.Date) × (fixup_timestamp c info.timestamp now3 ≡ some ts)
            × (pos_info ≡ record info { timestamp = ts }))

  -- Where the address of the aircraft comes from: the position itself, the logon request that carries
  -- it, or the entry of the cache for the frequency and the ID of the aircraft.
  abbrev pub IsAddress :
      {N : Type 0} → AcCache f i → LpduNode N → ℕ → ℕ → PositionInfo c.Date → ℕ → Type 0
  IsAddress cache root now1 now2 found a =
      (found.icao_address ≡ some a)
      ⊎ (root.msg.contents ≡ logon_request a)
      ⊎ ((entry : AcCacheEntry) × ((ac_cache_entry_lookup f i cache
              (record { freq = root.msg.mpdu_header.freq; id = root.msg.mpdu_header.src_id }) now1
              now2).1
            ≡ some entry)
          × (entry.icao_address ≡ a))

  -- The position in the next PDU of the tree, from which a reported one is made.
  abbrev pub Stands :
      {S A : Type 0}
      → AcCache f i
      → c.Date
      → (HfnpduNode S A → Option (PositionInfo c.Date))
      → LpduNode (HfnpduNode S A)
      → ℕ
      → ℕ
      → PositionInfo c.Date
      → PositionInfo c.Date
      → Type 0
  Stands {S} {A} cache zero_date acars root now1 now2 found info =
      (root.msg.mpdu_header.direction ≡ downlink_pdu)
      × ((next : HfnpduNode S A) × (root.next ≡ some next)
          × (hfnpdu_position_info_extract c zero_date acars next ≡ some found))
      × (info.location ≡ found.location)
      × (info.timestamp ≡ found.timestamp)
      × ((a : ℕ) × (info.icao_address ≡ some a) × IsAddress cache root now1 now2 found a)
