-- ===== src/Position/Extraction.antt =====
-- When src/lpdu.c and src/position.c report a position.
use dumphfdl.Common.{
  true, Bool-cases, ℕ, ◌*◌, ◌≡◌, ◌⊎◌, inl, inr, refl, ◌&&◌, Option, some, leb, Option-cases, arith,
}
use dumphfdl.LaHash.{LaHash}
use dumphfdl.Cache.{Entry}
use dumphfdl.AcCache.{FwdKey, AcCacheEntry, InvEntry, AcCache, ac_cache_entry_lookup}
use dumphfdl.Util.{coordinate}
use dumphfdl.Pdu.{Direction, uplink_pdu, downlink_pdu}
use dumphfdl.Hfnpdu.Data.{HfnpduNode}
use dumphfdl.Lpdu.Data.{LpduNode, LpduData, logon_request, logon_confirm, logoff_request, no_data}
use dumphfdl.Lpdu.{is_request}
use dumphfdl.Lpdu.Nesting.{fits_type, is_request_data}
use dumphfdl.Position.{
  Calendar, PositionInfo, magnitude, location_is_valid, find_address, hfnpdu_position_info_extract,
  lpdu_position_info_extract,
}

request_filled :
    (t : ℕ) (d : LpduData) → fits_type t d ≡ true → is_request t ≡ true → is_request_data d ≡ true
request_filled t d fits request = ground (arith, fits, request)

requested :
    (d : LpduData) (a : ℕ)
    → is_request_data d ≡ true
    → elim d as (λ x. Option ℕ) [ logon_request icao_address ↦ some icao_address | _ ↦ some 0 ]
      ≡ some a
    → d ≡ logon_request a
requested no_data a h e = absurd (ground (arith, h))
requested (logon_request b) a h e = ground (arith, e)
requested (logon_confirm b i) a h e = absurd (ground (arith, h))
requested (logoff_request b i) a h e = absurd (ground (arith, h))

Direction-cases : (d : Direction) → (d ≡ uplink_pdu) ⊎ (d ≡ downlink_pdu)
Direction-cases uplink_pdu = inl refl
Direction-cases downlink_pdu = inr refl

module _ (c : Calendar) where
  -- A location made of two 20-bit fields is valid exactly when its latitude lies within 90 degrees
  -- of the equator; of all longitudes only the most negative, beyond 180 degrees, is not valid.
  pub location_is_valid-coordinate :
      (lat lon : ℕ)
      → location_is_valid c (record { lat = coordinate lat; lon = coordinate lon }) ≡ (
          leb (magnitude c (coordinate lat) * 180) (90 * 0x7ffff)
          && leb (magnitude c (coordinate lon) * 180) (180 * 0x7ffff))
  unfolding location_is_valid coordinate
  location_is_valid-coordinate lat lon = ground arith

  module _ (f : LaHash FwdKey (Entry AcCacheEntry)) (i : LaHash ℕ (Entry InvEntry)) where
    -- The address that find_address gives is that of the logon request, or that of the entry of the
    -- cache for the frequency and the ID of the aircraft.
    pub find_address_result :
        {N : Type 0} (cache : AcCache f i) (node : LpduNode N) (now1 now2 a : ℕ)
        → fits_type node.msg.type_id node.msg.contents ≡ true
        → (find_address c f i cache node now1 now2).1 ≡ some a
        → (node.msg.contents ≡ logon_request a)
          ⊎ ((entry : AcCacheEntry) × ((ac_cache_entry_lookup f i cache
                  (record { freq = node.msg.mpdu_header.freq; id = node.msg.mpdu_header.src_id })
                  now1
                  now2).1
                ≡ some entry)
              × (entry.icao_address ≡ a))
    unfolding find_address
    find_address_result cache node now1 now2 a fits e =
        elim (Bool-cases (is_request node.msg.type_id)) [
          | inl request ↦
              let filled = request_filled node.msg.type_id node.msg.contents fits request in
              inl (requested node.msg.contents a filled (ground (arith, request, e)))
          | inr other ↦
              let hdr = node.msg.mpdu_header in
              let looked_up =
                (ac_cache_entry_lookup f i cache (record { freq = hdr.freq; id = hdr.src_id }) now1
                  now2).1 in
              elim (Option-cases looked_up) [
                | inl missing ↦ absurd (ground (arith, other, missing, e))
                | inr (entry, there) ↦ inr (entry, there, ground (arith, other, there, e))
              ]
        ]

    -- A position is reported only for a downlink, and with the address of its aircraft: the one that
    -- the message gives, or else the one that find_address finds.
    pub lpdu_position_info_extract_result :
        {S A : Type 0} (cache : AcCache f i) (zero_date : c.Date)
        (acars : HfnpduNode S A → Option (PositionInfo c.Date)) (node : LpduNode (HfnpduNode S A))
        (now1 now2 : ℕ) (info : PositionInfo c.Date)
        → (lpdu_position_info_extract c f i cache zero_date acars node now1 now2).1 ≡ some info
        → (node.msg.mpdu_header.direction ≡ downlink_pdu)
          × ((next : HfnpduNode S A) × (node.next ≡ some next)
              × (((hfnpdu_position_info_extract c zero_date acars next ≡ some info)
                    × ((a : ℕ) × (info.icao_address ≡ some a)))
                  ⊎ ((p : PositionInfo c.Date) × (a : ℕ) × (hfnpdu_position_info_extract c zero_date
                          acars next
                        ≡ some p)
                      × ((find_address c f i cache node now1 now2).1 ≡ some a)
                      × (info ≡ record p { icao_address = some a }))))
    unfolding lpdu_position_info_extract
    lpdu_position_info_extract_result cache zero_date acars node now1 now2 info e =
        elim (Direction-cases node.msg.mpdu_header.direction) [
          | inl up ↦ absurd (ground (arith, up, e))
          | inr down ↦ elim (Option-cases node.next) [
            | inl absent ↦ absurd (ground (arith, down, absent, e))
            | inr (next, is) ↦
                let found = hfnpdu_position_info_extract c zero_date acars next in
                elim (Option-cases found) [
                  | inl nothing ↦ absurd (ground (arith, down, is, nothing, e))
                  | inr (p, got) ↦ elim (Option-cases p.icao_address) [
                    | inr (a, given) ↦ (
                      down,
                      (
                        next,
                        is,
                        inl (
                          ground (arith, down, is, got, given, e),
                          (a, ground (arith, down, is, got, given, e)),
                        ),
                      ),
                    )
                    | inl missing ↦
                        let looked_up = (find_address c f i cache node now1 now2).1 in
                        elim (Option-cases looked_up) [
                          | inl unknown ↦
                              absurd (ground (arith, down, is, got, missing, unknown, e))
                          | inr (a, known) ↦ (
                            down,
                            (
                              next,
                              is,
                              inr (
                                p,
                                a,
                                got,
                                known,
                                ground (arith, down, is, got, missing, known, e),
                              ),
                            ),
                          )
                        ]
                  ]
                ]
          ]
        ]
