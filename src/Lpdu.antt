-- ===== src/Lpdu.antt =====
-- src/lpdu.c: the LPDU parser. Its child Format is the JSON formatter; counters of src/statsd.c
-- are not modelled.
pub mod Data
pub mod Safety
pub mod Format
pub mod Nesting
pub mod Logon
use dumphfdl.Common.{
  ℕ, ◌+◌, ◌-◌, Bool, true, false, ◌&&◌, Option, none, some, ◌>>=◌, peek, List, length, take, drop,
  ◌==◌, ltb, if◌then◌else◌, not, ◌||◌,
}
use dumphfdl.Util.{parse_icao_hex}
use dumphfdl.Pdu.{HdrData, Config, hfdl_pdu_fcs_check}
use dumphfdl.Services.{Services}
use dumphfdl.Hfnpdu.Data.{HfnpduNode, unknown_proto}
use dumphfdl.Hfnpdu.{Node, hfnpdu_parse}
use Data.{
  LpduData, no_data, logon_request, logon_confirm, logoff_request, Fields, LpduMsg, LpduNode,
}

-- Each field parser: the structure, zeroed if the LPDU is too short, and the octets consumed.
unfoldable pub logon_confirm_parse : List ℕ → Option (Fields LpduData)
logon_confirm_parse buf =
    if ltb (length buf) 8
    then some (record { contents = logon_confirm 0 0; consumed_len = none })
    else (do
      icao_address ← parse_icao_hex buf 1
      ac_id ← peek buf 4
      some (record { contents = logon_confirm icao_address ac_id; consumed_len = some 8 }))

unfoldable pub logon_request_parse : List ℕ → Option (Fields LpduData)
logon_request_parse buf =
    if ltb (length buf) 4
    then some (record { contents = logon_request 0; consumed_len = none })
    else (do
      icao_address ← parse_icao_hex buf 1
      some (record { contents = logon_request icao_address; consumed_len = some 4 }))

unfoldable pub logoff_request_parse : List ℕ → Option (Fields LpduData)
logoff_request_parse buf =
    if ltb (length buf) 5
    then some (record { contents = logoff_request 0 0; consumed_len = none })
    else (do
      icao_address ← parse_icao_hex buf 1
      reason_code ← peek buf 4
      some (record { contents = logoff_request icao_address reason_code; consumed_len = some 5 }))

-- The case labels of the switch on the LPDU type.
abbrev pub is_unnumbered : ℕ → Bool
is_unnumbered t = t == 0x0d || t == 0x1d

abbrev pub is_logoff : ℕ → Bool
is_logoff t = t == 0x2f || t == 0x3f

abbrev pub is_confirm : ℕ → Bool
is_confirm t = t == 0x9f || t == 0x5f

abbrev pub is_request : ℕ → Bool
is_request t = t == 0x4f || (t == 0x8f || t == 0xbf)

module _ (s : Services) where
  abbrev pub Tree : Type 0
  Tree = LpduNode (Node s)

  -- `if(consumed_len > 0) ac_cache_entry_delete(...)`, under the cache's lock.
  unfoldable pub apply_logoff : s.World → ℕ → Fields LpduData → s.World
  apply_logoff w freq r = elim r.consumed_len [
    | none ↦ w
    | some n ↦ elim r.contents [
      | logoff_request icao_address reason_code ↦ s.ac_cache_entry_delete w freq icao_address
      | _ ↦ w
    ]
  ]

  unfoldable pub apply_logon : s.World → ℕ → Fields LpduData → s.World
  apply_logon w freq r = elim r.consumed_len [
    | none ↦ w
    | some n ↦ elim r.contents [
      | logon_confirm icao_address ac_id ↦ s.ac_cache_entry_create w freq ac_id icao_address
      | _ ↦ w
    ]
  ]

  -- The switch: the world, the fields, and the `next` that the default case sets.
  unfoldable pub lpdu_switch :
      s.World → List ℕ → ℕ → ℕ → Option (s.World × Fields LpduData × Option (Node s))
  unfolding apply_logoff apply_logon
  lpdu_switch w buf freq type_id =
      if is_unnumbered type_id
      then some (w, record { contents = no_data; consumed_len = some 1 }, none)
      else if is_logoff type_id
      then (do r ← logoff_request_parse buf; some (apply_logoff w freq r, r, none))
      else if is_confirm type_id
      then (do r ← logon_confirm_parse buf; some (apply_logon w freq r, r, none))
      else if is_request type_id
      then (do r ← logon_request_parse buf; some (w, r, none))
      else some (
        w,
        record { contents = no_data; consumed_len = some (length buf) },
        some (unknown_proto buf),
      )

  -- Label `end`: what is returned of a node.
  abbrev pub finish : Config → LpduNode (Node s) → Option (LpduNode (Node s))
  finish config node = if node.msg.err && not config.output_corrupted_pdus then none else some node

  -- From the switch on, for an LPDU of `buf` without its sum that has passed the check.
  unfoldable pub lpdu_good : s.World → List ℕ → List ℕ → HdrData → Option (s.World × Tree)
  unfolding lpdu_switch
  lpdu_good w pdu buf header = do
    type_id ← peek buf 0
    (w1, r, next) ← lpdu_switch w buf header.freq type_id
    let msg : LpduMsg = record {
      pdu = pdu;
      mpdu_header = header;
      type_id = type_id;
      crc_ok = true;
      err = false;
      contents = r.contents;
    }
    elim r.consumed_len [
      | none ↦ some (w1, record { msg = record msg { err = true }; next = next })
      | some n ↦
          if ltb n (length buf)
          then (do
            (w2, node) ← hfnpdu_parse s w1 (drop n buf) header.direction
            some (w2, record { msg = msg; next = node }))
          else some (w1, record { msg = msg; next = next })
    ]

  abbrev pub bad_lpdu : List ℕ → HdrData → LpduNode (Node s)
  bad_lpdu pdu header = record {
    msg = record {
      pdu = pdu;
      mpdu_header = header;
      type_id = 0;
      crc_ok = false;
      err = true;
      contents = no_data;
    };
    next = none;
  }

  unfoldable pub lpdu_parse : Config → s.World → List ℕ → HdrData → Option (s.World × Option Tree)
  lpdu_parse config w buf header =
      if ltb (length buf) 3 then some (w, finish config (bad_lpdu buf header)) else (do
        let len = length buf - 2
        crc_ok ← hfdl_pdu_fcs_check buf len
        if crc_ok
            then (do
              (w', node) ← lpdu_good w buf (take len buf) header
              some (w', finish config node))
            else some (w, finish config (bad_lpdu buf header)))
