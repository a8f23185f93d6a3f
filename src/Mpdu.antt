-- ===== src/Mpdu.antt =====
-- src/mpdu.c: the MPDU parser. Its child Format is the JSON formatter; counters of src/statsd.c
-- are not modelled.
pub mod Safety
pub mod Format
pub mod Nesting
pub mod Layout
use dumphfdl.Common.{
  ℕ, zero, suc, ◌+◌, ◌-◌, ◌*◌, ◌/◌, ◌%◌, ◌^◌, Bool, true, false, ◌&&◌, ◌||◌, Option, none, some,
  ◌>>=◌, peek, List, [], ◌∷◌, ◌++◌, length, take, drop, ◌==◌, ltb, leb, if◌then◌else◌,
}
use dumphfdl.Pdu.{Direction, uplink_pdu, downlink_pdu, HdrData, Config, hfdl_pdu_fcs_check}
use dumphfdl.Services.{Services}
use dumphfdl.Lpdu.{Tree, lpdu_parse}

-- struct mpdu_dst
pub record MpduDst : Type 0 where
  pub dst_id : ℕ
  pub lpdu_cnt : ℕ

-- struct hfdl_mpdu
pub record HfdlMpdu : Type 0 where
  pub pdu : List ℕ
  pub dst_aircraft : List MpduDst
  pub header : HdrData

-- An element of the list that mpdu_parse returns.
pub data MpduNode (A : Type 0) : Type 0 where
  mpdu : HfdlMpdu → MpduNode A
  lpdu : A → MpduNode A

abbrev pub lpdu_nodes : {A : Type 0} → List A → List (MpduNode A)
lpdu_nodes [] = []
lpdu_nodes (a ∷ l) = lpdu a ∷ lpdu_nodes l

-- The header's last LPDU count and its length, after the loop over the aircraft of an uplink;
-- `too_short` is its `goto end`.
pub data Scan : Type 0 where
  too_short : Scan
  scanned : ℕ → Scan

unfoldable pub scan_aircraft : ℕ → List ℕ → ℕ → Option Scan
scan_aircraft zero buf hdr_len = some (scanned hdr_len)
scan_aircraft (suc i) buf hdr_len =
    if ltb (length buf) (hdr_len + 2)
    then some too_short
    else peek buf (hdr_len + 1) >>= λ b. scan_aircraft i buf (hdr_len + 2 + b / 2 ^ 4)

-- What the loops over LPDUs build: the world, the list so far, and the octets consumed; none is
-- -1. A list that ends early is kept.
pub record Progress (W A : Type 0) : Type 0 where
  pub world : W
  pub lpdu_list : List A
  pub consumed_octets : Option ℕ

-- la_list_append of a node that is not NULL.
abbrev pub append_node : {A : Type 0} → List A → Option A → List A
append_node l none = l
append_node l (some a) = l ++ a ∷ []

-- `(buf[0] & 0x70) >> 4` plus one.
abbrev pub aircraft_cnt : ℕ → ℕ
aircraft_cnt b0 = b0 % 2 ^ 7 / 2 ^ 4 + 1

abbrev pub is_downlink : ℕ → Bool
is_downlink b0 = b0 / 2 % 2 == 1

-- The length of the header without its sum.
unfoldable pub header_len : List ℕ → ℕ → Option Scan
unfolding scan_aircraft
header_len buf b0 =
    if is_downlink b0
    then some (scanned (6 + b0 / 2 ^ 2 % 2 ^ 4))
    else scan_aircraft (aircraft_cnt b0) buf 2

module _ (s : Services) (config : Config) where
  -- The pointers are positions in `buf`, and `endptr` its length.
  unfoldable pub parse_lpdu_list :
      ℕ
      → List ℕ
      → ℕ
      → ℕ
      → ℕ
      → HdrData
      → s.World
      → List (Tree s)
      → Option (Progress s.World (Tree s))
  parse_lpdu_list zero buf lpdu_len_ptr data_ptr consumed header w lpdu_list =
      some (record { world = w; lpdu_list = lpdu_list; consumed_octets = some consumed })
  parse_lpdu_list (suc j) buf lpdu_len_ptr data_ptr consumed header w lpdu_list =
      peek buf lpdu_len_ptr >>= λ b.
      if leb (data_ptr + (b + 1)) (length buf)
      then (lpdu_parse s config w (take (b + 1) (drop data_ptr buf)) header >>= λ r.
          parse_lpdu_list j buf (lpdu_len_ptr + 1) (data_ptr + (b + 1)) (consumed + (b + 1)) header
            r.0 (append_node lpdu_list r.1))
      else some (record { world = w; lpdu_list = lpdu_list; consumed_octets = none })

  -- The state of the loop over the aircraft of an uplink.
  pub record Uplink : Type 0 where
    pub world : s.World
    pub header : HdrData
    pub dst_aircraft : List MpduDst
    pub lpdu_list : List (Tree s)

  unfoldable pub uplink_loop : ℕ → List ℕ → ℕ → ℕ → Uplink → Option Uplink
  uplink_loop zero buf hdrptr dataptr u = some u
  uplink_loop (suc i) buf hdrptr dataptr u = peek buf hdrptr >>= λ dst_id.
      peek buf (hdrptr + 1) >>= λ b.
      let lpdu_cnt = b / 2 ^ 4 % 2 ^ 4 in
      let header = record u.header { dst_id = dst_id } in
      parse_lpdu_list lpdu_cnt buf (hdrptr + 2) dataptr 0 header u.world u.lpdu_list >>= λ p.
      let u' : Uplink = record {
        world = p.world;
        header = header;
        dst_aircraft =
            (if config.output_mpdus
              then u.dst_aircraft ++ record { dst_id = dst_id; lpdu_cnt = lpdu_cnt } ∷ []
              else u.dst_aircraft);
        lpdu_list = p.lpdu_list;
      } in
      elim p.consumed_octets [
        | none ↦ some u'
        | some n ↦ uplink_loop i buf (hdrptr + 2 + lpdu_cnt) (dataptr + n) u'
      ]

  -- Label `end`.
  abbrev pub mpdu_end : List ℕ → Uplink → s.World × List (MpduNode (Tree s))
  mpdu_end pdu u =
      if config.output_mpdus && (u.header.crc_ok || config.output_corrupted_pdus)
      then (
        u.world,
        mpdu (record { pdu = pdu; dst_aircraft = u.dst_aircraft; header = u.header })
            ∷ lpdu_nodes u.lpdu_list,
      )
      else (u.world, lpdu_nodes u.lpdu_list)

  -- The LPDUs of a PDU whose header is sound: the branches on the direction.
  unfoldable pub mpdu_good : List ℕ → ℕ → ℕ → Uplink → Option Uplink
  unfolding parse_lpdu_list uplink_loop
  mpdu_good buf b0 hdr_len u =
      if is_downlink b0
      then (peek buf 2 >>= λ src_id. peek buf 1 >>= λ b1.
          let header = record u.header { src_id = src_id; dst_id = b1 % 2 ^ 7 } in
          parse_lpdu_list (b0 / 2 ^ 2 % 2 ^ 4) buf 6 (hdr_len + 2) 0 header u.world u.lpdu_list
          >>= λ p. some (record u { world = p.world; header = header; lpdu_list = p.lpdu_list }))
      else (peek buf 1 >>= λ b1.
          uplink_loop (aircraft_cnt b0) buf 2 (hdr_len + 2)
            (record u { header = record u.header { src_id = b1 % 2 ^ 7; dst_id = 0 } }))

  unfoldable pub mpdu_parse : s.World → List ℕ → ℕ → Option (s.World × List (MpduNode (Tree s)))
  mpdu_parse w buf freq = peek buf 0 >>= λ b0.
      let header : HdrData = record {
        freq = freq;
        src_id = 0;
        dst_id = 0;
        direction = (if is_downlink b0 then downlink_pdu else uplink_pdu);
        crc_ok = false;
      } in
      let start : Uplink = record {
        world = w;
        header = header;
        dst_aircraft = [];
        lpdu_list = [];
      } in
      header_len buf b0 >>= λ scan. elim scan [
        | too_short ↦ some (mpdu_end buf start)
        | scanned hdr_len ↦
            if ltb (length buf) (hdr_len + 2)
            then some (mpdu_end buf start)
            else (hfdl_pdu_fcs_check buf hdr_len >>= λ crc_ok.
                if crc_ok
                then (mpdu_good buf b0 hdr_len
                      (record start { header = record header { crc_ok = true } })
                    >>= λ u. some (mpdu_end buf u))
                else some (mpdu_end buf start))
      ]
