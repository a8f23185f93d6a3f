-- ===== src/Systable.antt =====
-- src/systable.c: the store of system table PDUs, the decoder of a reassembled table, and the
-- comparison of table versions. Update and Process have what is done with a complete table, Lookup
-- and Format what other components look up in it and print of it.
pub mod Stations
pub mod Caching
pub mod PduSets
pub mod Decoding
pub mod Versions
pub mod Update
pub mod Process
pub mod Replacing
pub mod Lookup
pub mod Format
use dumphfdl.Common.{
  ℕ, zero, suc, ◌+◌, ◌-◌, ◌*◌, ◌/◌, ◌%◌, ◌^◌, Bool, true, false, ◌&&◌, ◌||◌, not, Option, none,
  some, ◌>>=◌, peek, List, [], ◌∷◌, ◌++◌, length, get_elem?, set, drop, replicate, ◌==◌, ltb, leb,
  if◌then◌else◌,
}
use dumphfdl.Util.{Signed, plus, minus, coordinate, low_field, high_field}

-- struct systable_pdu_set; `len` is the length of `pdus`, and none a null pointer.
pub record PduSet : Type 0 where
  pub version : ℕ
  pub pdus : List (Option (List ℕ))

unfoldable pub pdu_set_create : ℕ → ℕ → PduSet
pdu_set_create version len = record { version = version; pdus = replicate len none }

-- Lengths and memcmp.
abbrev pub same_octets : List ℕ → List ℕ → Bool
same_octets [] [] = true
same_octets [] (y ∷ ys) = false
same_octets (x ∷ xs) [] = false
same_octets (x ∷ xs) (y ∷ ys) = x == y && same_octets xs ys

-- `pdus[idx]` after the last part of systable_store_pdu.
abbrev pub stored_at : Option (List ℕ) → List ℕ → List ℕ
stored_at none buf = buf
stored_at (some old) buf = if same_octets old buf then old else buf

-- The set that a PDU is stored in: the one there, unless it is of another version or length.
unfoldable pub kept_set : ℕ → ℕ → Option PduSet → PduSet
unfolding pdu_set_create
kept_set version len none = pdu_set_create version len
kept_set version len (some old) =
    if not (old.version == version) || not (length old.pdus == len)
    then pdu_set_create version len
    else old

-- `st->new->pdu_set` before and after, for a system table that is not NULL.
unfoldable pub systable_store_pdu : Option PduSet → ℕ → ℕ → ℕ → List ℕ → Option PduSet
systable_store_pdu st version idx pdu_set_len buf =
    if ltb pdu_set_len 1 || leb pdu_set_len idx
    then st
    else (let ps = kept_set version pdu_set_len st in
        elim (get_elem? ps.pdus idx) [
          | none ↦ some ps
          | some pdu ↦ some (record ps { pdus = set ps.pdus idx (some (stored_at pdu buf)) })
        ])

-- The two loops of systable_process_pdu_set over the PDUs: the message that they make up, or none
-- if one is missing.
abbrev pub joined : List (Option (List ℕ)) → Option (List ℕ)
joined [] = some []
joined (none ∷ pdus) = none
joined (some pdu ∷ pdus) = joined pdus >>= λ rest. some (pdu ++ rest)

-- The message of a complete set that is not empty.
unfoldable pub reassemble : Option PduSet → Option (List ℕ)
reassemble none = none
reassemble (some ps) = if ltb 0 (length ps.pdus) then joined ps.pdus else none

-- struct systable_gs_data; a frequency in Hz, and its slot, per element.
pub record GsData : Type 0 where
  pub gs_id : ℕ
  pub utc_sync : Bool
  pub lat : Signed
  pub lon : Signed
  pub spdu_version : ℕ
  pub freq_cnt : ℕ
  pub frequencies : List (ℕ × ℕ)

-- struct systable_gs_complete
pub data GsComplete : Type 0 where
  failed : GsComplete
  complete : GsData → ℕ → GsComplete

-- Six decimal digits, least significant first; every value is an integer below 2^53, and so the
-- sum of doubles is exact.
unfoldable pub systable_decode_frequency : List ℕ → ℕ → Option ℕ
systable_decode_frequency buf pos = do
  b0 ← peek buf pos
  b1 ← peek buf (pos + 1)
  b2 ← peek buf (pos + 2)
  some (
      100 * (b0 % 2 ^ 4)
      + 1000 * (b0 / 2 ^ 4 % 2 ^ 4)
      + 10000 * (b1 % 2 ^ 4)
      + 100000 * (b1 / 2 ^ 4 % 2 ^ 4)
      + 1000000 * (b2 % 2 ^ 4)
      + 10000000 * (b2 / 2 ^ 4 % 2 ^ 4))

-- The loop over the frequencies, from the field at `pos`; the inner none is `goto fail`.
unfoldable pub frequencies_loop : ℕ → List ℕ → ℕ → Option (Option (List (ℕ × ℕ)))
unfolding systable_decode_frequency
frequencies_loop zero buf pos = some (some [])
frequencies_loop (suc cnt) buf pos =
    if leb (pos + 3 + 1) (length buf)
    then (systable_decode_frequency buf pos >>= λ freq. peek buf (pos + 3) >>= λ b.
        frequencies_loop cnt buf (pos + 4) >>= λ rest.
        some (elim rest [ none ↦ none | some l ↦ some ((freq, b % 2 ^ 4) ∷ l) ]))
    else some none

unfoldable pub systable_decode_gs : List ℕ → Option GsComplete
unfolding frequencies_loop
systable_decode_gs buf = do
  b0 ← peek buf 0
  b1 ← peek buf 1
  b2 ← peek buf 2
  b3 ← peek buf 3
  b4 ← peek buf 4
  b5 ← peek buf 5
  b6 ← peek buf 6
  let freq_cnt = b6 / 2 ^ 3 % 2 ^ 5
  if ltb 20 freq_cnt then some failed else (do
    frequencies ← frequencies_loop freq_cnt buf 7
    some (elim frequencies [
      | none ↦ failed
      | some l ↦
          complete
            (record {
              gs_id = b0 % 2 ^ 7;
              utc_sync = b0 / 2 ^ 7 % 2 == 1;
              lat = coordinate (low_field b1 b2 b3);
              lon = coordinate (high_field b3 b4 b5);
              spdu_version = b6 % 2 ^ 3;
              freq_cnt = freq_cnt;
              frequencies = l;
            })
            (7 + freq_cnt * 4)
    ]))

-- gs_list and err of struct systable_complete.
pub record Decoded : Type 0 where
  pub gs_list : List GsData
  pub err : Bool

-- The while loop on fuel; without fuel it is a fault, like a read outside the message.
unfoldable pub decode_loop : ℕ → List ℕ → List GsData → Option Decoded
unfolding systable_decode_gs
decode_loop zero buf gs_list = none
decode_loop (suc fuel) buf gs_list =
    if leb 8 (length buf)
    then (systable_decode_gs buf >>= λ gs. elim gs [
      | failed ↦ some (record { gs_list = gs_list; err = true })
      | complete d consumed_len ↦ decode_loop fuel (drop consumed_len buf) (gs_list ++ d ∷ [])
    ])
    else some (record { gs_list = gs_list; err = false })

-- A station takes seven octets or more, so the length of the message is fuel enough.
-- The ASSERT that it is not empty is the first test.
unfoldable pub systable_decode : List ℕ → Option Decoded
unfolding decode_loop
systable_decode buf = if length buf == 0 then none else decode_loop (suc (length buf)) buf []

-- `a > b` on int32_t.
abbrev pub signed_gt : Signed → Signed → Bool
signed_gt (plus a) (plus b) = ltb b a
signed_gt (plus a) (minus b) = true
signed_gt (minus a) (plus b) = false
signed_gt (minus a) (minus b) = ltb a b

-- `v_new + SYSTABLE_VERSION_MAX - v_old < (SYSTABLE_VERSION_MAX + 1) >> 1`, for two versions of the
-- same sign.
abbrev pub wrapped : Signed → Signed → Bool
wrapped (plus v_old) (plus v_new) = ltb (v_new + 4095) (v_old + 2048)
wrapped (minus v_old) (minus v_new) = ltb (v_old + 4095) (v_new + 2048)
wrapped (plus v_old) (minus v_new) = ltb 4095 (v_old + v_new + 1 + 2048)
wrapped (minus v_old) (plus v_new) = false

unfoldable pub systable_is_newer : Signed → Signed → Bool
systable_is_newer (minus v_old) (plus v_new) = true
systable_is_newer (plus v_old) (minus v_new) = false
systable_is_newer (minus v_old) (minus v_new) =
    if v_new == v_old
    then false
    else signed_gt (minus v_new) (minus v_old) || wrapped (minus v_old) (minus v_new)
systable_is_newer (plus v_old) (plus v_new) =
    if v_new == v_old
    then false
    else signed_gt (plus v_new) (plus v_old) || wrapped (plus v_old) (plus v_new)
