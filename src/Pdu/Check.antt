-- ===== src/Pdu/Check.antt =====
-- When the frame check of src/pdu.c reads within its buffer, accepts and rejects.
use dumphfdl.Common.{
  ℕ, zero, suc, ◌+◌, ◌*◌, ◌^◌, ◌≤◌, ◌<◌, ◌≡◌, ◌≢◌, ◌↔◌, ◌∙◌, refl, ap, sym, bit_or, bit_xor, Bool,
  true, some, peek, byte_at, peek-lt, IsOctets, List, [], ◌∷◌, ◌++◌, length, length-append, ◌==◌,
  ==_iff, arith,
}
use mathlib.Core.List.{append-nil}
use dumphfdl.Common.Bits.{bit_or-low}
use dumphfdl.Common.Xor.{bit_xor-injective}
use dumphfdl.Crc.{crc16_ccitt}
use dumphfdl.Crc.Reference.{divide, crc16_ccitt-divide}
use dumphfdl.Crc.Detection.{crc16_ccitt_one_octet}
use dumphfdl.Pdu.{hfdl_pdu_fcs_check}

crc16_ccitt-total :
    (buf : List ℕ) (len crc : ℕ) → len ≤ length buf → (r : ℕ) × (crc16_ccitt buf len crc ≡ some r)
unfolding crc16_ccitt
crc16_ccitt-total [] zero crc h = (crc, refl)
crc16_ccitt-total (b ∷ buf) zero crc h = (crc, refl)
crc16_ccitt-total [] (suc len) crc h = absurd (omega arith)
crc16_ccitt-total (b ∷ buf) (suc len) crc h = crc16_ccitt-total buf len _ (omega arith)

-- The check of a header that the buffer holds with its two octets of sum reads nothing else.
pub fcs_check-total :
    (buf : List ℕ) (hdr_len : ℕ)
    → hdr_len + 2 ≤ length buf
    → (r : Bool) × (hfdl_pdu_fcs_check buf hdr_len ≡ some r)
unfolding hfdl_pdu_fcs_check
fcs_check-total buf hdr_len h =
    let (crc, e) = crc16_ccitt-total buf hdr_len 0xffff (omega arith) in
    (
      bit_or (byte_at buf hdr_len) (byte_at buf (hdr_len + 1) * 2 ^ 8) == bit_xor crc 0xffff,
      rw (peek-lt buf hdr_len (omega arith), peek-lt buf (hdr_len + 1) (omega arith), e) refl,
    )

peek-append : (xs ys : List ℕ) (n i : ℕ) → n ≡ length xs + i → peek (xs ++ ys) n ≡ peek ys i
peek-append [] ys n i e = ap (peek ys) (omega (arith, e))
peek-append (x ∷ xs) ys zero i e = absurd (omega (arith, e))
peek-append (x ∷ xs) ys (suc n) i e = peek-append xs ys n i (omega (arith, e))

-- A frame: a message, its sum with the low octet first, and what follows.
abbrev pub frame : List ℕ → ℕ → ℕ → List ℕ → List ℕ
frame bytes lo hi rest = bytes ++ lo ∷ hi ∷ rest

fcs_check-frame :
    (bytes : List ℕ) (lo hi : ℕ) (rest : List ℕ)
    → lo < 256
    → IsOctets bytes
    → hfdl_pdu_fcs_check (frame bytes lo hi rest) (length bytes)
      ≡ some ((lo + hi * 256) == bit_xor (divide bytes 0xffff) 0xffff)
unfolding hfdl_pdu_fcs_check
fcs_check-frame bytes lo hi rest h octets =
    rw
      (
        peek-append bytes (lo ∷ hi ∷ rest) (length bytes) 0 (omega arith),
        peek-append bytes (lo ∷ hi ∷ rest) (length bytes + 1) 1 (omega arith),
        crc16_ccitt-divide bytes (lo ∷ hi ∷ rest) 0xffff octets,
        bit_or-low 8 lo hi h,
      )
      refl

-- A frame of octets passes exactly when the two after its message, low one first, are the complement of the
-- remainder of the message, computed bit by bit from a register of ones.
pub fcs_check_iff :
    (bytes : List ℕ) (lo hi : ℕ) (rest : List ℕ)
    → lo < 256
    → IsOctets bytes
    → (hfdl_pdu_fcs_check (frame bytes lo hi rest) (length bytes) ≡ some true)
      ↔ (lo + hi * 256 ≡ bit_xor (divide bytes 0xffff) 0xffff)
fcs_check_iff bytes lo hi rest h octets = (
  λ e. (==_iff _ _).0 (ground (arith, fcs_check-frame bytes lo hi rest h octets)),
  λ e. fcs_check-frame bytes lo hi rest h octets ∙ ap some ((==_iff _ _).1 e),
)

length-swap :
    (before after : List ℕ) (b b' : ℕ)
    → length (before ++ b ∷ after) ≡ length (before ++ b' ∷ after)
length-swap before after b b' =
    length-append before (b ∷ after) ∙ sym (length-append before (b' ∷ after))

IsOctets-around :
    (before after : List ℕ) (b : ℕ)
    → IsOctets before
    → IsOctets after
    → b < 256
    → IsOctets (before ++ b ∷ after)
IsOctets-around [] after b h ha hb = (hb, ha)
IsOctets-around (x ∷ before) after b h ha hb = (h.0, IsOctets-around before after b h.1 ha hb)

crc-divide :
    (bytes : List ℕ)
    → IsOctets bytes
    → crc16_ccitt bytes (length bytes) 0xffff ≡ some (divide bytes 0xffff)
crc-divide bytes octets =
    ap (λ l. crc16_ccitt l (length bytes) 0xffff) (sym (append-nil bytes))
    ∙ crc16_ccitt-divide bytes [] 0xffff octets

-- If a frame of octets passes, then the same frame with any one octet of its message changed does
-- not.
pub fcs_check_one_octet :
    (before after : List ℕ) (b b' lo hi : ℕ) (rest : List ℕ)
    → IsOctets before
    → IsOctets after
    → b < 256
    → b' < 256
    → lo < 256
    → b ≢ b'
    → hfdl_pdu_fcs_check (frame (before ++ b ∷ after) lo hi rest) (length (before ++ b ∷ after))
      ≡ some true
    → hfdl_pdu_fcs_check (frame (before ++ b' ∷ after) lo hi rest) (length (before ++ b' ∷ after))
      ≢ some true
fcs_check_one_octet before after b b' lo hi rest h ha hb hb' hlo ne good = λ bad.
    let m = before ++ b ∷ after in
    let m' = before ++ b' ∷ after in
    let octets = IsOctets-around before after b h ha hb in
    let octets' = IsOctets-around before after b' h ha hb' in
    let same : divide m 0xffff ≡ divide m' 0xffff =
      bit_xor-injective (divide m 0xffff) (divide m' 0xffff) 0xffff (
        sym ((fcs_check_iff m lo hi rest hlo octets).0 good)
        ∙ (fcs_check_iff m' lo hi rest hlo octets').0 bad) in
    crc16_ccitt_one_octet before after b b' 0xffff h ha hb hb' (omega arith) ne
      (crc-divide m octets ∙ ap some same ∙ sym (crc-divide m' octets'))
