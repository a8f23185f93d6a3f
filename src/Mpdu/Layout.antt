-- ===== src/Mpdu/Layout.antt =====
-- How src/mpdu.c splits an MPDU into its LPDUs, against the layout of an MPDU written as a list.
use dumphfdl.Common.{
  ℕ, suc, ◌+◌, ◌-◌, ◌/◌, ◌%◌, ◌^◌, ◌<◌, ◌≡◌, ◌∙◌, refl, ap, true, false, Option, some, ◌>>=◌, List,
  [], ◌∷◌, ◌++◌, length, take, drop, ltb, leb, take-append, drop-append, get_elem?-drop,
  length-drop_append, length-append, drop-part, arith, Option-cases, inl, inr,
}
use mathlib.Core.List.{append_assoc}
use dumphfdl.Pdu.{HdrData, Config, hfdl_pdu_fcs_check, downlink_pdu}
use dumphfdl.Services.{Services}
use dumphfdl.Lpdu.{Tree, lpdu_parse}
use dumphfdl.Lpdu.Safety.{lpdu_parse-Safe}
use dumphfdl.Mpdu.{
  Progress, append_node, is_downlink, parse_lpdu_list, mpdu_end, mpdu_good, header_len, mpdu_parse,
}

-- The octets of a sequence of LPDUs, and their size octets.
abbrev pub octets_of : List (List ℕ) → List ℕ
octets_of [] = []
octets_of (l ∷ ls) = l ++ octets_of ls

abbrev pub sizes_of : List (List ℕ) → List ℕ
sizes_of [] = []
sizes_of (l ∷ ls) = (length l - 1) ∷ sizes_of ls

abbrev pub AllFilled : List (List ℕ) → Type 0
AllFilled [] = Unit
AllFilled (l ∷ ls) = (0 < length l) × AllFilled ls

module _ (s : Services) (config : Config) where
  -- Parse each LPDU in turn.
  unfoldable pub parse_each :
      List (List ℕ) → HdrData → s.World → List (Tree s) → Option (s.World × List (Tree s))
  parse_each [] header w l = some (w, l)
  parse_each (x ∷ xs) header w l =
      lpdu_parse s config w x header >>= λ r. parse_each xs header r.0 (append_node l r.1)

  abbrev finished : ℕ → s.World × List (Tree s) → Option (Progress s.World (Tree s))
  finished n r = some (record { world = r.0; lpdu_list = r.1; consumed_octets = some n })

  -- Where the buffer holds the size octets and the LPDUs, the loop parses each LPDU, whole, in
  -- order, and reports the octets of all of them as consumed.
  parse_lpdu_list-each :
      (ls : List (List ℕ)) (buf : List ℕ) (lp dp c : ℕ) (header : HdrData) (w : s.World)
      (l : List (Tree s)) (r1 r2 : List ℕ)
      → AllFilled ls
      → drop lp buf ≡ sizes_of ls ++ r1
      → drop dp buf ≡ octets_of ls ++ r2
      → parse_lpdu_list s config (length ls) buf lp dp c header w l
        ≡ (parse_each ls header w l >>= finished (c + length (octets_of ls)))
  unfolding parse_lpdu_list parse_each
  parse_lpdu_list-each [] buf lp dp c header w l r1 r2 filled e1 e2 =
      let e : c ≡ c + 0 = omega arith in ap (λ k. finished k (w, l)) e
  parse_lpdu_list-each (x ∷ ls) buf lp dp c header w l r1 r2 filled e1 e2 =
      let size : length x - 1 + 1 ≡ length x = omega (arith, filled.0) in
      let e2' : drop dp buf ≡ x ++ (octets_of ls ++ r2) = e2 ∙ append_assoc x (octets_of ls) r2 in
      let fits : leb (dp + length x) (length buf) ≡ true =
        ground (arith, length-drop_append buf dp x (octets_of ls ++ r2) e2' filled.0) in
      let whole : take (length x) (drop dp buf) ≡ x =
        ap (take (length x)) e2' ∙ take-append x (octets_of ls ++ r2) in
      let (r, e) = lpdu_parse-Safe s config w x header in
      let total : c + length x + length (octets_of ls) ≡ c + length (x ++ octets_of ls) =
        omega (arith, length-append x (octets_of ls)) in
      rw (get_elem?-drop buf lp (length x - 1) (sizes_of ls ++ r1) e1, size, fits, whole, e)
        (parse_lpdu_list-each ls buf (lp + 1) (dp + length x) (c + length x) header r.0
            (append_node l r.1) r1 r2 filled.1
            (drop-part buf lp ((length x - 1) ∷ []) (sizes_of ls ++ r1) e1)
            (drop-part buf dp x (octets_of ls ++ r2) e2')
          ∙ ap (λ k. parse_each ls header r.0 (append_node l r.1) >>= finished k) total)

  -- A downlink MPDU: six octets, the sizes, the sum, the LPDUs and whatever follows.
  abbrev pub downlink : (b0 b1 b2 b3 b4 b5 lo hi : ℕ) → List (List ℕ) → List ℕ → List ℕ
  downlink b0 b1 b2 b3 b4 b5 lo hi ls rest =
      (b0 ∷ b1 ∷ b2 ∷ b3 ∷ b4 ∷ b5 ∷ sizes_of ls) ++ (lo ∷ hi ∷ (octets_of ls ++ rest))

  length-sizes_of : (ls : List (List ℕ)) → length (sizes_of ls) ≡ length ls
  length-sizes_of [] = refl
  length-sizes_of (l ∷ ls) = ap suc (length-sizes_of ls)

  abbrev pub downlink_header : ℕ → ℕ → ℕ → HdrData
  downlink_header freq b1 b2 = record {
    freq = freq;
    src_id = b2;
    dst_id = b1 % 2 ^ 7;
    direction = downlink_pdu;
    crc_ok = true;
  }

  -- A downlink MPDU whose first octet declares its number of LPDUs, none empty, and whose header
  -- sum is right is split into exactly those LPDUs: each is parsed, whole and in order, with the
  -- aircraft of octet 2 as the source and the ground station of octet 1 as the destination.
  pub mpdu_parse-downlink :
      (w : s.World) (freq b0 b1 b2 b3 b4 b5 lo hi : ℕ) (ls : List (List ℕ)) (rest : List ℕ)
      → is_downlink b0 ≡ true
      → b0 / 2 ^ 2 % 2 ^ 4 ≡ length ls
      → AllFilled ls
      → hfdl_pdu_fcs_check (downlink b0 b1 b2 b3 b4 b5 lo hi ls rest) (6 + length ls) ≡ some true
      → mpdu_parse s config w (downlink b0 b1 b2 b3 b4 b5 lo hi ls rest) freq ≡ (
          parse_each ls (downlink_header freq b1 b2) w [] >>= λ r. some (
            mpdu_end s config (downlink b0 b1 b2 b3 b4 b5 lo hi ls rest) (record {
              world = r.0;
              header = downlink_header freq b1 b2;
              dst_aircraft = [];
              lpdu_list = r.1;
            })))
  unfolding mpdu_parse mpdu_good header_len
  mpdu_parse-downlink w freq b0 b1 b2 b3 b4 b5 lo hi ls rest down count filled good =
      let tail = lo ∷ hi ∷ (octets_of ls ++ rest) in
      let pre = b0 ∷ b1 ∷ b2 ∷ b3 ∷ b4 ∷ b5 ∷ sizes_of ls in
      let buf = downlink b0 b1 b2 b3 b4 b5 lo hi ls rest in
      let n : 6 + length ls + 2 ≡ length pre + 2 = omega (arith, length-sizes_of ls) in
      let long : ltb (length buf) (6 + length ls + 2) ≡ false =
        ground (arith, n, length-append pre tail) in
      let after : drop (6 + length ls + 2) buf ≡ octets_of ls ++ rest =
        ap (λ k. drop k buf) n
        ∙ drop-part buf (length pre) (lo ∷ hi ∷ []) (octets_of ls ++ rest) (drop-append pre tail) in
      let parsed =
        parse_lpdu_list-each ls buf 6 (6 + length ls + 2) 0 (downlink_header freq b1 b2) w [] tail
          rest filled refl after in
      rw (down, count, long, good)
        (rw down (
          rw parsed (elim (Option-cases (parse_each ls (downlink_header freq b1 b2) w [])) [
            | inl e ↦ rw e refl
            | inr (r, e) ↦ rw e refl
          ])))
