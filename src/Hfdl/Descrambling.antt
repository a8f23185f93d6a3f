-- ===== src/Hfdl/Descrambling.antt =====
-- The bits that the descrambler of src/hfdl.c gives to the symbols of one frame after another.
use dumphfdl.Common.{
  suc_right, plus_zero, zero_plus, ℕ, zero, suc, ◌+◌, ◌%◌, ◌≡◌, ◌<◌, inl, inr, refl, ap, sym, ◌∙◌,
  arith, List, [], ◌∷◌, length, Bool, true, false, ◌==◌, ==_iff, Bool-cases,
}
use dumphfdl.Common.Range.{all_below, all_below_sound}
use dumphfdl.Hfdl.Dsp.{Dsp, IsDsp}
use dumphfdl.Hfdl.Descrambler.{
  Descrambler, descrambler_create, hfdl_descrambler_create, descrambler_advance, wrapped_around,
  advanced,
}
use dumphfdl.Hfdl.Decoding.{frame_symbols, descrambler_after}

whole : ℕ → Bool
whole m1 = frame_symbols m1 % 120 == 0

whole_checked : all_below 8 whole ≡ true
unfolding all_below whole
whole_checked = refl

frame_symbols-whole : (m1 : ℕ) → m1 < 8 → frame_symbols m1 % 120 ≡ 0
unfolding whole
frame_symbols-whole m1 h = (==_iff _ _).0 (all_below_sound 8 whole m1 whole_checked h)

module _ (dsp : Dsp) where
  -- The generator after so many bits from its start, and its bits.
  unfoldable pub state_at : ℕ → dsp.Msequence
  state_at zero = dsp.msequence_create
  state_at (suc k) = (dsp.msequence_advance (state_at k)).1

  abbrev pub sequence_bit : ℕ → ℕ
  sequence_bit k = (dsp.msequence_advance (state_at k)).0

  -- The descrambler after so many bits.
  unfoldable pub stepped : ℕ → Descrambler dsp → Descrambler dsp
  stepped zero d = d
  stepped (suc n) d = stepped n (descrambler_advance dsp d).1

  -- The next bit is bit i of a sequence that starts anew after every 120.
  pub record IsReady (i : ℕ) (d : Descrambler dsp) : Type 0 where
    pub len : d.len ≡ 120
    pub pos : (wrapped_around dsp d).pos ≡ i % 120
    pub ms : (wrapped_around dsp d).ms ≡ state_at (i % 120)

  pub create-IsReady : IsReady 0 (hfdl_descrambler_create dsp)
  unfolding hfdl_descrambler_create descrambler_create state_at
  create-IsReady = record { len = refl; pos = refl; ms = refl }

  after_lem :
      (symbols : List dsp.Symbol) (d : Descrambler dsp)
      → descrambler_after dsp symbols d ≡ stepped (length symbols) d
  unfolding descrambler_after stepped
  after_lem [] d = refl
  after_lem (s ∷ symbols) d = after_lem symbols (descrambler_advance dsp d).1

  len-wrapped_around : (d : Descrambler dsp) → (wrapped_around dsp d).len ≡ d.len
  len-wrapped_around d = elim (Bool-cases (d.pos == d.len)) [
    | inl e ↦ rw e refl
    | inr e ↦ rw e refl
  ]

  module _ (documented : IsDsp dsp) where
    advance-IsReady :
        (i : ℕ) (d : Descrambler dsp)
        → IsReady i d
        → ((descrambler_advance dsp d).0 ≡ sequence_bit (i % 120))
          × IsReady (suc i) (descrambler_advance dsp d).1
    unfolding descrambler_advance state_at
    advance-IsReady i d h =
        let next = (advanced dsp (wrapped_around dsp d)).1 in
        let len : next.len ≡ 120 = len-wrapped_around d ∙ h.len in
        (
          ap (λ (ms : dsp.Msequence). (dsp.msequence_advance ms).0) h.ms,
          elim (Bool-cases (next.pos == next.len)) [
            | inl e ↦
                let full : next.pos ≡ 120 = (==_iff next.pos next.len).0 e ∙ len in
                let over : suc i % 120 ≡ 0 = omega (arith, full, h.pos) in
                record {
                  len = len;
                  pos = rw (e, over) refl;
                  ms = rw (e, over) (documented.reset_start next.ms);
                }
            | inr e ↦
                let not_full : (next.pos == 120) ≡ false =
                  ap (λ (n : ℕ). next.pos == n) (sym len) ∙ e in
                let on : suc i % 120 ≡ suc (i % 120) = ground (arith, not_full, h.pos) in
                record {
                  len = len;
                  pos = rw (e, on) (ground (arith, h.pos));
                  ms = rw (e, on) (ap (λ (ms : dsp.Msequence). (dsp.msequence_advance ms).1) h.ms);
                }
          ],
        )

    stepped-IsReady : (n i : ℕ) (d : Descrambler dsp) → IsReady i d → IsReady (i + n) (stepped n d)
    unfolding stepped
    stepped-IsReady zero i d h = rw (plus_zero i) h
    stepped-IsReady (suc n) i d h =
        rw (suc_right i n)
          (stepped-IsReady n (suc i) (descrambler_advance dsp d).1 (advance-IsReady i d h).1)

    IsReady-same : (i j : ℕ) (d : Descrambler dsp) → i ≡ j → IsReady i d → IsReady j d
    IsReady-same i j d e h = rw (sym e) h

    from_start : (n : ℕ) (d : Descrambler dsp) → IsReady 0 d → IsReady n (stepped n d)
    from_start n d h = IsReady-same (0 + n) n (stepped n d) (zero_plus n) (stepped-IsReady n 0 d h)

    IsReady-again : (n : ℕ) (d : Descrambler dsp) → n % 120 ≡ 0 → IsReady n d → IsReady 0 d
    IsReady-again n d e h = record { len = h.len; pos = h.pos ∙ e; ms = h.ms ∙ ap state_at e }

    -- From a descrambler at the start of its sequence, symbol i of a frame gets bit i % 120 of the
    -- sequence of the generator. The descrambler is never reset between two frames: behind the last
    -- symbol it stands at the start of the sequence again, for the next one.
    pub descrambler_after-IsReady :
        (m1 : ℕ) (symbols : List dsp.Symbol) (d : Descrambler dsp)
        → m1 < 8
        → length symbols ≡ frame_symbols m1
        → IsReady 0 d
        → ((i : ℕ)
            → i < length symbols
            → (descrambler_advance dsp (stepped i d)).0 ≡ sequence_bit (i % 120))
          × IsReady 0 (descrambler_after dsp symbols d)
    descrambler_after-IsReady m1 symbols d h all ready = (
      λ i b. (advance-IsReady i (stepped i d) (from_start i d ready)).0,
      rw (after_lem symbols d) (
          IsReady-again (length symbols) (stepped (length symbols) d)
            (omega (arith, all, frame_symbols-whole m1 h)) (from_start (length symbols) d ready)),
    )
