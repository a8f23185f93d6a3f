-- ===== src/Hfdl/Descrambler.antt =====
-- src/hfdl.c: the descrambler, a sequence generator that starts anew after every 120 bits. It is reset
-- by its own count alone, never by the framer.
use dumphfdl.Common.{ℕ, ◌+◌, ◌==◌, if◌then◌else◌}
use dumphfdl.Hfdl.Dsp.{Dsp}

module _ (dsp : Dsp) where
  pub record Descrambler : Type 0 where
    pub ms : dsp.Msequence
    pub len : ℕ
    pub pos : ℕ

  unfoldable pub descrambler_create : ℕ → Descrambler
  descrambler_create seq_len = record { ms = dsp.msequence_create; len = seq_len; pos = 0 }

  unfoldable pub hfdl_descrambler_create : Descrambler
  unfolding descrambler_create
  hfdl_descrambler_create = descrambler_create 120

  -- The start of descrambler_advance, down to the reset.
  abbrev pub wrapped_around : Descrambler → Descrambler
  wrapped_around d =
      if d.pos == d.len then record d { ms = dsp.msequence_reset d.ms; pos = 0 } else d

  abbrev pub advanced : Descrambler → ℕ × Descrambler
  advanced d =
      let (bit, ms) = dsp.msequence_advance d.ms in (bit, record d { ms = ms; pos = d.pos + 1 })

  unfoldable pub descrambler_advance : Descrambler → ℕ × Descrambler
  descrambler_advance d = advanced (wrapped_around d)
