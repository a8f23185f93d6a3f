-- ===== src/Hfdl/Creation.antt =====
-- The state in which hfdl_channel_create of src/hfdl.c leaves a channel.
use dumphfdl.Common.{
  ℕ, zero, suc, ◌≡◌, ◌<◌, refl, arith, some, List, [], ◌∷◌, get_or, length, replicate,
  length-replicate, ap, ◌∙◌,
}
use dumphfdl.Hfdl.Dsp.{Dsp}
use dumphfdl.Hfdl.Deinterleaver.{Deinterleaver, empty_table, columns_of, deinterleaver_create}
use dumphfdl.Hfdl.Permutation.{frame}
use dumphfdl.Hfdl.Filling.{IsSized}
use dumphfdl.Hfdl.Bank.{IsBank, IsHome}
use dumphfdl.Hfdl.Channel.{Channel, framer_reset}
use dumphfdl.Hfdl.Framer.{create_deinterleavers, new_channel, hfdl_channel_create}
use dumphfdl.Hfdl.Invariant.{IsGood}
use dumphfdl.Hfdl.Searching.{reset-IsSearching}

get_or-replicate : {A : Type 0} (n i : ℕ) (a d : A) → i < n → get_or (replicate n a) i d ≡ a
get_or-replicate zero i a d h = absurd (omega (arith, h))
get_or-replicate (suc n) zero a d h = refl
get_or-replicate (suc n) (suc i) a d h = get_or-replicate n i a d (omega (arith, h))

pub empty_table-IsSized : (columns shift : ℕ) → IsSized columns shift (empty_table columns shift)
empty_table-IsSized columns shift = record {
  shaped = record {
    rows = length-replicate 40 (replicate {A = ℕ} columns 0);
    wide = λ r h.
        ap length (get_or-replicate 40 r (replicate {A = ℕ} columns 0) [] h)
        ∙ length-replicate columns 0;
  };
  column_cnt = refl;
  push_column_shift = refl;
}

-- A new deinterleaver is fit for the frames of its shift of M1.
unfoldable pub created : ℕ → Deinterleaver
created m1 = empty_table (columns_of (frame m1)) (frame m1).deinterleaver_push_column_shift

abbrev pub all_created : List Deinterleaver
all_created =
    created 0
    ∷ created 1
    ∷ created 2
    ∷ created 3
    ∷ created 4
    ∷ created 5
    ∷ created 6
    ∷ created 7
    ∷ []

pub all_created-IsHome : IsHome all_created
unfolding created
all_created-IsHome zero h = (
  created 0,
  refl,
  empty_table-IsSized (columns_of (frame 0)) (frame 0).deinterleaver_push_column_shift,
  refl,
  refl,
)
all_created-IsHome (suc zero) h = (
  created 1,
  refl,
  empty_table-IsSized (columns_of (frame 1)) (frame 1).deinterleaver_push_column_shift,
  refl,
  refl,
)
all_created-IsHome (suc (suc zero)) h = (
  created 2,
  refl,
  empty_table-IsSized (columns_of (frame 2)) (frame 2).deinterleaver_push_column_shift,
  refl,
  refl,
)
all_created-IsHome (suc (suc (suc zero))) h = (
  created 3,
  refl,
  empty_table-IsSized (columns_of (frame 3)) (frame 3).deinterleaver_push_column_shift,
  refl,
  refl,
)
all_created-IsHome (suc (suc (suc (suc zero)))) h = (
  created 4,
  refl,
  empty_table-IsSized (columns_of (frame 4)) (frame 4).deinterleaver_push_column_shift,
  refl,
  refl,
)
all_created-IsHome (suc (suc (suc (suc (suc zero))))) h = (
  created 5,
  refl,
  empty_table-IsSized (columns_of (frame 5)) (frame 5).deinterleaver_push_column_shift,
  refl,
  refl,
)
all_created-IsHome (suc (suc (suc (suc (suc (suc zero)))))) h = (
  created 6,
  refl,
  empty_table-IsSized (columns_of (frame 6)) (frame 6).deinterleaver_push_column_shift,
  refl,
  refl,
)
all_created-IsHome (suc (suc (suc (suc (suc (suc (suc zero))))))) h = (
  created 7,
  refl,
  empty_table-IsSized (columns_of (frame 7)) (frame 7).deinterleaver_push_column_shift,
  refl,
  refl,
)
all_created-IsHome (suc (suc (suc (suc (suc (suc (suc (suc m1)))))))) h = absurd (omega (arith, h))

pub all_created-IsBank : IsBank all_created
all_created-IsBank m1 h = let (d, e, for, _, _) = all_created-IsHome m1 h in (d, e, for)

module _ (dsp : Dsp) where
  create_all : create_deinterleavers dsp (0 ∷ 1 ∷ 2 ∷ 3 ∷ 4 ∷ 5 ∷ 6 ∷ 7 ∷ []) ≡ some all_created
  unfolding create_deinterleavers created deinterleaver_create
  create_all = refl

  pub hfdl_channel_create-IsGood :
      (bits : dsp.Bsequence)
      → (c : Channel dsp) × (hfdl_channel_create dsp bits ≡ some c) × IsGood dsp c
  unfolding hfdl_channel_create framer_reset
  hfdl_channel_create-IsGood bits = (
    framer_reset dsp (new_channel dsp bits all_created),
    rw create_all refl,
    reset-IsSearching dsp (new_channel dsp bits all_created) all_created-IsBank,
  )
