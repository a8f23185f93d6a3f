-- ===== src/Tests/Files.antt =====
-- Runs of the file output, rotated every hour; the suffix is the digit of the hour.
use dumphfdl.Common.{ℕ, ◌+◌, ◌≡◌, refl, arith, true, false, some, none, List, [], ◌∷◌}
use dumphfdl.OutputFile.{
  OutFileRotationMode, rot_hourly, Tm, file, OutFileCtx, Now, out_file_produce, extension_at,
  out_file_configure, hourly, no_time,
}
use dumphfdl.OutputFile.Rotation.{out_file_produce-unopened}

abbrev digit : OutFileRotationMode → Tm → List ℕ
digit mode tm = (48 + tm.hour) ∷ []

abbrev hour : ℕ → Tm
hour h = record { year = 2024; mon = 1; mday = 1; hour = h }

abbrev opened : OutFileCtx
opened = record {
  fh = some (file (108 ∷ 49 ∷ []));
  filename_prefix = 108 ∷ [];
  extension = [];
  prefix_len = 1;
  current_tm = hour 1;
  rotate = rot_hourly;
  written = [];
}

abbrev two_o_clock : Now
two_o_clock = record { tm = hour 2; open_tm = hour 2; can_open = true }

abbrev no_space : Now
no_space = record { tm = hour 2; open_tm = hour 2; can_open = false }

out_file_produce-unopened_example :
    (self1 : OutFileCtx) × (out_file_produce digit no_space (65 ∷ []) opened
      ≡ some (record { self = self1; failed = true }))
    × (out_file_produce digit two_o_clock (66 ∷ []) self1 ≡ none)
out_file_produce-unopened_example =
    out_file_produce-unopened digit no_space two_o_clock (65 ∷ []) (66 ∷ []) opened refl refl
      (omega arith) refl refl

-- "a/b.c"
abbrev dotted : OutFileCtx
dotted = record opened { filename_prefix = 97 ∷ 47 ∷ 98 ∷ 46 ∷ 99 ∷ [] }

dotted_extension : extension_at dotted.filename_prefix ≡ some 3
unfolding extension_at
dotted_extension = refl

configured_hourly :
    out_file_configure (some (108 ∷ [])) (some hourly)
    ≡ some (record opened { fh = none; prefix_len = 0; current_tm = no_time })
unfolding out_file_configure
configured_hourly = refl
