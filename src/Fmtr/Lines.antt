-- ===== src/Fmtr/Lines.antt =====
-- The members that src/fmtr-json.c adds, and the positions that src/fmtr-basestation.c reports.
use Prim.Native.String.{String}
use dumphfdl.Common.{ℕ, ◌+◌, ◌≤◌, ◌≡◌, refl, Bool, false, Option, none, some, List, [], ltb, arith}
use dumphfdl.Position.{Calendar, PositionInfo}
use dumphfdl.Json.{Frame}
use dumphfdl.Json.Nesting.{Fills, Fills-of, Runs-calls, Runs-seq}
use dumphfdl.Fmtr.{HfdlPduMetadata, hfdl_format_json, BasestationMsg, basestation_msg}

module _ {W D : Type 0} where
  -- The members of the object "hfdl" are well-formed, with a station name and without one.
  pub hfdl_format_json-Fills :
      (fs : List Frame) (version : String) (station_id : Option (List ℕ)) (m : HfdlPduMetadata D)
      → Fills fs [] (hfdl_format_json {W = W} version station_id m)
  unfolding hfdl_format_json
  hfdl_format_json-Fills fs version none m =
      Fills-of (Runs-seq (Runs-calls _ refl) (Runs-seq (Runs-calls [] refl) (Runs-calls _ refl)))
  hfdl_format_json-Fills fs version (some station) m =
      Fills-of (Runs-seq (Runs-calls _ refl) (Runs-seq (Runs-calls _ refl) (Runs-calls _ refl)))

module _ (c : Calendar) where
  -- A position is reported exactly if its time is not in the future and at most 300 seconds ago.
  pub basestation_msg-some :
      (freq_as_squawk : Bool) (freq now : ℕ) (pos_info : PositionInfo c.Date)
      → pos_info.timestamp.t ≤ now
      → now ≤ pos_info.timestamp.t + 300
      → (msg : BasestationMsg c.Date) × (basestation_msg c freq_as_squawk freq now pos_info
          ≡ some msg)
  unfolding basestation_msg
  basestation_msg-some freq_as_squawk freq now pos_info past recent =
      let a : ltb now pos_info.timestamp.t ≡ false = ground arith in
      let b : ltb (pos_info.timestamp.t + 300) now ≡ false = ground arith in rw (a, b) (_, refl)

  pub basestation_msg-recent :
      (freq_as_squawk : Bool) (freq now : ℕ) (pos_info : PositionInfo c.Date)
      (msg : BasestationMsg c.Date)
      → basestation_msg c freq_as_squawk freq now pos_info ≡ some msg
      → (pos_info.timestamp.t ≤ now) × (now ≤ pos_info.timestamp.t + 300)
  unfolding basestation_msg
  basestation_msg-recent freq_as_squawk freq now pos_info msg e =
      (ground (arith, e), ground (arith, e))
