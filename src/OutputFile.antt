-- ===== src/OutputFile.antt =====
-- src/output-file.c: the driver that writes to files and rotates them. The calendar, strftime and what
-- fopen answers are parameters. `none` is a failed ASSERT.
pub mod Rotation
use dumphfdl.Common.{
  ℕ, zero, suc, ◌+◌, ◌-◌, Bool, true, false, ◌==◌, ltb, leb, not, ◌&&◌, ◌||◌, if◌then◌else◌, Option,
  none, some, ◌>>=◌, List, [], ◌∷◌, ◌++◌, length, take, drop,
}

pub data OutFileRotationMode : Type 0 where
  rot_none rot_hourly rot_daily : OutFileRotationMode

-- struct tm.
pub record Tm : Type 0 where
  pub year : ℕ
  pub mon : ℕ
  pub mday : ℕ
  pub hour : ℕ

-- A stream: standard output, or the file of a name.
pub data Stream : Type 0 where
  standard_output : Stream
  file : List ℕ → Stream

-- out_file_ctx_t, with what has been written so far and where.
pub record OutFileCtx : Type 0 where
  pub fh : Option Stream
  pub filename_prefix : List ℕ
  pub extension : List ℕ
  pub prefix_len : ℕ
  pub current_tm : Tm
  pub rotate : OutFileRotationMode
  pub written : List (Stream × List ℕ)

-- What a call finds: the time that out_file_rotate reads, the one that out_file_open reads, and
-- whether a file can be opened.
pub record Now : Type 0 where
  pub tm : Tm
  pub open_tm : Tm
  pub can_open : Bool

abbrev pub same_text : List ℕ → List ℕ → Bool
same_text [] [] = true
same_text [] (y ∷ ys) = false
same_text (x ∷ xs) [] = false
same_text (x ∷ xs) (y ∷ ys) = (x == y) && same_text xs ys

abbrev pub is_rotating : OutFileRotationMode → Bool
is_rotating rot_none = false
is_rotating mode = true

-- "hourly" and "daily".
abbrev pub hourly : List ℕ
hourly = 104 ∷ 111 ∷ 117 ∷ 114 ∷ 108 ∷ 121 ∷ []

abbrev pub daily : List ℕ
daily = 100 ∷ 97 ∷ 105 ∷ 108 ∷ 121 ∷ []

unfoldable pub rotation_mode : Option (List ℕ) → Option OutFileRotationMode
rotation_mode none = some rot_none
rotation_mode (some mode) =
    if same_text mode hourly
    then some rot_hourly
    else if same_text mode daily
    then some rot_daily
    else none

abbrev pub no_time : Tm
no_time = record { year = 0; mon = 0; mday = 0; hour = 0 }

-- out_file_configure, of the values of "path" and "rotate"; `none` is the null pointer.
unfoldable pub out_file_configure : Option (List ℕ) → Option (List ℕ) → Option OutFileCtx
unfolding rotation_mode
out_file_configure path rotate = do
  filename_prefix ← path
  mode ← rotation_mode rotate
  some (record {
    fh = none;
    filename_prefix = filename_prefix;
    extension = [];
    prefix_len = 0;
    current_tm = no_time;
    rotate = mode;
    written = [];
  })

-- The index of the last occurrence.
unfoldable pub strrchr : List ℕ → ℕ → Option ℕ
strrchr [] c = none
strrchr (x ∷ s) c = elim (strrchr s c) [
  | some i ↦ some (suc i)
  | none ↦ if x == c then some 0 else none
]

-- Where the extension of a path starts, if it has one: not at the start of the name, and not at the
-- last character.
abbrev pub basename : Option ℕ → ℕ
basename none = 0
basename (some slash) = slash + 1

abbrev pub proper : List ℕ → ℕ → Option ℕ → Option ℕ
proper path base none = none
proper path base (some ext) = if leb ext base || (ext + 1 == length path) then none else some ext

unfoldable pub extension_at : List ℕ → Option ℕ
unfolding strrchr
extension_at path = proper path (basename (strrchr path 47)) (strrchr path 46)

abbrev pub split_path : Option ℕ → OutFileCtx → OutFileCtx
split_path none self = record self { extension = [] }
split_path (some ext) self = record self {
  extension = drop ext self.filename_prefix;
  filename_prefix = take ext self.filename_prefix;
}

module _ (strftime : OutFileRotationMode → Tm → List ℕ) where
  -- The call succeeded, or returned -1.
  pub record Outcome : Type 0 where
    pub self : OutFileCtx
    pub failed : Bool

  -- The name of the file that is opened.
  abbrev pub filename : OutFileCtx → List ℕ
  filename self =
      if is_rotating self.rotate
      then self.filename_prefix ++ strftime self.rotate self.current_tm ++ self.extension
      else self.filename_prefix

  abbrev pub fopen : Bool → OutFileCtx → Outcome
  fopen can_open self =
      if can_open
      then record { self = record self { fh = some (file (filename self)) }; failed = false }
      else record { self = record self { fh = none }; failed = true }

  unfoldable pub out_file_open : Now → OutFileCtx → Outcome
  out_file_open now self =
      if is_rotating self.rotate
      then (if length (strftime self.rotate now.open_tm) == 0
          then record { self = record self { current_tm = now.open_tm }; failed = true }
          else fopen now.can_open (record self { current_tm = now.open_tm }))
      else fopen now.can_open self

  unfoldable pub out_file_init : Now → OutFileCtx → Outcome
  unfolding out_file_open extension_at
  out_file_init now self =
      if same_text self.filename_prefix (45 ∷ [])
      then record {
        self = record self { fh = some standard_output; rotate = rot_none };
        failed = false;
      }
      else (let measured = record self { prefix_len = length self.filename_prefix } in
          out_file_open now (
            if is_rotating self.rotate
            then split_path (extension_at self.filename_prefix) measured
            else measured))

  -- Whether the file is due: the hours, or the days of the month, differ.
  abbrev pub is_due : OutFileRotationMode → Tm → Tm → Bool
  is_due rot_none new current = false
  is_due rot_hourly new current = not (new.hour == current.hour)
  is_due rot_daily new current = not (new.mday == current.mday)

  unfoldable pub out_file_rotate : Now → OutFileCtx → Outcome
  out_file_rotate now self =
      if is_due self.rotate now.tm self.current_tm
      then out_file_open now (record self { fh = none })
      else record { self = self; failed = false }

  unfoldable pub out_file_produce_text : List ℕ → OutFileCtx → Option OutFileCtx
  out_file_produce_text msg self =
      self.fh >>= λ (fh : Stream). some (record self { written = self.written ++ (fh, msg) ∷ [] })

  -- For the three formats that the driver supports.
  unfoldable pub out_file_produce : Now → List ℕ → OutFileCtx → Option Outcome
  out_file_produce now msg self =
      let rotated =
        (if is_rotating self.rotate
          then out_file_rotate now self
          else record { self = self; failed = false }) in
      if rotated.failed
      then some rotated
      else (out_file_produce_text msg rotated.self >>= λ (written : OutFileCtx).
          some (record { self = written; failed = false }))
