-- ===== src/OutputFile/Rotation.antt =====
-- Into which file the driver of src/output-file.c writes, and how a rotation fails.
use dumphfdl.Common.{
  append_nil, take-drop, ℕ, ◌+◌, ◌≡◌, ◌≤◌, ◌<◌, refl, ap, sym, ◌∙◌, arith, inl, inr, true, false,
  ◌==◌, none, some, Option-cases, List, [], ◌∷◌, ◌++◌, length, take, drop, length-append,
}
use dumphfdl.OutputFile.{
  OutFileRotationMode, Tm, file, OutFileCtx, Now, is_rotating, filename, out_file_open, is_due,
  out_file_rotate, out_file_produce_text, out_file_produce, extension_at, split_path,
}

module _ (strftime : OutFileRotationMode → Tm → List ℕ) where
  -- A rotating output with the file of its last rotation open.
  pub record IsNamed (self : OutFileCtx) : Type 0 where
    pub rotating : is_rotating self.rotate ≡ true
    pub opened : self.fh ≡ some (file (filename strftime self))

  -- The output behind a message, where the file was not due and where it was.
  after : OutFileCtx → List ℕ → OutFileCtx
  after self msg = record self {
    fh = some (file (filename strftime self));
    written = self.written ++ (file (filename strftime self), msg) ∷ [];
  }

  at : Now → OutFileCtx → OutFileCtx
  at now self = record self { current_tm = now.open_tm }

  not_empty : (n : ℕ) → 0 < n → (n == 0) ≡ false
  not_empty n h = ground (arith, h)

  -- A rotation whose fopen fails reports the failure for that message. Until the file is due once more,
  -- the next message then fails the ASSERT on the open file, although a new try to open it might
  -- have succeeded: the time of the failed rotation has been stored, so that none is made.
  pub out_file_produce-unopened :
      (now later : Now) (msg msg2 : List ℕ) (self : OutFileCtx)
      → is_rotating self.rotate ≡ true
      → is_due strftime self.rotate now.tm self.current_tm ≡ true
      → 0 < length (strftime self.rotate now.open_tm)
      → now.can_open ≡ false
      → is_due strftime self.rotate later.tm now.open_tm ≡ false
      → (self1 : OutFileCtx) × (out_file_produce strftime now msg self
          ≡ some (record { self = self1; failed = true }))
        × (out_file_produce strftime later msg2 self1 ≡ none)
  unfolding out_file_produce out_file_rotate out_file_produce_text out_file_open
  out_file_produce-unopened now later msg msg2 self rotating due suffix closed still = (
    record self { fh = none; current_tm = now.open_tm },
    rw (rotating, due, not_empty (length (strftime self.rotate now.open_tm)) suffix, closed) refl,
    rw (rotating, still) refl,
  )

fits :
    (front back path suffix : List ℕ)
    → front ++ back ≡ path
    → length (front ++ suffix ++ back) + 1 ≤ length path + length suffix + 2
fits front back path suffix e = omega (
  arith,
  length-append (front ++ suffix) back,
  length-append front suffix,
  sym (length-append front back) ∙ ap (λ (xs : List ℕ). length xs) e,
)

-- A path is cut into a prefix and an extension without losing a character, and what is allocated for
-- a file name, counted before the cut, has room for the name with any suffix and its terminator.
pub split_path_lem :
    (self : OutFileCtx) (suffix : List ℕ)
    → let cut = split_path (extension_at self.filename_prefix) self in
      (cut.filename_prefix ++ cut.extension ≡ self.filename_prefix)
      × (length (cut.filename_prefix ++ suffix ++ cut.extension) + 1
          ≤ length self.filename_prefix + length suffix + 2)
split_path_lem self suffix =
    let path = self.filename_prefix in
    elim (Option-cases (extension_at path)) [
      | inl none_found ↦ rw none_found (append_nil path, fits path [] path suffix (append_nil path))
      | inr (ext, found) ↦ rw found (
        take-drop ext path,
        fits (take ext path) (drop ext path) path suffix (take-drop ext path),
      )
    ]
