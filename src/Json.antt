-- ===== src/Json.antt =====
-- The JSON output: the calls of libacars' la_json_* functions that a formatter makes, in order, and
-- whether they build a well-formed document. libacars writes the text; it is not modelled.
pub mod Nesting
use Prim.Native.String.{String}
use text.Mathlib.Text.{◌==◌}
use dumphfdl.Common.{
  ℕ, Bool, true, false, ◌&&◌, not, Option, none, some, ◌>>=◌, List, [], ◌∷◌, ◌++◌, if◌then◌else◌,
}
use dumphfdl.Util.{Signed}

-- A string of the source, or octets from a message, a file or a database.
pub data Str : Type 0 where
  literal : String → Str
  octets : List ℕ → Str

-- A coordinate, held as the integer from which parse_coordinate computes degrees, or a number that
-- a library gave.
pub data Number (D : Type 0) : Type 0 where
  degrees : Signed → Number D
  double : D → Number D

-- One call of libacars each; `none` is a null label.
pub data Event (D : Type 0) : Type 0 where
  object_start : Option String → Event D
  object_end : Event D
  array_start : String → Event D
  array_end : Event D
  append_int64 : String → ℕ → Event D
  append_bool : String → Bool → Event D
  append_double : String → Number D → Event D
  append_string : String → Str → Event D
  append_char : String → ℕ → Event D

-- What is open: an object, with the labels that it has so far, or an array.
pub data Frame : Type 0 where
  object : List String → Frame
  array : Frame

abbrev pub is_used : String → List String → Bool
is_used l [] = false
is_used l (k ∷ ks) = if k == l then true else is_used l ks

-- A member of the open object, with a label that it does not have yet.
abbrev pub member : String → List Frame → Option (List Frame)
member l [] = none
member l (array ∷ fs) = none
member l (object ks ∷ fs) = if is_used l ks then none else some (object (l ∷ ks) ∷ fs)

abbrev pub push_frame : Frame → Option (List Frame) → Option (List Frame)
push_frame f none = none
push_frame f (some fs) = some (f ∷ fs)

abbrev pub close_object : List Frame → Option (List Frame)
close_object (object ks ∷ fs) = some fs
close_object fs = none

abbrev pub close_array : List Frame → Option (List Frame)
close_array (array ∷ fs) = some fs
close_array fs = none

-- An element of an array has no label.
abbrev pub element : List Frame → Option (List Frame)
element (array ∷ fs) = some (array ∷ fs)
element fs = none

module _ {D : Type 0} where
  abbrev pub accept : List Frame → Event D → Option (List Frame)
  accept fs (object_start (some l)) = push_frame (object []) (member l fs)
  accept fs (object_start none) = push_frame (object []) (element fs)
  accept fs object_end = close_object fs
  accept fs (array_start l) = push_frame array (member l fs)
  accept fs array_end = close_array fs
  accept fs (append_int64 l n) = member l fs
  accept fs (append_bool l b) = member l fs
  accept fs (append_double l d) = member l fs
  accept fs (append_string l s) = member l fs
  accept fs (append_char l c) = member l fs

  -- What is open after some calls; `none` if one of them does not fit where it stands.
  abbrev pub scan : List Frame → List (Event D) → Option (List Frame)
  scan fs [] = some fs
  scan fs (e ∷ es) = accept fs e >>= λ gs. scan gs es

-- A formatter reads and changes the state of the program, and makes calls; `none` is an access that
-- C leaves undefined.
abbrev pub Out : Type 0 → Type 0 → Type 0
Out W D = W → Option (W × List (Event D))

module _ {W D : Type 0} where
  infixr 4 ◌▸◌
  unfoldable pub calls : List (Event D) → Out W D
  calls es w = some (w, es)

  unfoldable pub ◌▸◌ : Out W D → Out W D → Out W D
  ◌▸◌ f g w = f w >>= λ r. g r.0 >>= λ q. some (q.0, r.1 ++ q.1)

  -- A look-up that may change the state, and what follows from its result.
  unfoldable pub ask {ℓ} : {A : Type ℓ} → (W → W × A) → (A → Out W D) → Out W D
  ask m k w = let r = m w in k r.1 r.0

  -- What follows from a value that C may leave undefined.
  unfoldable pub defined {ℓ} : {A : Type ℓ} → Option A → (A → Out W D) → Out W D
  defined none k w = none
  defined (some a) k w = k a w

  unfoldable pub fault : Out W D
  fault w = none
