-- ===== src/Kvargs.antt =====
-- src/kvargs.c: the parser of option strings, `key=value` pairs between commas. A string is the
-- list of its characters; the hash table is a parameter.
pub mod Parsing
use dumphfdl.Common.{
  ℕ, zero, suc, ◌+◌, Option, none, some, List, [], ◌∷◌, length, if◌then◌else◌, ◌==◌,
}
use dumphfdl.LaHash.{LaHash}

-- strsep with one delimiter: the token, and the string after it, which is null after the last.
unfoldable pub strsep : ℕ → List ℕ → List ℕ × Option (List ℕ)
strsep delim [] = ([], none)
strsep delim (x ∷ string) =
    let rest = strsep delim string in if x == delim then ([], some string) else (x ∷ rest.0, rest.1)

module _ (h : LaHash (List ℕ) (List ℕ)) where
  -- kvargs_parse_result: success, or the error and its position.
  pub data ParseResult : Type 0 where
    success : h.Table → ParseResult
    no_input : ParseResult
    no_key : ℕ → ParseResult
    no_value : ℕ → ParseResult

  -- One round of the loop ends it, or leaves the table, the string and its position.
  pub data Round : Type 0 where
    stop : ParseResult → Round
    next : h.Table → List ℕ → ℕ → Round

  abbrev pub store_pair : h.Table → List ℕ → List ℕ → h.Table
  store_pair kv key value = (h.insert kv key value).0

  -- The body of the loop, from the key, the value and the rest of the string that strsep found.
  abbrev pub round : h.Table → ℕ → ℕ → List ℕ → Option (List ℕ) → Option (List ℕ) → Round
  round kv pos pair_len [] value rest = stop (no_key pos)
  round kv pos pair_len (x ∷ xs) none rest = stop (no_value (pos + length (x ∷ xs)))
  round kv pos pair_len (x ∷ xs) (some v) none = stop (success (store_pair kv (x ∷ xs) v))
  round kv pos pair_len (x ∷ xs) (some v) (some rest) =
      next (store_pair kv (x ∷ xs) v) rest (pos + pair_len + 1)

  -- The loop on fuel; `pos` is where the next pair starts. The outer none is a lack of fuel.
  unfoldable pub pairs_loop : ℕ → h.Table → List ℕ → ℕ → Option ParseResult
  pairs_loop zero kv string pos = none
  pairs_loop (suc fuel) kv string pos =
      let (kvpair, rest) = strsep 44 string in
      let (key, value) = strsep 61 kvpair in
      elim (round kv pos (length kvpair) key value rest) [
        | stop r ↦ some r
        | next kv' string' pos' ↦ pairs_loop fuel kv' string' pos'
      ]

  -- A pair takes a character or more, so the length of the string is fuel enough.
  unfoldable pub kvargs_from_string : Option (List ℕ) → Option ParseResult
  unfolding pairs_loop
  kvargs_from_string none = some no_input
  kvargs_from_string (some string) = pairs_loop (suc (length string)) h.new string 0

  unfoldable pub kvargs_get : h.Table → List ℕ → Option (List ℕ)
  kvargs_get kv key = h.lookup kv key
