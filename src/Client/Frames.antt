-- ===== src/Client/Frames.antt =====
-- `streamCatalog`: the chunks that `decoder.decode` gives are cut into frames at each blank line.
-- `parse` is `JSON.parse` with the cast to a snapshot, whose `none` is that it throws.
use cyberstalk_me.Base.{
  ℕ, zero, suc, ◌&&◌, Option, none, some, List, [], ◌∷◌, ◌++◌, Text, codes, is_empty, starts_with,
  length, drop, ◌==◌, if◌then◌else◌,
}

-- What stands before the first `\n\n`, and what after it: `indexOf`, and the two slices.
unfoldable pub split_frame : Text → Option (Text × Text)
split_frame [] = none
split_frame (c ∷ s) =
    let later = split_frame s in
    if (c == 10) && starts_with 10 s
    then some ([], drop 1 s)
    else elim later [ none ↦ none | some (frame, rest) ↦ some (c ∷ frame, rest) ]

-- `frame.startsWith(prefix)`, with what follows the prefix.
abbrev pub strip_prefix : Text → Text → Option Text
strip_prefix [] s = some s
strip_prefix (p ∷ ps) [] = none
strip_prefix (p ∷ ps) (c ∷ s) = let rest = strip_prefix ps s in if c == p then rest else none

unfoldable pub payload_of : Text → Text
payload_of frame = elim (strip_prefix (codes "data: ") frame) [ none ↦ [] | some p ↦ p ]

module _ {A : Type 0} (parse : Text → Option A) where
  -- The snapshots that a frame hands to `onSnapshot`: one, or none.
  unfoldable pub deliver : Text → List A
  unfolding payload_of
  deliver frame =
      if is_empty (payload_of frame)
      then []
      else elim (parse (payload_of frame)) [ none ↦ [] | some snapshot ↦ snapshot ∷ [] ]

  -- The inner loop, with fuel: what it delivers, and the buffer that it leaves.
  unfoldable pub drain : ℕ → Text → List A × Text
  unfolding split_frame deliver
  drain zero buffer = ([], buffer)
  drain (suc fuel) buffer = elim (split_frame buffer) [
    | none ↦ ([], buffer)
    | some (frame, rest) ↦ let (more, left) = drain fuel rest in (deliver frame ++ more, left)
  ]

  -- One `read`: each round of the loop takes two code units off the buffer, or ends it.
  unfoldable pub take_in : Text → Text → List A × Text
  unfolding drain
  take_in buffer chunk = drain (length (buffer ++ chunk)) (buffer ++ chunk)

  -- The outer loop, over the chunks up to `done`.
  unfoldable pub read_all : Text → List Text → List A × Text
  unfolding take_in
  read_all buffer [] = ([], buffer)
  read_all buffer (chunk ∷ chunks) =
      let (out, left) = take_in buffer chunk in
      let (more, last) = read_all left chunks in (out ++ more, last)
