-- ===== src/Client/Delivery.antt =====
-- The frames that the agent sends, `data: ` with one line and a blank line after it, read back.
use mathlib.Core.List.{flatten}
use cyberstalk_me.Base.{
  ◌≡◌, refl, ap, ◌∙◌, Bool, true, not, Option, none, some, List, [], ◌∷◌, ◌++◌, Text, codes,
  is_empty, length, all, ◌==◌, arith, if◌then◌else◌,
}
use cyberstalk_me.Client.Frames.{split_frame, payload_of, deliver, read_all}
use cyberstalk_me.Client.Reading.{drain-none, drained, drained-some, read_all-flatten}

-- One line of text.
abbrev pub is_line : Text → Bool
is_line = all (λ c. not (c == 10))

abbrev pub frame_of : Text → Text
frame_of payload = codes "data: " ++ payload

-- The stream of these payloads, with an unfinished frame at its end.
abbrev pub sent : List Text → Text → Text
sent [] partial = partial
sent (payload ∷ payloads) partial = frame_of payload ++ codes "\n\n" ++ sent payloads partial

split_frame-line :
    (line rest : Text)
    → is_line line ≡ true
    → split_frame (line ++ codes "\n\n" ++ rest) ≡ some (line, rest)
unfolding split_frame
split_frame-line [] rest h = refl
split_frame-line (c ∷ line) rest h = ground (arith, split_frame-line line rest)

payload_of-frame_of : (payload : Text) → payload_of (frame_of payload) ≡ payload
unfolding payload_of
payload_of-frame_of payload = refl

module _ {A : Type 0} (parse : Text → Option A) where
  -- The snapshots of the payloads that are JSON; the others, and empty ones, are dropped.
  abbrev pub snapshots : List Text → List A
  snapshots [] = []
  snapshots (payload ∷ payloads) =
      (if is_empty payload then [] else elim (parse payload) [ none ↦ [] | some a ↦ a ∷ [] ])
      ++ snapshots payloads

  deliver-frame_of :
      (payload : Text)
      → deliver parse (frame_of payload)
        ≡ (if is_empty payload then [] else elim (parse payload) [ none ↦ [] | some a ↦ a ∷ [] ])
  unfolding deliver payload_of
  deliver-frame_of payload = refl

  drained-sent :
      (payloads : List Text) (partial : Text)
      → all is_line payloads ≡ true
      → split_frame partial ≡ none
      → drained parse (sent payloads partial) ≡ (snapshots payloads, partial)
  drained-sent [] partial h e = drain-none parse (length partial) partial e
  drained-sent (payload ∷ payloads) partial h e =
      drained-some parse (sent (payload ∷ payloads) partial) (frame_of payload)
        (sent payloads partial)
        (split_frame-line (frame_of payload) (sent payloads partial) (ground arith))
      ∙ ap (λ d. (deliver parse (frame_of payload) ++ d.0, d.1))
          (drained-sent payloads partial (ground arith) e)
      ∙ ap (λ out. (out ++ snapshots payloads, partial)) (deliver-frame_of payload)

  -- However the stream is cut into chunks: every frame whose blank line has arrived is delivered
  -- once, in order, a payload that does not parse is dropped without those after it, and the
  -- unfinished frame at the end waits in the buffer.
  pub read_all-sent :
      (payloads chunks : List Text) (partial : Text)
      → all is_line payloads ≡ true
      → split_frame partial ≡ none
      → flatten chunks ≡ sent payloads partial
      → read_all parse [] chunks ≡ (snapshots payloads, partial)
  unfolding split_frame
  read_all-sent payloads chunks partial h e cut =
      read_all-flatten parse chunks [] refl
      ∙ ap (drained parse) cut
      ∙ drained-sent payloads partial h e
