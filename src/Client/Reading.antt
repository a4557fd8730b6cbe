-- ===== src/Client/Reading.antt =====
-- The loops of `streamCatalog`: they end, and what they deliver depends on the text of the stream
-- and not on where it is cut into chunks.
use cyberstalk_me.Base.{
  ◌≡◌, refl, ap, sym, ◌∙◌, ◌≤◌, ◌<◌, inl, inr, ℕ, zero, suc, ◌+◌, Option, none, some, Option-cases,
  List, [], ◌∷◌, ◌++◌, Text, length, arith,
}
use mathlib.Core.List.{append_assoc, append-nil, flatten}
use cyberstalk_me.Client.Frames.{split_frame, deliver, drain, take_in, read_all}

-- A frame and the rest of the buffer are at least two code units shorter than the buffer.
split_frame-lt :
    (s : Text) (frame rest : Text) → split_frame s ≡ some (frame, rest) → length rest < length s
unfolding split_frame
split_frame-lt [] frame rest h = absurd (cc)
split_frame-lt (c ∷ []) frame rest h = absurd (ground arith)
split_frame-lt (c ∷ d ∷ s) frame rest h = elim (Option-cases (split_frame (d ∷ s))) [
  | inl e ↦ ground (arith, e)
  | inr ((f, r), e) ↦ ground (arith, e, split_frame-lt (d ∷ s) f r e)
]

-- What comes after a boundary does not move it.
split_frame-append :
    (s t frame rest : Text)
    → split_frame s ≡ some (frame, rest)
    → split_frame (s ++ t) ≡ some (frame, rest ++ t)
unfolding split_frame
split_frame-append [] t frame rest h = absurd (cc)
split_frame-append (c ∷ []) t frame rest h = absurd (ground arith)
split_frame-append (c ∷ d ∷ s) t frame rest h = elim (Option-cases (split_frame (d ∷ s))) [
  | inl e ↦ ground (arith, e)
  | inr ((f, r), e) ↦ ground (arith, e, split_frame-append (d ∷ s) t f r e)
]

module _ {A : Type 0} (parse : Text → Option A) where
  pub drain-none : (fuel : ℕ) (s : Text) → split_frame s ≡ none → drain parse fuel s ≡ ([], s)
  unfolding drain
  drain-none zero s e = refl
  drain-none (suc fuel) s e = rw (drain, e) refl

  drain-some :
      (fuel : ℕ) (s frame rest : Text)
      → split_frame s ≡ some (frame, rest)
      → drain parse (suc fuel) s
        ≡ (deliver parse frame ++ (drain parse fuel rest).0, (drain parse fuel rest).1)
  unfolding drain
  drain-some fuel s frame rest e = rw (drain, e) refl

  -- Fuel for each code unit of the buffer is enough: more changes nothing.
  pub drain_enough :
      (f g : ℕ) (s : Text) → length s ≤ f → length s ≤ g → drain parse f s ≡ drain parse g s
  drain_enough zero g s hf hg = elim (Option-cases (split_frame s)) [
    | inl e ↦ drain-none zero s e ∙ sym (drain-none g s e)
    | inr ((frame, rest), e) ↦ absurd (omega (arith, split_frame-lt s frame rest e))
  ]
  drain_enough (suc f) zero s hf hg = elim (Option-cases (split_frame s)) [
    | inl e ↦ drain-none (suc f) s e ∙ sym (drain-none zero s e)
    | inr ((frame, rest), e) ↦ absurd (omega (arith, split_frame-lt s frame rest e))
  ]
  drain_enough (suc f) (suc g) s hf hg = elim (Option-cases (split_frame s)) [
    | inl e ↦ drain-none (suc f) s e ∙ sym (drain-none (suc g) s e)
    | inr ((frame, rest), e) ↦
        let shorter = split_frame-lt s frame rest e in
        let ih = drain_enough f g rest (omega arith) (omega arith) in
        drain-some f s frame rest e
        ∙ ap (λ d. (deliver parse frame ++ d.0, d.1)) ih
        ∙ sym (drain-some g s frame rest e)
  ]

  -- The inner loop ends by its test: it leaves no complete frame in the buffer.
  pub drain_ends :
      (fuel : ℕ) (s : Text) → length s ≤ fuel → split_frame (drain parse fuel s).1 ≡ none
  drain_ends zero s h = elim (Option-cases (split_frame s)) [
    | inl e ↦ ap (λ d. split_frame d.1) (drain-none zero s e) ∙ e
    | inr ((frame, rest), e) ↦ absurd (omega (arith, split_frame-lt s frame rest e))
  ]
  drain_ends (suc fuel) s h = elim (Option-cases (split_frame s)) [
    | inl e ↦ ap (λ d. split_frame d.1) (drain-none (suc fuel) s e) ∙ e
    | inr ((frame, rest), e) ↦
        ap (λ d. split_frame d.1) (drain-some fuel s frame rest e)
        ∙ drain_ends fuel rest (omega (arith, split_frame-lt s frame rest e))
  ]

  -- Fuel for each code unit of the buffer is enough: the inner loop then ends by its test, with no
  -- complete frame left in the buffer, and more fuel changes nothing.
  pub drain_terminates :
      (fuel more : ℕ) (s : Text)
      → length s ≤ fuel
      → (split_frame (drain parse fuel s).1 ≡ none)
        × (drain parse (fuel + more) s ≡ drain parse fuel s)
  drain_terminates fuel more s h =
      (drain_ends fuel s h, drain_enough (fuel + more) fuel s (omega arith) h)

  -- The loop run to its end.
  abbrev pub drained : Text → List A × Text
  drained s = drain parse (length s) s

  pub drained-some :
      (s frame rest : Text)
      → split_frame s ≡ some (frame, rest)
      → drained s ≡ (deliver parse frame ++ (drained rest).0, (drained rest).1)
  drained-some s frame rest e =
      let shorter = split_frame-lt s frame rest e in
      drain_enough (length s) (suc (length s)) s (omega arith) (omega arith)
      ∙ drain-some (length s) s frame rest e
      ∙ ap (λ d. (deliver parse frame ++ d.0, d.1))
          (drain_enough (length s) (length rest) rest (omega arith) (omega arith))

  -- First what is complete in the front part, then the rest with what was left over.
  abbrev then_drained : List A × Text → Text → List A × Text
  then_drained (out, left) t = (out ++ (drained (left ++ t)).0, (drained (left ++ t)).1)

  drained-append :
      (n : ℕ) (s t : Text) → length s ≤ n → drained (s ++ t) ≡ then_drained (drained s) t
  drained-append zero s t h = elim (Option-cases (split_frame s)) [
    | inl e ↦ sym (ap (λ d. then_drained d t) (drain-none (length s) s e))
    | inr ((frame, rest), e) ↦ absurd (omega (arith, split_frame-lt s frame rest e))
  ]
  drained-append (suc n) s t h = elim (Option-cases (split_frame s)) [
    | inl e ↦ sym (ap (λ d. then_drained d t) (drain-none (length s) s e))
    | inr ((frame, rest), e) ↦
        let (out, left) = drained rest in
        let (more, last) = drained (left ++ t) in
        drained-some (s ++ t) frame (rest ++ t) (split_frame-append s t frame rest e)
        ∙ ap (λ d. (deliver parse frame ++ d.0, d.1))
            (drained-append n rest t (omega (arith, split_frame-lt s frame rest e)))
        ∙ ap (λ l. (l, last)) (sym (append_assoc (deliver parse frame) out more))
        ∙ sym (ap (λ d. then_drained d t) (drained-some s frame rest e))
  ]

  -- However the text of a stream is cut into chunks, even inside a frame or between the two line
  -- breaks of a boundary, the same snapshots are delivered, in the same order, and the same
  -- unfinished text is left, as when the whole text arrives at once.
  pub read_all-flatten :
      (chunks : List Text) (buffer : Text)
      → split_frame buffer ≡ none
      → read_all parse buffer chunks
        ≡ drain parse (length (buffer ++ flatten chunks)) (buffer ++ flatten chunks)
  unfolding read_all take_in flatten
  read_all-flatten [] buffer e = sym (
      drain-none (length (buffer ++ [])) (buffer ++ []) (ap split_frame (append-nil buffer) ∙ e)
      ∙ ap (λ b. ([], b)) (append-nil buffer))
  read_all-flatten (chunk ∷ chunks) buffer e =
      let whole = buffer ++ chunk in
      let ends = drain_ends (length whole) whole (omega arith) in
      ap (λ d. ((drained whole).0 ++ d.0, d.1)) (read_all-flatten chunks (drained whole).1 ends)
      ∙ sym (drained-append (length whole) whole (flatten chunks) (omega arith))
      ∙ ap drained (append_assoc buffer chunk (flatten chunks))
