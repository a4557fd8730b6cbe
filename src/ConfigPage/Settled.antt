-- ===== src/ConfigPage/Settled.antt =====
-- What becomes of the edits in the end: they reach the agent as long as the page is open.
use cyberstalk_me.Base.{
  ℕ, zero, suc, ◌+◌, ◌≡◌, refl, ◌⊎◌, inl, inr, Bool, true, false, Bool-cases, Option-cases, none,
  some, List, [], ◌∷◌, Text, All, length, arith,
}
use cyberstalk_me.Api.{Draft, State}
use cyberstalk_me.ConfigPage.{
  Page, Event, loaded, load_failed, edited, timer_fired, put_ok, put_bad, save_pressed, save_ok,
  save_bad, finish_pressed, torn_down, enabled, flush, after_flush, put_answered, press_save,
  fire_timer, save_answered, press_finish, mark_saved, step,
}
use cyberstalk_me.ConfigPage.Saving.{
  Agent, serve, last_sent, arriving, Tracked, IsOrderly, step-Tracked, run,
}

-- A waiting edit has its timer set.
abbrev pub IsArmed : Page → Type 0
IsArmed p = (p.pending ≡ none) ⊎ (p.timer ≡ true)

-- The events of an open page, under orderly answers.
abbrev pub is_teardown : Event → Bool
is_teardown torn_down = true
is_teardown _ = false

abbrev pub IsOpen : Event → Type 0
IsOpen e = IsOrderly e × (is_teardown e ≡ false)

-- The pushes that are still to be answered, that of a waiting edit included.
abbrev pub outstanding : Page → ℕ
outstanding p = length p.puts + elim p.pending [ none ↦ 0 | some _ ↦ 1 ]

flush-sent : (b : Bool) (p : Page) → (flush b p).1.pending ≡ none
unfolding flush
flush-sent b p = elim (Option-cases p.pending) [
  | inl e ↦ ground (arith, e)
  | inr (d, e) ↦ ground (arith, e)
]

-- A page after an event that touches neither the waiting edit nor the timer.
IsArmed-same :
    (p after : Page) → after.pending ≡ p.pending → after.timer ≡ p.timer → IsArmed p → IsArmed after
IsArmed-same p after d t h = rw (d, t) h

press_save-IsArmed : (p : Page) → IsArmed p → IsArmed (press_save p)
unfolding press_save after_flush flush
press_save-IsArmed p h = elim (Bool-cases (enabled p)) [
  | inl on ↦ inl (elim (Option-cases p.pending) [
    | inl e ↦ ground (arith, on, e)
    | inr (d, e) ↦ ground (arith, on, e)
  ])
  | inr off ↦ rw off h
]

module _ (stringify : Draft → Text) where
  step-IsArmed : (p : Page) (e : Event) → IsOpen e → IsArmed p → IsArmed (step stringify p e)
  unfolding step fire_timer put_answered after_flush save_answered press_finish mark_saved
  step-IsArmed p (loaded s) o h = absurd (o.0)
  step-IsArmed p (load_failed cause) o h = h
  step-IsArmed p (edited change) o h = inr refl
  step-IsArmed p timer_fired o h = elim (Bool-cases p.timer) [
    | inl on ↦ rw on (inl (flush-sent false p))
    | inr off ↦ IsArmed-same p (fire_timer p) (ground (arith, off)) (ground (arith, off)) h
  ]
  step-IsArmed p (put_ok zero s) o h =
      IsArmed-same p (put_answered 0 s p) (ground arith) (ground arith) h
  step-IsArmed p (put_ok (suc i) s) o h = absurd (o.0)
  step-IsArmed p (put_bad i cause) o h = absurd (o.0)
  step-IsArmed p save_pressed o h = press_save-IsArmed p h
  step-IsArmed p (save_ok result) o h =
      IsArmed-same p (save_answered stringify result p) (ground arith) (ground arith) h
  step-IsArmed p (save_bad cause) o h =
      IsArmed-same p (step stringify p (save_bad cause)) (ground arith) (ground arith) h
  step-IsArmed p finish_pressed o h =
      IsArmed-same p (step stringify p finish_pressed) (ground arith) (ground arith) h
  step-IsArmed p torn_down o h = absurd (cc (o.1))

module _ (stringify : Draft → Text) (parses : Draft → Bool) where
  -- The invariants of a run on an open page.
  run-Tracked :
      (es : List Event) (p : Page) (a : Agent)
      → All IsOpen es
      → Tracked parses p a
      → IsArmed p
      → Tracked parses (run stringify parses (p, a) es).0 (run stringify parses (p, a) es).1
        × IsArmed (run stringify parses (p, a) es).0
  unfolding run
  run-Tracked [] p a o h w = (h, w)
  run-Tracked (e ∷ es) p a o h w =
      run-Tracked es (step stringify p e) (serve parses p e a) o.1
        (step-Tracked stringify parses p a e o.0.0 h) (step-IsArmed stringify p e o.0 w)

  -- Once the state has loaded, with no edit waiting and no push in flight, whatever happens on the
  -- open page, with the answers in order and without failures: the last draft on its way to the
  -- agent is the one on the page, if the agent reads its durations, and an edit that waits to be
  -- sent has its timer set.
  pub loaded_run-Tracked :
      (es : List Event) (p : Page) (a : Agent) (s : State)
      → p.pending ≡ none
      → p.puts ≡ []
      → All IsOpen es
      → let (q, b) = run stringify parses (p, a) (loaded s ∷ es) in Tracked parses q b × IsArmed q
  unfolding run step serve
  loaded_run-Tracked es p a s sent idle o =
      run-Tracked es (step stringify p (loaded s)) (serve parses p (loaded s) a) o
        (λ reads. unfold arriving last_sent in ground (arith, sent, idle)) (inl sent)
