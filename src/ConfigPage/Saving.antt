-- ===== src/ConfigPage/Saving.antt =====
-- The page and the agent that it pushes to: which draft a save writes. The agent is the
-- environment, client-windows/internal/setup/server.go: it holds the last draft that it answered
-- and whose durations it reads, `parses`, and a save writes the draft that it holds.
use cyberstalk_me.Base.{
  ℕ, zero, suc, ◌≡◌, ◌≢◌, refl, ap, sym, ◌∙◌, inl, inr, Bool, true, false, ◌&&◌, Bool-cases,
  Option-cases, Option, none, some, List, [], ◌∷◌, ◌++◌, Text, get_elem?, erase_idx, erase_idx-none,
  if◌then◌else◌, arith,
}
use cyberstalk_me.Api.{Draft, State, SaveResult}
use cyberstalk_me.ConfigPage.{
  Put, Page, Event, loaded, load_failed, edited, timer_fired, put_ok, put_bad, save_pressed,
  save_ok, save_bad, finish_pressed, torn_down, enabled, go_on, flush, after_flush, put_answered,
  press_save, fire_timer, step,
}

pub record Agent : Type 0 where
  pub held : Draft
  pub disk : Draft

-- A draft that does not parse is answered, and the one before it kept.
abbrev pub hold : (Draft → Bool) → Draft → Draft → Draft
hold parses held next = if parses next then next else held

-- What the agent has done by the time the page sees an event.
unfoldable pub serve : (Draft → Bool) → Page → Event → Agent → Agent
serve parses p (loaded s) a = record a { held = s.draft }
serve parses p (put_ok i s) a = elim (get_elem? p.puts i) [
  | none ↦ a
  | some put ↦ record a { held = hold parses a.held put.sent }
]
serve parses p (save_ok result) a =
    if p.writing && result.saved then record a { disk = a.held } else a
serve parses p _ a = a

-- The last draft on its way to the agent, or the one that it holds.
unfoldable pub last_sent : Draft → List Put → Draft
last_sent held [] = held
last_sent held (put ∷ puts) = last_sent put.sent puts

unfoldable pub arriving : Draft → Page → Draft
arriving held p = elim p.pending [ none ↦ last_sent held p.puts | some d ↦ d ]

-- Nothing that was edited is on its way to being lost: the last draft on its way is the one on the
-- page, if the agent reads that one.
abbrev pub Tracked : (Draft → Bool) → Page → Agent → Type 0
Tracked parses p a = parses p.current ≡ true → arriving a.held p ≡ p.current

-- Pushes are answered in their order, and none fails; the page has loaded.
abbrev pub IsOrderly : Event → Type 0
IsOrderly (put_ok zero s) = Unit
IsOrderly (put_ok (suc i) s) = ⊥
IsOrderly (put_bad i cause) = ⊥
IsOrderly (loaded s) = ⊥
IsOrderly _ = Unit

last_sent-append :
    (held : Draft) (puts : List Put) (put : Put) → last_sent held (puts ++ put ∷ []) ≡ put.sent
unfolding last_sent
last_sent-append held [] put = refl
last_sent-append held (q ∷ puts) put = last_sent-append q.sent puts put

arriving-flush :
    (held : Draft) (b : Bool) (p : Page) → arriving held (flush b p).1 ≡ arriving held p
unfolding arriving flush
arriving-flush held b p = elim (Option-cases p.pending) [
  | inl e ↦ ground (arith, e)
  | inr (d, e) ↦ ground (arith, e, last_sent-append held p.puts (record { sent = d; for_save = b }))
]

current-flush : (b : Bool) (p : Page) → (flush b p).1.current ≡ p.current
unfolding flush
current-flush b p = ground arith

-- A page after an event that changes neither what is on its way nor the draft.
Tracked-same :
    (parses : Draft → Bool) (p after : Page) (a : Agent)
    → arriving a.held after ≡ arriving a.held p
    → after.current ≡ p.current
    → Tracked parses p a
    → Tracked parses after a
Tracked-same parses p after a way same h ok = way ∙ h (ap parses (sym same) ∙ ok) ∙ sym same

fire_timer-Tracked :
    (parses : Draft → Bool) (p : Page) (a : Agent)
    → Tracked parses p a
    → Tracked parses (fire_timer p) a
unfolding fire_timer arriving
fire_timer-Tracked parses p a h = elim (Bool-cases p.timer) [
  | inl armed ↦
      rw (fire_timer, armed)
        (Tracked-same parses p (flush false p).1 a (arriving-flush a.held false p)
          (current-flush false p) h)
  | inr idle ↦ rw (fire_timer, idle) h
]

-- The page that `press_save` flushes.
abbrev saving_page : Page → Page
saving_page p = record p { saving = true; save_error = none; saved = none }

go_on-arriving :
    (held : Draft) (b : Bool) (p : Page) → arriving held (go_on (b, p)) ≡ arriving held p
unfolding arriving after_flush
go_on-arriving held true p = refl
go_on-arriving held false p = refl

go_on-current : (b : Bool) (p : Page) → (go_on (b, p)).current ≡ p.current
unfolding after_flush
go_on-current true p = refl
go_on-current false p = refl

press_save-Tracked :
    (parses : Draft → Bool) (p : Page) (a : Agent)
    → Tracked parses p a
    → Tracked parses (press_save p) a
unfolding press_save
press_save-Tracked parses p a h = elim (Bool-cases (enabled p)) [
  | inl on ↦
      let (asked, q) = flush true (saving_page p) in
      rw (press_save, on)
        (Tracked-same parses p (go_on (asked, q)) a
          (go_on-arriving a.held asked q
            ∙ arriving-flush a.held true (saving_page p)
            ∙ unfold arriving in refl)
          (go_on-current asked q ∙ current-flush true (saving_page p)) h)
  | inr off ↦ rw (press_save, off) h
]

pub put_answered-current : (i : ℕ) (s : State) (p : Page) → (put_answered i s p).current ≡ p.current
unfolding put_answered
put_answered-current i s p = ground arith

pub put_answered-pending : (i : ℕ) (s : State) (p : Page) → (put_answered i s p).pending ≡ p.pending
unfolding put_answered
put_answered-pending i s p = ground arith

pub put_answered-puts : (s : State) (p : Page) → (put_answered 0 s p).puts ≡ erase_idx p.puts 0
unfolding put_answered after_flush
put_answered-puts s p = elim (Option-cases (get_elem? p.puts 0)) [
  | inl e ↦ ground (arith, e, erase_idx-none p.puts 0 e)
  | inr (put, e) ↦ ground (arith, e)
]

-- What the agent holds after it has answered the oldest push.
abbrev pub held_after : (Draft → Bool) → Draft → List Put → Draft
held_after parses held puts = elim (get_elem? puts 0) [
  | none ↦ held
  | some put ↦ hold parses held put.sent
]

last_sent-erase_idx :
    (parses : Draft → Bool) (held : Draft) (puts : List Put) (d : Draft)
    → parses d ≡ true
    → last_sent held puts ≡ d
    → last_sent (held_after parses held puts) (erase_idx puts 0) ≡ d
unfolding last_sent
last_sent-erase_idx parses held [] d ok h = h
last_sent-erase_idx parses held (put ∷ []) d ok h =
    let reads : parses put.sent ≡ true = ap parses h ∙ ok in rw reads h
last_sent-erase_idx parses held (put ∷ q ∷ puts) d ok h = h

pub serve-put_ok :
    (parses : Draft → Bool) (p : Page) (s : State) (a : Agent)
    → (serve parses p (put_ok 0 s) a).held ≡ held_after parses a.held p.puts
unfolding serve
serve-put_ok parses p s a = ground arith

put_answered-Tracked :
    (parses : Draft → Bool) (p : Page) (a : Agent) (s : State)
    → Tracked parses p a
    → Tracked parses (put_answered 0 s p) (serve parses p (put_ok 0 s) a)
unfolding arriving
put_answered-Tracked parses p a s h ok =
    let same = put_answered-current 0 s p in
    let ok_before = ap parses (sym same) ∙ ok in
    elim (Option-cases p.pending) [
      | inl none_waits ↦
          let way : last_sent a.held p.puts ≡ p.current = ground (arith, h ok_before, none_waits) in
          ground (
            arith,
            none_waits,
            same,
            put_answered-pending 0 s p,
            put_answered-puts s p,
            serve-put_ok parses p s a,
            last_sent-erase_idx parses a.held p.puts p.current ok_before way,
          )
      | inr (d, waits) ↦ ground (arith, waits, same, h ok_before, put_answered-pending 0 s p)
    ]

module _ (stringify : Draft → Text) (parses : Draft → Bool) where
  -- Under orderly answers every event keeps the agent on the way to the draft on the page.
  pub step-Tracked :
      (p : Page) (a : Agent) (e : Event)
      → IsOrderly e
      → Tracked parses p a
      → Tracked parses (step stringify p e) (serve parses p e a)
  unfolding step serve arriving
  step-Tracked p a (loaded s) o h = absurd o
  step-Tracked p a (load_failed cause) o h = h
  step-Tracked p a (edited change) o h = λ ok. refl
  step-Tracked p a timer_fired o h = fire_timer-Tracked parses p a h
  step-Tracked p a (put_ok zero s) o h = put_answered-Tracked parses p a s h
  step-Tracked p a (put_ok (suc i) s) o h = absurd o
  step-Tracked p a (put_bad i cause) o h = absurd o
  step-Tracked p a save_pressed o h = press_save-Tracked parses p a h
  step-Tracked p a (save_ok result) o h =
      Tracked-same parses p (step stringify p (save_ok result)) (serve parses p (save_ok result) a)
        (elim (Bool-cases (p.writing && result.saved)) [
          | inl writes ↦ ground (arith, writes)
          | inr keeps ↦ ground (arith, keeps)
        ])
        (ground arith)
        (elim (Bool-cases (p.writing && result.saved)) [
          | inl writes ↦ λ ok. ground (arith, writes, h ok)
          | inr keeps ↦ λ ok. ground (arith, keeps, h ok)
        ])
  step-Tracked p a (save_bad cause) o h =
      Tracked-same parses p (step stringify p (save_bad cause)) a (ground arith) (ground arith) h
  step-Tracked p a finish_pressed o h =
      Tracked-same parses p (step stringify p finish_pressed) a (ground arith) (ground arith) h
  step-Tracked p a torn_down o h = h

  -- A sequence of events, seen by the page and the agent.
  unfoldable pub run : Page × Agent → List Event → Page × Agent
  run w [] = w
  run (p, a) (e ∷ events) = run (step stringify p e, serve parses p e a) events

  -- A save of a draft whose durations the agent reads, with nothing else in flight, answered without a failure, writes the draft on the page,
  -- an edit still waiting in the debounce included; then nothing is marked unsaved.
  pub save_writes_current :
      (p : Page) (a : Agent) (s : State) (result : SaveResult)
      → Tracked parses p a
      → parses p.current ≡ true
      → p.puts ≡ []
      → enabled p ≡ true
      → s.valid ≡ true
      → result.saved ≡ true
      → let (after, agent) = run (p, a) (save_pressed ∷ put_ok 0 s ∷ save_ok result ∷ []) in
        (agent.disk ≡ p.current)
        × (after.current ≡ p.current)
        × (after.dirty ≡ false)
        × (after.saving ≡ false)
  unfolding run step serve arriving last_sent
  save_writes_current p a s result h reads idle on valid saved = ground (arith, h reads)

  -- When the push that a save makes first fails, the save goes on: the agent writes the draft that
  -- it held before, and the page says that nothing is unsaved.
  pub failed_push_is_marked_saved :
      (p : Page) (a : Agent) (cause : Option Text) (result : SaveResult) {d : Draft}
      → p.puts ≡ []
      → p.pending ≡ some d
      → enabled p ≡ true
      → result.saved ≡ true
      → let (after, agent) = run (p, a) (save_pressed ∷ put_bad 0 cause ∷ save_ok result ∷ []) in
        (agent.disk ≡ a.held) × (after.current ≡ p.current) × (after.dirty ≡ false)
  unfolding run step serve
  failed_push_is_marked_saved p a cause result idle waiting on saved = ground arith

  -- When the push of the draft on the page fails after a further edit that changes it, the older
  -- draft takes the place of the newer one: the next push sends the older one, and the agent, which
  -- reads its durations, ends with a draft that is not the one on the page, with nothing waiting.
  pub retry_sends_older_draft :
      (p : Page) (a : Agent) (cause : Option Text) (s : State) (change : Draft → Draft)
      → p.puts ≡ []
      → p.pending ≡ some p.current
      → p.timer ≡ true
      → parses p.current ≡ true
      → change p.current ≢ p.current
      → let (after, agent) =
          run
            (p, a)
            (timer_fired ∷ edited change ∷ put_bad 0 cause ∷ timer_fired ∷ put_ok 0 s ∷ []) in
        (agent.held ≡ p.current)
        × (after.current ≡ change p.current)
        × (agent.held ≢ after.current)
        × (after.pending ≡ none)
        × (after.puts ≡ [])
  unfolding run step serve
  retry_sends_older_draft p a cause s change idle waiting armed reads differs =
      let events = timer_fired ∷ edited change ∷ put_bad 0 cause ∷ timer_fired ∷ put_ok 0 s ∷ [] in
      let (after, agent) = run (p, a) events in
      let older : agent.held ≡ p.current = ground arith in
      let newer : after.current ≡ change p.current = ground arith in
      (older, newer, (λ same. differs (sym newer ∙ sym same ∙ older)), ground arith, ground arith)
