-- ===== src/ConfigPage/Coherent.antt =====
-- What holds of the page between two events: the mirrored draft, and the unsaved-changes flag.
use cyberstalk_me.Base.{◌≡◌, refl, sym, ◌∙◌, not, Text, text_eq, text_eq_refl, arith}
use cyberstalk_me.Api.{Draft, State}
use cyberstalk_me.ConfigPage.{
  Page, Event, loaded, load_failed, edited, timer_fired, put_ok, put_bad, save_pressed, save_ok,
  save_bad, finish_pressed, torn_down, step,
}

module _ (stringify : Draft → Text) where
  -- The rendered draft is the one that edits apply to, and the page says that there are unsaved
  -- changes exactly when that draft reads otherwise than the page's own record of what it last
  -- loaded or marked as saved, which need not be what is on disk.
  pub record IsCoherent (p : Page) : Type 0 where
    pub mirrored : p.draft ≡ p.current
    pub dirty_exact : p.dirty ≡ not (text_eq (stringify p.current) p.persisted)

  -- A page after an event that touches none of the four.
  IsCoherent-same :
      (p after : Page)
      → after.draft ≡ p.draft
      → after.current ≡ p.current
      → after.dirty ≡ p.dirty
      → after.persisted ≡ p.persisted
      → IsCoherent p
      → IsCoherent after
  IsCoherent-same p after d c f s h = record {
    mirrored = d ∙ (h.mirrored ∙ sym c);
    dirty_exact = rw (f, c, s) h.dirty_exact;
  }

  -- A successful load makes the page coherent.
  pub load-IsCoherent : (p : Page) (s : State) → IsCoherent (step stringify p (loaded s))
  unfolding step
  load-IsCoherent p s = record {
    mirrored = refl;
    dirty_exact = rw (text_eq_refl (stringify s.draft)) refl;
  }

  -- Every event keeps the page coherent: the rendered draft is the one that edits apply to, and the
  -- unsaved-changes flag is up exactly when that draft reads otherwise than the page's own record
  -- of what it last loaded or marked as saved, which need not be what is on disk.
  pub step-IsCoherent : (p : Page) (e : Event) → IsCoherent p → IsCoherent (step stringify p e)
  unfolding step
  step-IsCoherent p (loaded s) h = load-IsCoherent p s
  step-IsCoherent p (load_failed cause) h = ground arith
  step-IsCoherent p (edited change) h = ground arith
  step-IsCoherent p timer_fired h = ground arith
  step-IsCoherent p (put_ok i s) h = ground arith
  step-IsCoherent p (put_bad i cause) h = ground arith
  step-IsCoherent p save_pressed h = ground arith
  step-IsCoherent p (save_ok result) h = ground (arith, text_eq_refl (stringify p.current))
  step-IsCoherent p (save_bad cause) h = ground arith
  step-IsCoherent p finish_pressed h = ground (arith, text_eq_refl (stringify p.current))
  step-IsCoherent p torn_down h = ground arith
