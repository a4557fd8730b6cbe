-- ===== src/Agent/Catalog/Streamed.antt =====
-- `handleCatalog`, and the stream all the way to the page.
use mathlib.Core.List.{flatten}
use cyberstalk_me.Base.{
  ℕ, ◌+◌, ◌≤◌, ◌≡◌, refl, ap, sym, ◌∙◌, inl, inr, true, false, Bool-cases, Option, none, some, List,
  [], ◌∷◌, ◌++◌, Text, is_empty, all, All, map, ◌==◌, if◌then◌else◌, arith,
}
use cyberstalk_me.Api.{CatalogSnapshot}
use cyberstalk_me.Client.Frames.{split_frame, read_all}
use cyberstalk_me.Client.Delivery.{is_line, sent, snapshots}
use cyberstalk_me.Discovery.{delivered, mounted}
use cyberstalk_me.Discovery.Followed.{after, last_or, last_snapshot_shown}
use cyberstalk_me.Agent.Catalog.{Catalog, Slices, observe, snapshot}

-- One open stream: the catalog beside it, the count that was sent last, and what was sent.
pub record Feed : Type 0 where
  pub catalog : Catalog
  pub seen : ℕ
  pub out : List CatalogSnapshot

-- What happens while it is open: a reading of the foreground, or a tick of its timer.
pub data Happening : Type 0 where
  observed : Text → Text → ℕ → Happening
  ticked : Happening

module _ (slices : Slices) (stamp : ℕ → Text) where
  unfoldable pub open_feed : Catalog → Feed
  unfolding snapshot
  open_feed c = record { catalog = c; seen = c.observations; out = snapshot slices stamp c ∷ [] }

  unfoldable pub on_tick : Feed → Feed
  unfolding snapshot
  on_tick f = if f.catalog.observations == f.seen then f else record f {
    seen = f.catalog.observations;
    out = f.out ++ snapshot slices stamp f.catalog ∷ [];
  }

  unfoldable pub feed_step : Feed → Happening → Feed
  unfolding observe on_tick
  feed_step f (observed process title now) = record f {
    catalog = observe slices process title now f.catalog;
  }
  feed_step f ticked = on_tick f

  unfoldable pub run_feed : Feed → List Happening → Feed
  unfolding feed_step
  run_feed f [] = f
  run_feed f (h ∷ hs) = run_feed (feed_step f h) hs

  -- No more was sent than was observed, and if as much, the last snapshot is of the catalog.
  record IsFollowing (f : Feed) : Type 0 where
    behind : f.seen ≤ f.catalog.observations
    fresh :
        f.seen ≡ f.catalog.observations
        → last_or none f.out ≡ some (snapshot slices stamp f.catalog)

  observe-observations :
      (process title : Text) (now : ℕ) (c : Catalog)
      → (observe slices process title now c).observations ≡ c.observations + 1
  unfolding observe
  observe-observations process title now c = ground arith

  last_or-append :
      (o : Option CatalogSnapshot) (ss : List CatalogSnapshot) (s : CatalogSnapshot)
      → last_or o (ss ++ s ∷ []) ≡ some s
  last_or-append o [] s = refl
  last_or-append o (x ∷ ss) s = last_or-append (some x) ss s

  -- A tick leaves the last snapshot that of the catalog.
  on_tick-fresh :
      (f : Feed)
      → IsFollowing f
      → (last_or none (on_tick f).out ≡ some (snapshot slices stamp f.catalog))
        × ((on_tick f).catalog ≡ f.catalog)
        × ((on_tick f).seen ≡ f.catalog.observations)
  unfolding on_tick
  on_tick-fresh f h = elim (Bool-cases (f.catalog.observations == f.seen)) [
    | inl e ↦
        let same : f.seen ≡ f.catalog.observations = ground (arith, e) in
        rw e (h.fresh same, refl, same)
    | inr e ↦ rw e (last_or-append none f.out (snapshot slices stamp f.catalog), refl, refl)
  ]

  step-IsFollowing : (f : Feed) (h : Happening) → IsFollowing f → IsFollowing (feed_step f h)
  unfolding feed_step
  step-IsFollowing f (observed process title now) h =
      let more = observe-observations process title now f.catalog in
      record {
        behind = ground (arith, more, h.behind);
        fresh = λ e. absurd (ground (arith, more, h.behind, e));
      }
  step-IsFollowing f ticked h =
      let (last, same, seen) = on_tick-fresh f h in
      record {
        behind = omega (arith, seen ∙ ap (λ (c : Catalog). c.observations) (sym same));
        fresh = λ e. last ∙ ap (λ c. some (snapshot slices stamp c)) (sym same);
      }

  run-IsFollowing : (f : Feed) (hs : List Happening) → IsFollowing f → IsFollowing (run_feed f hs)
  unfolding run_feed
  run-IsFollowing f [] h = h
  run-IsFollowing f (x ∷ hs) h = run-IsFollowing (feed_step f x) hs (step-IsFollowing f x h)

  open-IsFollowing : (c : Catalog) → IsFollowing (open_feed c)
  unfolding open_feed
  open-IsFollowing c = record { behind = ground arith; fresh = λ e. refl }

  module _ (encode : CatalogSnapshot → Text) (parse : Text → Option CatalogSnapshot) where
    -- The JSON of a snapshot, one line that reads back as the snapshot.
    abbrev pub IsSendable : CatalogSnapshot → Type 0
    IsSendable s =
        (parse (encode s) ≡ some s) × (is_line (encode s) ≡ true) × (is_empty (encode s) ≡ false)

    all-is_line :
        (ss : List CatalogSnapshot) → All IsSendable ss → all is_line (map encode ss) ≡ true
    all-is_line [] h = refl
    all-is_line (s ∷ ss) ((read, line, filled), rest) = ground (arith, line, all-is_line ss rest)

    read_back :
        (ss : List CatalogSnapshot) → All IsSendable ss → snapshots parse (map encode ss) ≡ ss
    read_back [] h = refl
    read_back (s ∷ ss) ((read, line, filled), rest) =
        rw (filled, read) (ap (s ∷◌) (read_back ss rest))

    -- Whatever the agent has observed while the stream is open, and however the stream is cut into
    -- chunks: once the timer has ticked and all has arrived, the page shows the snapshot of the
    -- agent's catalog, if the JSON of each snapshot is one line and reads back as it.
    pub catalog_reaches_page :
        (c : Catalog) (hs : List Happening) (chunks : List Text)
        → All IsSendable (on_tick (run_feed (open_feed c) hs)).out
        → flatten chunks ≡ sent (map encode (on_tick (run_feed (open_feed c) hs)).out) []
        → (after (map delivered (read_all parse [] chunks).0) mounted).snapshot
          ≡ some (snapshot slices stamp (run_feed (open_feed c) hs).catalog)
    unfolding split_frame
    catalog_reaches_page c hs chunks sendable cut =
        let f = run_feed (open_feed c) hs in
        last_snapshot_shown parse (map encode (on_tick f).out) chunks []
          (all-is_line (on_tick f).out sendable) refl cut
        ∙ ap (last_or none) (read_back (on_tick f).out sendable)
        ∙ (on_tick-fresh f (run-IsFollowing (open_feed c) hs (open-IsFollowing c))).0
