-- ===== src/Discovery/Followed.antt =====
-- The catalog stream all the way to the page: `streamCatalog` of client-windows/webui/src/lib/api.ts
-- under client-windows/webui/src/hooks/useCatalog.ts.
use mathlib.Core.List.{flatten}
use cyberstalk_me.Base.{
  ◌≡◌, refl, ap, ◌∙◌, true, false, Option, none, some, List, [], ◌∷◌, Text, all, map, arith,
}
use cyberstalk_me.Api.{CatalogSnapshot}
use cyberstalk_me.Client.Frames.{split_frame, read_all}
use cyberstalk_me.Client.Delivery.{is_line, sent, snapshots, read_all-sent}
use cyberstalk_me.Discovery.{Catalog, Event, delivered, step, mounted}

-- The hook over a stretch of the stream.
abbrev pub after : List Event → Catalog → Catalog
after [] c = c
after (e ∷ es) c = after es (step e c)

-- The last element, and what stands in without one.
abbrev pub last_or : Option CatalogSnapshot → List CatalogSnapshot → Option CatalogSnapshot
last_or o [] = o
last_or o (s ∷ ss) = last_or (some s) ss

after-delivered :
    (ss : List CatalogSnapshot) (c : Catalog)
    → c.aborted ≡ false
    → (after (map delivered ss) c).snapshot ≡ last_or c.snapshot ss
unfolding step
after-delivered [] c live = refl
after-delivered (s ∷ ss) c live =
    after-delivered ss (step (delivered s) c) (ground (arith, live))
    ∙ ap (λ o. last_or o ss) (ground (arith, live))

-- However the stream is cut into chunks: the page holds the last of the snapshots that were sent whole
-- and parse, or none if there is none.
pub last_snapshot_shown :
    (parse : Text → Option CatalogSnapshot) (payloads chunks : List Text) (partial : Text)
    → all is_line payloads ≡ true
    → split_frame partial ≡ none
    → flatten chunks ≡ sent payloads partial
    → (after (map delivered (read_all parse [] chunks).0) mounted).snapshot
      ≡ last_or none (snapshots parse payloads)
last_snapshot_shown parse payloads chunks partial h e cut =
    ap (λ out. (after (map delivered out.0) mounted).snapshot)
      (read_all-sent parse payloads chunks partial h e cut)
    ∙ after-delivered (snapshots parse payloads) mounted refl
