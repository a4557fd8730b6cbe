-- ===== src/Agent/Guard/Passes.antt =====
-- Which requests client-windows/internal/setup/guard.go lets through, and which calls of the page.
use cyberstalk_me.Base.{
  ◌≡◌, refl, ap, sym, ◌∙◌, ◌↔◌, ◌⊎◌, inl, inr, Bool, Bool-cases, true, Option-cases, none, some, [],
  ◌∷◌, ◌++◌, Text, codes, text_eq, text_eq_sound, text_eq_refl, is_empty, arith,
}
use cyberstalk_me.Api.{Draft}
use cyberstalk_me.Wire.Json.{Json}
use cyberstalk_me.Client.Frames.{strip_prefix}
use cyberstalk_me.Client.Calls.{
  Call, get_state, put_draft, get_preview, test_pattern, suggest_pattern, save, quit, send,
}
use cyberstalk_me.Agent.Texts.{trim_space}
use cyberstalk_me.Agent.Config.{Library}
use cyberstalk_me.Agent.Guard.{
  Incoming, loopback_hosts, token_allowed, host_allowed, origin_allowed, guard, incoming,
}

strip_prefix-append : (p s : Text) → strip_prefix p (p ++ s) ≡ some s
strip_prefix-append [] s = refl
strip_prefix-append (c ∷ p) s = ground (arith, strip_prefix-append p s)

strip_prefix_sound : (p s v : Text) → strip_prefix p s ≡ some v → s ≡ p ++ v
strip_prefix_sound [] s v h = ground (arith, h)
strip_prefix_sound (c ∷ p) [] v h = absurd (cc)
strip_prefix_sound (c ∷ p) (d ∷ s) v h = ground (arith, strip_prefix_sound p s v)

-- The token passes, written out: the header is `Bearer ` and the token, up to white space.
abbrev pub HasToken : Text → Incoming → Type 0
HasToken token r =
    (value : Text) × (r.authorization ≡ codes "Bearer " ++ value) × (trim_space value ≡ token)

token_allowed_iff :
    (token : Text) (r : Incoming) → (token_allowed token r ≡ true) ↔ HasToken token r
unfolding token_allowed
token_allowed_iff token r = (
  λ h. elim (Option-cases (strip_prefix (codes "Bearer ") r.authorization)) [
    | inl e ↦ absurd (ground (arith, e, h))
    | inr (value, e) ↦ (
      value,
      strip_prefix_sound (codes "Bearer ") r.authorization value e,
      text_eq_sound (trim_space value) token (rw⁻¹ h (rw e refl)),
    )
  ],
  λ (value, header, same).
      ground (arith, header, strip_prefix-append (codes "Bearer ") value, same, text_eq_refl token),
)

is_empty-nil : (s : Text) → is_empty s ≡ true → s ≡ []
is_empty-nil [] h = refl
is_empty-nil (c ∷ s) h = absurd (cc)

module _ (lib : Library) (equal_fold : Text → Text → Bool) (port : Text) where
  -- A host of the agent itself, written out.
  abbrev pub IsLoopback : Text → Type 0
  IsLoopback host =
      (equal_fold host (codes "127.0.0.1:" ++ port) ≡ true)
      ⊎ ((equal_fold host (codes "localhost:" ++ port) ≡ true)
          ⊎ (equal_fold host (codes "[::1]:" ++ port) ≡ true))

  -- Without an origin, or with an origin of the agent itself over http.
  abbrev pub IsOwnOrigin : Text → Type 0
  IsOwnOrigin origin =
      (origin ≡ [])
      ⊎ ((host : Text) × (lib.parse_url origin ≡ some (codes "http", host)) × IsLoopback host)

  host_allowed_iff :
      (host : Text)
      → (host_allowed lib equal_fold (loopback_hosts port) host ≡ true) ↔ IsLoopback host
  host_allowed_iff host = elim (Bool-cases (equal_fold host (codes "127.0.0.1:" ++ port))) [
    | inl e ↦ (λ h. inl e, λ h. ground (arith, e))
    | inr e ↦ elim (Bool-cases (equal_fold host (codes "localhost:" ++ port))) [
      | inl f ↦ (λ h. inr (inl f), λ h. ground (arith, e, f))
      | inr f ↦ (
        λ h. inr (inr (ground (arith, e, f, h))),
        λ h. elim h [
          | inl g ↦ absurd (cc)
          | inr (inl g) ↦ absurd (cc)
          | inr (inr g) ↦ ground (arith, e, f, g)
        ],
      )
    ]
  ]

  origin_allowed_sound :
      (r : Incoming)
      → origin_allowed lib equal_fold (loopback_hosts port) r ≡ true
      → IsLoopback r.host × IsOwnOrigin r.origin
  unfolding origin_allowed
  origin_allowed_sound r h =
      elim (Bool-cases (host_allowed lib equal_fold (loopback_hosts port) r.host)) [
        | inr off ↦ absurd (ground (arith, off, h))
        | inl on ↦ (
          (host_allowed_iff r.host).0 on,
          elim (Bool-cases (is_empty r.origin)) [
            | inl e ↦ inl (is_empty-nil r.origin e)
            | inr e ↦ elim (Option-cases (lib.parse_url r.origin)) [
              | inl bad ↦ absurd (ground (arith, on, e, bad, h))
              | inr ((scheme, host), url) ↦ elim (Bool-cases (text_eq scheme (codes "http"))) [
                | inl web ↦ inr (
                  host,
                  url ∙ ap (λ s. some (s, host)) (text_eq_sound scheme (codes "http") web),
                  (host_allowed_iff host).0 (ground (arith, on, e, url, web, h)),
                )
                | inr other ↦ absurd (ground (arith, on, e, url, other, h))
              ]
            ]
          ],
        )
      ]

  origin_allowed_complete :
      (r : Incoming)
      → IsLoopback r.host
      → IsOwnOrigin r.origin
      → origin_allowed lib equal_fold (loopback_hosts port) r ≡ true
  unfolding origin_allowed
  origin_allowed_complete r own from =
      let on = (host_allowed_iff r.host).1 own in
      elim from [
        | inl none_sent ↦ ground (arith, on, none_sent)
        | inr (host, url, loopback) ↦
            ground (arith, on, url, (host_allowed_iff host).1 loopback, text_eq_refl (codes "http"))
      ]

  -- A request is let through exactly if its host is this computer at the agent's port, by address
  -- or by name, it has no origin or an http origin with such a host, and its header is `Bearer `
  -- with the session's token, up to white space around that.
  pub guard_passes_iff :
      (token : Text) (r : Incoming)
      → (guard lib equal_fold (loopback_hosts port) token r ≡ none)
        ↔ (IsLoopback r.host × IsOwnOrigin r.origin × HasToken token r)
  unfolding guard
  guard_passes_iff token r = (
    λ h. elim (Bool-cases (origin_allowed lib equal_fold (loopback_hosts port) r)) [
      | inr off ↦ absurd (ground (arith, off, h))
      | inl on ↦ elim (Bool-cases (token_allowed token r)) [
        | inr off ↦ absurd (ground (arith, on, off, h))
        | inl known ↦
            let (own, from) = origin_allowed_sound r on in
            (own, from, (token_allowed_iff token r).0 known)
      ]
    ],
    λ (own, from, known).
        ground (arith, origin_allowed_complete r own from, (token_allowed_iff token r).1 known),
  )

send-authorization :
    (stringify_draft : Draft → Text) (stringify : Json → Text) (token : Text) (call : Call)
    → (send stringify_draft stringify token call).authorization ≡ codes "Bearer " ++ token
unfolding send
send-authorization stringify_draft stringify token get_state = refl
send-authorization stringify_draft stringify token (put_draft draft) = refl
send-authorization stringify_draft stringify token get_preview = refl
send-authorization stringify_draft stringify token (test_pattern pattern process) = refl
send-authorization stringify_draft stringify token (suggest_pattern title) = refl
send-authorization stringify_draft stringify token save = refl
send-authorization stringify_draft stringify token quit = refl

-- The token that a header of the page carries is the page's own.
own_token_iff :
    (own token : Text) (r : Incoming)
    → r.authorization ≡ codes "Bearer " ++ own
    → HasToken token r ↔ (trim_space own ≡ token)
own_token_iff own token r header = (
  λ (value, sent, same).
      let read_own = strip_prefix-append (codes "Bearer ") own in
      let read_value = strip_prefix-append (codes "Bearer ") value in
      let alike : some own ≡ some value =
        sym read_own ∙ ap (strip_prefix (codes "Bearer ")) (sym header ∙ sent) ∙ read_value in
      ap trim_space (ap (λ o. elim o [ none ↦ [] | some v ↦ v ]) alike) ∙ same,
  λ same. (own, header, same),
)

module _ (lib : Library) (equal_fold : Text → Text → Bool) (port : Text)
    (stringify_draft : Draft → Text) (stringify : Json → Text) where
  -- A call of the page, whichever it is, is let through exactly if the page was reached at a host
  -- of the agent itself, sends no origin or the agent's own over http, and has the session's token,
  -- up to white space around it.
  pub calls_pass_iff :
      (token own host origin : Text) (call : Call)
      → let r = incoming host origin (send stringify_draft stringify own call) in
        (guard lib equal_fold (loopback_hosts port) token r ≡ none) ↔ (
          IsLoopback lib equal_fold port host
          × IsOwnOrigin lib equal_fold port origin
          × (trim_space own ≡ token))
  calls_pass_iff token own host origin call =
      let r = incoming host origin (send stringify_draft stringify own call) in
      let passes = guard_passes_iff lib equal_fold port token r in
      let known =
        own_token_iff own token r (send-authorization stringify_draft stringify own call) in
      (
        λ h. let (loopback, from, bearer) = passes.0 h in (loopback, from, known.0 bearer),
        λ (loopback, from, same). passes.1 (loopback, from, known.1 same),
      )
