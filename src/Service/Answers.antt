-- ===== src/Service/Answers.antt =====
-- What `process` answers for an id that has a session.
use privy_gate.Common.{
  ◌≤◌, ◌<◌, ◌≡◌, refl, sym, ap, ◌∙◌, true, false, inl, inr, none, some, Text, arith, lt→leb, le→ltb,
  text_eq, text_eq_iff, utf8_length, Bool-cases, if◌then◌else◌,
}
use privy_gate.Common.Dict
use privy_gate.Errors.{Outcome, ok, raise}
use privy_gate.Store.{
  Config, Store, ProcessSession, PendingResult, Future, read_time, tick, create_future, next_future,
  result,
}
use privy_gate.Store.Evict.{is_expired}
use privy_gate.Store.Sessions.{get_or_create_pending, join_session, get, touch}
use privy_gate.Store.Admission.{get_or_create_pending-session}
use privy_gate.Service.{
  ServiceConfig, Service, finished, estimate_tokens, payload_conflict, is_payload, resolve_existing,
  await_pending, joined, start,
}

-- The session has not expired at the next two readings of the clock.
pub record IsLive (c : Config) (session : ProcessSession) (s : Store) : Type 0 where
  pub now : read_time c s < session.expires_at
  pub soon : read_time c (tick s) < session.expires_at

-- The payload is within the two limits.
pub record Fits (c : ServiceConfig) (payload : Text) : Type 0 where
  pub bytes : utf8_length payload ≤ c.max_payload_bytes
  pub tokens : estimate_tokens payload ≤ c.max_estimated_tokens

module _ (c : Config) where
  join_session-live :
      (id : Text) (session : ProcessSession) (s : Store)
      → read_time c s < session.expires_at
      → join_session c id session s ≡ (
        ok (record { is_new = false; conflict = false; future = next_future s }),
        create_future (result session.masked) (tick s),
      )
  unfolding join_session is_expired
  join_session-live id session s live = rw (lt→leb session.expires_at (read_time c s) live) refl

  get-live :
      (id : Text) (session : ProcessSession) (s : Store)
      → Dict.get id s.sessions ≡ some session
      → read_time c s < session.expires_at
      → (get c id s).0 ≡ some (touch c session s)
  unfolding get is_expired
  get-live id session s there live =
      rw (there, get) (rw (lt→leb session.expires_at (read_time c s) live) refl)

module _ (c : ServiceConfig) where
  -- The answer for a session depends on the fingerprint, and on nothing else.
  abbrev pub answer : ProcessSession → Text → Outcome Text
  answer session payload =
      if is_payload c session.original (c.sha256 payload) (utf8_length payload)
      then ok session.masked
      else if is_payload c session.masked (c.sha256 payload) (utf8_length payload)
      then ok session.original
      else raise payload_conflict

  resolve_existing-answer :
      (session : ProcessSession) (payload id : Text) (s : Service)
      → (resolve_existing c session (c.sha256 payload) (utf8_length payload) id s).0
        ≡ answer session payload
  unfolding resolve_existing
  resolve_existing-answer session payload id s = ground arith

  start-joined :
      (payload id : Text) (s : Service)
      → Fits c payload
      → let r : Outcome PendingResult × Store =
          get_or_create_pending c.store_config id
            (utf8_length payload)
            (c.sha256 payload)
            s.store in
        start c payload id s ≡ joined c payload id r.0 (record s { store = r.1 })
  unfolding start
  start-joined payload id s fits = rw (le→ltb _ _ fits.bytes, le→ltb _ _ fits.tokens) refl

  await_pending-live :
      (id payload : Text) (future : Future) (s : Service) {session : ProcessSession}
      → Dict.get id s.store.sessions ≡ some session
      → read_time c.store_config s.store < session.expires_at
      → (await_pending c id future (c.sha256 payload) (utf8_length payload) s).0
        ≡ finished (answer session payload)
  unfolding await_pending touch
  await_pending-live id payload future s {session} there live =
      rw (get-live c.store_config id session s.store there live, await_pending)
        (ap finished (
          resolve_existing-answer (touch c.store_config session s.store) payload id
            (record s { store = (get c.store_config id s.store).1 })))

  pub start-answer :
      (payload id : Text) (s : Service) {session : ProcessSession}
      → Dict.get id s.store.pending ≡ none
      → Dict.get id s.store.sessions ≡ some session
      → IsLive c.store_config session s.store
      → Fits c payload
      → (start c payload id s).0 ≡ finished (answer session payload)
  unfolding joined
  start-answer payload id s {session} free there live fits =
      ap (λ r. r.0) (start-joined payload id s fits)
      ∙ ap
          (λ (r : Outcome PendingResult × Store).
            (joined c payload id r.0 (record s { store = r.1 })).0)
          (get_or_create_pending-session c.store_config id _ _ s.store free there
            ∙ join_session-live c.store_config id session s.store live.now)
      ∙ await_pending-live id payload (next_future s.store)
          (record s { store = create_future (result session.masked) (tick s.store) }) there
          live.soon

  is_payload_self : (text : Text) → is_payload c text (c.sha256 text) (utf8_length text) ≡ true
  unfolding is_payload
  is_payload_self text = ground (arith, text_eq_iff (c.sha256 text) (c.sha256 text))

  -- SHA-256 tells the payload from another text.
  abbrev pub Distinct : Text → Text → Type 0
  Distinct payload text = c.sha256 payload ≡ c.sha256 text → payload ≡ text

  is_payload-text_eq :
      (payload text : Text)
      → Distinct payload text
      → is_payload c text (c.sha256 payload) (utf8_length payload) ≡ text_eq payload text
  unfolding is_payload
  is_payload-text_eq payload text distinct = elim (Bool-cases (text_eq payload text)) [
    | inl same ↦
        let e = (text_eq_iff payload text).0 same in
        rw e (is_payload_self text ∙ sym ((text_eq_iff text text).1 refl))
    | inr differs ↦ elim (Bool-cases (text_eq (c.sha256 payload) (c.sha256 text))) [
      | inl collide ↦
          let e = distinct ((text_eq_iff (c.sha256 payload) (c.sha256 text)).0 collide) in
          let same = (text_eq_iff payload text).1 e in absurd (ground arith)
      | inr apart ↦ ground arith
    ]
  ]

-- What is promised for a session: the masked text for the original, the original for the masked
-- text, and a conflict for anything else.
unfoldable pub reply : ProcessSession → Text → Outcome Text
reply session payload =
    if text_eq payload session.original
    then ok session.masked
    else if text_eq payload session.masked
    then ok session.original
    else raise payload_conflict

module _ (c : ServiceConfig) where
  answer-reply :
      (session : ProcessSession) (payload : Text)
      → Distinct c payload session.original
      → Distinct c payload session.masked
      → answer c session payload ≡ reply session payload
  unfolding reply
  answer-reply session payload d e =
      rw
        (
          is_payload-text_eq c payload session.original d,
          is_payload-text_eq c payload session.masked e,
        )
        refl

  -- For an id that has a session and no reservation, where the session has not expired at the next
  -- two readings of the clock, the payload is within the limits and SHA-256 tells it from the two
  -- texts of the session, `process` answers without waiting: the original gets the masked text,
  -- the masked text gets the original, and anything else a conflict.
  pub start-reply :
      (payload id : Text) (s : Service) {session : ProcessSession}
      → Dict.get id s.store.pending ≡ none
      → Dict.get id s.store.sessions ≡ some session
      → IsLive c.store_config session s.store
      → Fits c payload
      → Distinct c payload session.original
      → Distinct c payload session.masked
      → (start c payload id s).0 ≡ finished (reply session payload)
  start-reply payload id s {session} free there live fits d e =
      start-answer c payload id s free there live fits
      ∙ ap finished (answer-reply session payload d e)
