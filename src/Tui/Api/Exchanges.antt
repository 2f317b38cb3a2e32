-- ===== src/Tui/Api/Exchanges.antt =====
-- What `requestRaw` of clients/tui/src/api/client.ts sends, and the tokens that it leaves.
use rag_chat_cli.Prelude.{
  ℕ, Bool, true, false, ◌&&◌, [], ◌∷◌, ◌++◌, Option, none, some, is_some, ◌≡◌, refl, sym, subst,
  ◌∙◌, inl, inr, arith, append_assoc, Bool-cases, Option-cases,
}
use rag_chat_cli.Text.{Text}
use rag_chat_cli.Tui.Api.{
  TokenPair, StoredTokens, Init, Request, Reply, response, network_error, ErrorBody, Result,
  Response, World, stored, save_tokens, clear_tokens, is_ok, request_for, refresh_request, fetch,
  conclude, refreshed, try_refresh, is_unauthorized, request_again, after_refresh, request_raw,
}

module _ {S Json : Type 0} (serve : Request → S → Reply × S) (json_parse : Text → Option Json)
    (pair_of : Json → TokenPair) (error_body_of : Json → ErrorBody) where
  abbrev pub answer_to : Init → World S → Reply
  answer_to init w = (serve (request_for init w) w.server).0

  abbrev pub asked : Init → World S → World S
  asked init w = (fetch serve json_parse pair_of error_body_of (request_for init w) w).1

  -- Whether a refresh succeeds and the tokens that it leaves, by its reply: the old ones where there is
  -- no reply or one of success that does not parse, none where the status is not one of success, and
  -- the pair of the answer with the email that was kept.
  pub data Renewed (t : StoredTokens) : Reply → Bool → Option StoredTokens → Type 0 where
    unreachable : (message : Text) → Renewed t (network_error message) false (some t)
    unreadable :
        (status : ℕ) (text body : Text)
        → is_ok status ≡ true
        → json_parse body ≡ none
        → Renewed t (response status text body) false (some t)
    refused :
        (status : ℕ) (text body : Text)
        → is_ok status ≡ false
        → Renewed t (response status text body) false none
    renewed :
        (status : ℕ) (text body : Text) (json : Json)
        → is_ok status ≡ true
        → json_parse body ≡ some json
        → Renewed t (response status text body) true (some (stored (pair_of json) t.email))

  Renewed-json :
      {t : StoredTokens} {r : Reply} {ts : Option StoredTokens}
      → Renewed t r true ts
      → (json : Json) × (ts ≡ some (stored (pair_of json) t.email))
  Renewed-json (renewed status text body json ok good) = (json, refl)

  refreshed-Renewed :
      (t : StoredTokens) (r : Reply) (w : World S)
      → w.tokens ≡ some t
      → Renewed t r
          (refreshed serve json_parse pair_of error_body_of t r w).0
          (refreshed serve json_parse pair_of error_body_of t r w).1.tokens
  unfolding refreshed save_tokens clear_tokens
  refreshed-Renewed t (network_error message) w e = rw e (unreachable message)
  refreshed-Renewed t (response status text body) w e = elim (Bool-cases (is_ok status)) [
    | inl ok ↦ elim (Option-cases (json_parse body)) [
      | inl bad ↦ rw (ok, bad) (rw e (unreadable status text body ok bad))
      | inr (json, good) ↦ rw (ok, good) (renewed status text body json ok good)
    ]
    | inr bad ↦ rw bad (refused status text body bad)
  ]

  refreshed-server :
      (t : StoredTokens) (r : Reply) (w : World S)
      → (refreshed serve json_parse pair_of error_body_of t r w).1.server ≡ w.server
  unfolding refreshed save_tokens clear_tokens
  refreshed-server t (network_error message) w = refl
  refreshed-server t (response status text body) w = elim (Bool-cases (is_ok status)) [
    | inl ok ↦ elim (Option-cases (json_parse body)) [
      | inl bad ↦ rw (ok, bad) refl
      | inr (json, good) ↦ rw (ok, good) refl
    ]
    | inr bad ↦ rw bad refl
  ]

  refreshed-sent :
      (t : StoredTokens) (r : Reply) (w : World S)
      → (refreshed serve json_parse pair_of error_body_of t r w).1.sent ≡ w.sent
  unfolding refreshed save_tokens clear_tokens
  refreshed-sent t (network_error message) w = refl
  refreshed-sent t (response status text body) w = elim (Bool-cases (is_ok status)) [
    | inl ok ↦ elim (Option-cases (json_parse body)) [
      | inl bad ↦ rw (ok, bad) refl
      | inr (json, good) ↦ rw (ok, good) refl
    ]
    | inr bad ↦ rw bad refl
  ]

  -- The reply asks for a refresh, and the client can ask for one.
  abbrev pub wants_refresh : Init → World S → Bool
  wants_refresh init w =
      is_unauthorized serve json_parse pair_of error_body_of (answer_to init w)
      && (init.authed && is_some w.tokens)

  abbrev pub concluded : Init → World S → Result Response
  concluded init w = conclude serve json_parse pair_of error_body_of (answer_to init w)

  -- The reply to a refresh behind the reply to the request, and the server behind it.
  abbrev pub refresh_answer : Init → World S → StoredTokens → Reply × S
  refresh_answer init w t = serve (refresh_request t) (asked init w).server

  -- The request with the pair of a refresh, and the reply to it behind that refresh.
  abbrev pub retry_request : Init → World S → StoredTokens → Json → Request
  retry_request init w t json =
      request_for init (record w { tokens = some (stored (pair_of json) t.email) })

  abbrev pub retry_reply : Init → World S → StoredTokens → Json → Reply
  retry_reply init w t json = (serve (retry_request init w t json) (refresh_answer init w t).1).0

  -- What a request sends, with what it returns and the tokens that it leaves: itself; itself and a
  -- refresh with the refresh token kept, which fails; or itself, that refresh, whose reply brings a
  -- pair, and itself again with the token of that pair.
  pub data Exchange (init : Init) (w : World S) : Result Response → World S → Type 0 where
    once :
        (w' : World S)
        → wants_refresh init w ≡ false
        → w'.sent ≡ w.sent ++ (request_for init w ∷ [])
        → w'.tokens ≡ w.tokens
        → Exchange init w (concluded init w) w'
    in_vain :
        (t : StoredTokens) (w' : World S)
        → wants_refresh init w ≡ true
        → w.tokens ≡ some t
        → w'.sent ≡ w.sent ++ (request_for init w ∷ refresh_request t ∷ [])
        → Renewed t (refresh_answer init w t).0 false w'.tokens
        → Exchange init w (concluded init w) w'
    retried :
        (t : StoredTokens) (json : Json) (w' : World S)
        → wants_refresh init w ≡ true
        → w.tokens ≡ some t
        → Renewed t (refresh_answer init w t).0 true (some (stored (pair_of json) t.email))
        → w'.sent
          ≡ w.sent ++ (request_for init w ∷ refresh_request t ∷ retry_request init w t json ∷ [])
        → w'.tokens ≡ some (stored (pair_of json) t.email)
        → Exchange init w
            (conclude serve json_parse pair_of error_body_of (retry_reply init w t json))
            w'

  after_refresh-Exchange :
      (init : Init) (w w2 : World S) (t : StoredTokens) (again : Bool) (ts : Option StoredTokens)
      → w2.tokens ≡ ts
      → wants_refresh init w ≡ true
      → w.tokens ≡ some t
      → w2.sent ≡ w.sent ++ (request_for init w ∷ refresh_request t ∷ [])
      → w2.server ≡ (refresh_answer init w t).1
      → Renewed t (refresh_answer init w t).0 again ts
      → let r =
          after_refresh serve json_parse pair_of error_body_of init
            (answer_to init w)
            (again, w2) in
        Exchange init w r.0 r.1
  unfolding after_refresh request_again fetch
  after_refresh-Exchange init w w2 t false ts q u e s v h = in_vain t w2 u e s (rw q h)
  after_refresh-Exchange init w w2 t true ts q u e s v h =
      let (json, j) = Renewed-json h in
      let held : w2.tokens ≡ some (stored (pair_of json) t.email) = q ∙ j in
      let good = subst (λ o. Renewed t (refresh_answer init w t).0 true o) j h in
      rw (held, v)
        (retried t json _ u e good
          (rw s (append_assoc w.sent (request_for init w ∷ refresh_request t ∷ []) _)) refl)

  abbrev after : Init → World S → Option StoredTokens → Result Response × World S
  after init w o =
      after_refresh serve json_parse pair_of error_body_of init (answer_to init w)
        (try_refresh serve json_parse pair_of error_body_of o (asked init w))

  after-Exchange :
      (init : Init) (w : World S) (t : StoredTokens)
      → wants_refresh init w ≡ true
      → w.tokens ≡ some t
      → Exchange init w (after init w (some t)).0 (after init w (some t)).1
  unfolding try_refresh fetch
  after-Exchange init w t goes e =
      let w1 = asked init w in
      let answered = fetch serve json_parse pair_of error_body_of (refresh_request t) w1 in
      let two =
        refreshed-sent t answered.0 answered.1
        ∙ append_assoc w.sent (request_for init w ∷ []) (refresh_request t ∷ []) in
      let left = refreshed serve json_parse pair_of error_body_of t answered.0 answered.1 in
      after_refresh-Exchange init w left.1 t left.0 left.1.tokens refl goes e two
        (refreshed-server t answered.0 answered.1) (refreshed-Renewed t answered.0 answered.1 e)

  -- Every request sends itself, at most one refresh, with the refresh token that is kept, and at
  -- most one retry, only where the reply to the refresh has a status of success and a body that parses,
  -- with the new token, and then the reply to the retry is what counts. The tokens are kept where no
  -- refresh is sent, where it gets no reply or one of success that does not parse; they are dropped
  -- where its status is not one of success, and else those of the new pair.
  pub request_raw-Exchange :
      (init : Init) (w : World S)
      → let r = request_raw serve json_parse pair_of error_body_of init w in Exchange init w r.0 r.1
  unfolding request_raw try_refresh fetch
  request_raw-Exchange init w = elim (Bool-cases (wants_refresh init w)) [
    | inr stays ↦ rw stays (once _ stays refl refl)
    | inl goes ↦ elim (Option-cases w.tokens) [
      | inl missing ↦ absurd (ground arith)
      | inr (t, e) ↦ rw goes (
          subst (λ o. Exchange init w (after init w o).0 (after init w o).1) (sym e)
            (after-Exchange init w t goes e))
    ]
  ]
