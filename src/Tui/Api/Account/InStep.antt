-- ===== src/Tui/Api/Account/InStep.antt =====
-- The tokens of the client and its token file over the calls of clients/tui/src/api/client.ts and the
-- actions of clients/tui/src/store/auth-store.ts.
use rag_chat_cli.Prelude.{
  Bool, true, false, Option, none, some, is_some, ◌≡◌, refl, inl, inr, Bool-cases, Option-cases,
  if_rec, ◌||◌,
}
use rag_chat_cli.Text.{Text, is_empty}
use rag_chat_cli.Wire.{UserOut}
use rag_chat_cli.Tui.Api.{
  TokenPair, StoredTokens, Init, Request, Reply, response, network_error, ErrorBody, Result,
  returns, api_error, throws, Response, World, save_tokens, clear_tokens, load_tokens, start, is_ok,
  request_for, refresh_request, fetch, refreshed, try_refresh, request_again, after_refresh,
  request_raw, request,
}
use rag_chat_cli.Tui.Api.Account.{
  AuthState, me_init, login_init, logout_init, me, logged_in, login, logout_of, logout, bootstrap,
  store_login, store_logout,
}

-- Tokens that the client holds are those of the token file. Without tokens any file will do: one that
-- could not be removed, or that has an empty token.
abbrev pub IsKept : (tokens file : Option StoredTokens) → Type 0
IsKept none file = Unit
IsKept (some t) file = file ≡ some t

abbrev pub IsInStep : {S : Type 0} → World S → Type 0
IsInStep w = IsKept w.tokens w.file

load_tokens-IsKept : (file : Option StoredTokens) → IsKept (load_tokens file) file
unfolding load_tokens
load_tokens-IsKept none = tt
load_tokens-IsKept (some t) =
    if_rec (λ o. IsKept o (some t)) (is_empty t.access_token || is_empty t.refresh_token) (λ _. tt)
      (λ _. refl)

start-IsInStep : {S : Type 0} (w : World S) → IsInStep (start w)
unfolding start
start-IsInStep w = load_tokens-IsKept w.file

module _ {S Json : Type 0} (serve : Request → S → Reply × S) (json_parse : Text → Option Json)
    (pair_of : Json → TokenPair) (error_body_of : Json → ErrorBody) (user_of : Json → UserOut) where
  abbrev fetched : Request → World S → Reply × World S
  fetched r w = fetch serve json_parse pair_of error_body_of r w

  refreshed-IsInStep :
      (t : StoredTokens) (r : Reply) (w : World S)
      → IsInStep w
      → IsInStep (refreshed serve json_parse pair_of error_body_of t r w).1
  unfolding refreshed save_tokens clear_tokens
  refreshed-IsInStep t (network_error message) w h = h
  refreshed-IsInStep t (response status text body) w h = elim (Bool-cases (is_ok status)) [
    | inl ok ↦ elim (Option-cases (json_parse body)) [
      | inl bad ↦ rw (ok, bad) h
      | inr (json, good) ↦ rw (ok, good) refl
    ]
    | inr bad ↦ rw bad tt
  ]

  try_refresh-IsInStep :
      (o : Option StoredTokens) (w : World S)
      → IsInStep w
      → IsInStep (try_refresh serve json_parse pair_of error_body_of o w).1
  unfolding try_refresh fetch
  try_refresh-IsInStep none w h = h
  try_refresh-IsInStep (some t) w h =
      let f = fetched (refresh_request t) w in refreshed-IsInStep t f.0 f.1 h

  after_refresh-IsInStep :
      (init : Init) (reply : Reply) (b : Bool) (w : World S)
      → IsInStep w
      → IsInStep (after_refresh serve json_parse pair_of error_body_of init reply (b, w)).1
  unfolding after_refresh request_again fetch
  after_refresh-IsInStep init reply true w h = h
  after_refresh-IsInStep init reply false w h = h

  request_raw-IsInStep :
      (init : Init) (w : World S)
      → IsInStep w
      → IsInStep (request_raw serve json_parse pair_of error_body_of init w).1
  unfolding request_raw fetch
  request_raw-IsInStep init w h =
      let f = fetched (request_for init w) w in
      let t = try_refresh serve json_parse pair_of error_body_of w.tokens f.1 in
      if_rec (λ (r : Result Response × World S). IsInStep r.1) _
        (λ _. after_refresh-IsInStep init f.0 t.0 t.1 (try_refresh-IsInStep w.tokens f.1 h))
        (λ _. h)

  me-IsInStep :
      (w : World S) → IsInStep w → IsInStep (me serve json_parse pair_of error_body_of user_of w).1
  unfolding me request
  me-IsInStep w h = request_raw-IsInStep me_init w h

  logged_in-IsInStep :
      (email : Text) (r : Result (Option Json)) (w : World S)
      → IsInStep w
      → IsInStep (logged_in serve json_parse pair_of error_body_of user_of email r w).1
  unfolding logged_in save_tokens
  logged_in-IsInStep email (returns none) w h = h
  logged_in-IsInStep email (returns (some json)) w h =
      me-IsInStep (save_tokens (pair_of json) (some email) w) refl
  logged_in-IsInStep email (api_error status code message) w h = h
  logged_in-IsInStep email (throws message) w h = h

  logout_of-IsInStep :
      (o : Option StoredTokens) (w : World S)
      → IsInStep (logout_of serve json_parse pair_of error_body_of user_of o w)
  unfolding logout_of clear_tokens
  logout_of-IsInStep none w = tt
  logout_of-IsInStep (some t) w =
      if_rec IsInStep (is_empty t.refresh_token) (λ _. tt)
        (λ _. request_raw-IsInStep (logout_init t.refresh_token) (clear_tokens w) tt)

  -- A new client, a request, or an action of the auth store.
  pub data Step : World S → World S → Type 0 where
    starts : (w : World S) → Step w (start w)
    requests :
        (init : Init) (w : World S)
        → Step w (request_raw serve json_parse pair_of error_body_of init w).1
    logs_in :
        (email password : Text) (s : AuthState) (w : World S)
        → Step w (store_login serve json_parse pair_of error_body_of user_of email password s w).2
    logs_out :
        (s : AuthState) (w : World S)
        → Step w (store_logout serve json_parse pair_of error_body_of user_of s w).1
    boots :
        (s : AuthState) (w : World S)
        → Step w (bootstrap serve json_parse pair_of error_body_of user_of s w).1

  pub data Reach (w : World S) : World S → Type 0 where
    here : Reach w w
    next : {u v : World S} → Reach w u → Step u v → Reach w v

  Step-IsInStep : {u v : World S} → Step u v → IsInStep u → IsInStep v
  unfolding store_login login request store_logout logout bootstrap
  Step-IsInStep (starts w) h = start-IsInStep w
  Step-IsInStep (requests init w) h = request_raw-IsInStep init w h
  Step-IsInStep (logs_in email password s w) h =
      let r = request serve json_parse pair_of error_body_of (login_init email password) w in
      logged_in-IsInStep email r.0 r.1 (request_raw-IsInStep (login_init email password) w h)
  Step-IsInStep (logs_out s w) h = logout_of-IsInStep w.tokens w
  Step-IsInStep (boots s w) h =
      if_rec (λ (r : AuthState × World S). IsInStep r.1) (is_some w.tokens) (λ _. me-IsInStep w h)
        (λ _. h)

  -- Whatever the server answers, over any sequence of starts of a client, requests, logins, logouts and
  -- bootstraps, the tokens that the client holds are those of the token file, if they were at first,
  -- also where the file cannot be removed.
  pub Reach-IsInStep : {u v : World S} → IsInStep u → Reach u v → IsInStep v
  Reach-IsInStep h here = h
  Reach-IsInStep h (next r st) = Step-IsInStep st (Reach-IsInStep h r)
