-- ===== src/Tui/Api.antt =====
-- The transport of the terminal client, clients/tui/src/api/client.ts and token-store.ts. The server
-- is a parameter, a function of its own state; so are `JSON.parse`, and what the casts of a parsed
-- body give. The token file is a field of the client's state; writing it succeeds, and
-- whether removing it does is a field beside it.
pub mod Calls
pub mod Account
pub mod Exchanges
use rag_chat_cli.Prelude.{
  ℕ, Bool, true, false, not, ◌&&◌, ◌||◌, List, [], ◌∷◌, ◌++◌, Option, none, some, is_some, get_or,
  leb, ◌==◌, if◌then◌else◌,
}
use rag_chat_cli.Text.{Text, codes, is_empty}
use rag_chat_cli.Text.Decimal.{decimal}

pub record TokenPair : Type 0 where
  pub access_token : Text
  pub refresh_token : Text
  pub access_expires_at : Text
  pub refresh_expires_at : Text

pub record StoredTokens : Type 0 where
  pub access_token : Text
  pub refresh_token : Text
  pub access_expires_at : Text
  pub refresh_expires_at : Text
  pub email : Option Text

pub data Body : Type 0 where
  no_body : Body
  credentials : (email password : Text) → Body
  refresh_of : (refresh_token : Text) → Body
  json_text : Text → Body

-- `RequestInitX` and the path, below the base URL and the prefix.
pub record Init : Type 0 where
  pub path : Text
  pub method : Option Text
  pub body : Body
  pub authed : Bool

-- What `fetch` is called with: the headers that never change are left out.
pub record Request : Type 0 where
  pub path : Text
  pub method : Text
  pub body : Body
  pub bearer : Option Text

pub data Reply : Type 0 where
  response : (status : ℕ) (status_text body : Text) → Reply
  network_error : (message : Text) → Reply

-- The fields of an error's body that are read, as strings.
pub record ErrorBody : Type 0 where
  pub detail : Option Text
  pub message : Option Text
  pub code : Option Text

pub data Result (A : Type 0) : Type 0 where
  returns : A → Result A
  api_error : (status : ℕ) (code message : Text) → Result A
  throws : (message : Text) → Result A

-- A response whose status is one of success.
pub record Response : Type 0 where
  pub status : ℕ
  pub body : Text

-- The client, its token file and the server, with all requests sent, the latest at the end.
pub record World (S : Type 0) : Type 0 where
  pub tokens : Option StoredTokens
  pub file : Option StoredTokens
  pub removable : Bool
  pub sent : List Request
  pub server : S

abbrev pub stored : TokenPair → Option Text → StoredTokens
stored pair email = record {
  access_token = pair.access_token;
  refresh_token = pair.refresh_token;
  access_expires_at = pair.access_expires_at;
  refresh_expires_at = pair.refresh_expires_at;
  email = email;
}

-- `this.tokens = saveTokens(pair, email)`
unfoldable pub save_tokens : {S : Type 0} → TokenPair → Option Text → World S → World S
save_tokens pair email w = record w {
  tokens = some (stored pair email);
  file = some (stored pair email);
}

-- `clearTokens(); this.tokens = null`: an error of `unlinkSync` is ignored, and the file stays.
unfoldable pub clear_tokens : {S : Type 0} → World S → World S
clear_tokens w = record w { tokens = none; file = if w.removable then none else w.file }

-- `loadTokens` of what the file parses to, with `none` for no file and for one that does not parse.
unfoldable pub load_tokens : Option StoredTokens → Option StoredTokens
load_tokens none = none
load_tokens (some t) = if is_empty t.access_token || is_empty t.refresh_token then none else some t

-- A new client beside the same file and server.
unfoldable pub start : {S : Type 0} → World S → World S
unfolding load_tokens
start w = record w { tokens = load_tokens w.file }

-- `response.ok`
abbrev pub is_ok : ℕ → Bool
is_ok status = leb 200 status && leb status 299

abbrev pub bearer_of : Bool → Option StoredTokens → Option Text
bearer_of true (some t) = some t.access_token
bearer_of _ _ = none

-- The request that `requestRaw` sends.
abbrev pub request_for : {S : Type 0} → Init → World S → Request
request_for init w = record {
  path = init.path;
  method = get_or init.method (codes "GET");
  body = init.body;
  bearer = bearer_of init.authed w.tokens;
}

abbrev pub refresh_request : StoredTokens → Request
refresh_request t = record {
  path = codes "/auth/refresh";
  method = codes "POST";
  body = refresh_of t.refresh_token;
  bearer = none;
}

module _ {S Json : Type 0} (serve : Request → S → Reply × S) (json_parse : Text → Option Json)
    (pair_of : Json → TokenPair) (error_body_of : Json → ErrorBody) where
  -- `fetch`
  unfoldable pub fetch : Request → World S → Reply × World S
  fetch r w =
      let answered = serve r w.server in
      (answered.0, record w { sent = w.sent ++ (r ∷ []); server = answered.1 })

  -- The `try` of the error branch: what the body says goes before the status.
  error_from : ℕ → Text → Option Json → Result Response
  error_from status text none =
      api_error status (codes "HTTP_" ++ decimal status)
        (if is_empty text then codes "request failed" else text)
  error_from status text (some json) =
      let b = error_body_of json in
      api_error status (get_or b.code (codes "HTTP_" ++ decimal status)) (
        get_or b.detail (get_or b.message (if is_empty text then codes "request failed" else text)))

  -- What follows the retry in `requestRaw`.
  unfoldable pub conclude : Reply → Result Response
  unfolding error_from
  conclude (network_error message) = throws message
  conclude (response status text body) =
      if is_ok status
      then returns (record { status = status; body = body })
      else error_from status text (json_parse body)

  -- What follows the reply to a refresh.
  unfoldable pub refreshed : StoredTokens → Reply → World S → Bool × World S
  unfolding save_tokens clear_tokens
  refreshed t (network_error message) w = (false, w)
  refreshed t (response status text body) w =
      if not (is_ok status) then (false, clear_tokens w) else elim (json_parse body) [
        | none ↦ (false, w)
        | some json ↦ (true, save_tokens (pair_of json) t.email w)
      ]

  unfoldable pub try_refresh : Option StoredTokens → World S → Bool × World S
  unfolding fetch refreshed
  try_refresh none w = (false, w)
  try_refresh (some t) w =
      let answered = fetch (refresh_request t) w in refreshed t answered.0 answered.1

  abbrev pub is_unauthorized : Reply → Bool
  is_unauthorized (response status text body) = status == 401
  is_unauthorized (network_error message) = false

  -- `requestRaw(path, init, true)`
  unfoldable pub request_again : Init → World S → Result Response × World S
  unfolding fetch conclude
  request_again init w =
      let answered = fetch (request_for init w) w in (conclude answered.0, answered.1)

  -- What follows the refresh, whose success is the Boolean, after the reply that asked for it.
  unfoldable pub after_refresh : Init → Reply → Bool × World S → Result Response × World S
  unfolding request_again conclude
  after_refresh init reply (true, w) = request_again init w
  after_refresh init reply (false, w) = (conclude reply, w)

  unfoldable pub request_raw : Init → World S → Result Response × World S
  unfolding fetch try_refresh after_refresh conclude
  request_raw init w =
      let (reply, w1) = fetch (request_for init w) w in
      let retried = after_refresh init reply (try_refresh w1.tokens w1) in
      if is_unauthorized reply && (init.authed && is_some w1.tokens)
      then retried
      else (conclude reply, w1)

  -- The value of a response: `none` for `undefined`.
  read_body : Init → Result Response → Result (Option Json)
  read_body init (throws message) = throws message
  read_body init (api_error status code message) = api_error status code message
  read_body init (returns r) =
      if (r.status == 204) || is_empty r.body then returns none else elim (json_parse r.body) [
        | some json ↦ returns (some json)
        | none ↦ api_error r.status (codes "PARSE") (codes "Invalid JSON from " ++ init.path)
      ]

  unfoldable pub request : Init → World S → Result (Option Json) × World S
  unfolding request_raw read_body
  request init w = let (r, w') = request_raw init w in (read_body init r, w')
