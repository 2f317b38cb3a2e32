-- ===== src/Tui/Api/Account.antt =====
-- Signing in and out: `login`, `me` and `logout` of clients/tui/src/api/client.ts, and the actions of
-- clients/tui/src/store/auth-store.ts. What a cast of a parsed body gives is a parameter.
pub mod InStep
pub mod Journey
use rag_chat_cli.Prelude.{
  Bool, true, false, List, [], ◌∷◌, Option, none, some, is_some, if◌then◌else◌,
}
use rag_chat_cli.Text.{Text, codes, is_empty}
use rag_chat_cli.Wire.{UserOut}
use rag_chat_cli.Tui.Api.{
  TokenPair, StoredTokens, credentials, no_body, refresh_of, Init, Request, Reply, ErrorBody,
  Result, returns, api_error, throws, World, save_tokens, clear_tokens, request_raw, request,
}

abbrev pub login_init : Text → Text → Init
login_init email password = record {
  path = codes "/auth/login";
  method = some (codes "POST");
  body = credentials email password;
  authed = false;
}

abbrev pub me_init : Init
me_init = record { path = codes "/me"; method = none; body = no_body; authed = true }

abbrev pub logout_init : Text → Init
logout_init refresh = record {
  path = codes "/auth/logout";
  method = some (codes "POST");
  body = refresh_of refresh;
  authed = false;
}

pub record AuthState : Type 0 where
  pub user : Option UserOut
  pub bootstrapping : Bool
  pub login_error : Option Text
  pub logging : Bool

abbrev pub initial : AuthState
initial = record { user = none; bootstrapping = true; login_error = none; logging = false }

-- `error.message`
abbrev pub error_of : {A : Type 0} → Result A → Option Text
error_of (returns a) = none
error_of (api_error status code message) = some message
error_of (throws message) = some message

module _ {S Json : Type 0} (serve : Request → S → Reply × S) (json_parse : Text → Option Json)
    (pair_of : Json → TokenPair) (error_body_of : Json → ErrorBody) (user_of : Json → UserOut) where
  user_from : Result (Option Json) → Result (Option UserOut)
  user_from (returns none) = returns none
  user_from (returns (some json)) = returns (some (user_of json))
  user_from (api_error status code message) = api_error status code message
  user_from (throws message) = throws message

  unfoldable pub me : World S → Result (Option UserOut) × World S
  unfolding request user_from
  me w = let (r, w') = request serve json_parse pair_of error_body_of me_init w in (user_from r, w')

  -- `login` behind its request; reading the tokens of an answer with no body throws.
  unfoldable pub logged_in :
      Text → Result (Option Json) → World S → Result (Option UserOut) × World S
  unfolding save_tokens me
  logged_in email (returns none) w = (throws (codes "no tokens"), w)
  logged_in email (returns (some json)) w = me (save_tokens (pair_of json) (some email) w)
  logged_in email (api_error status code message) w = (api_error status code message, w)
  logged_in email (throws message) w = (throws message, w)

  unfoldable pub login : Text → Text → World S → Result (Option UserOut) × World S
  unfolding request logged_in
  login email password w =
      let (r, w') = request serve json_parse pair_of error_body_of (login_init email password) w in
      logged_in email r w'

  -- `logout` with the refresh token that was kept; what the request brings is ignored.
  unfoldable pub logout_of : Option StoredTokens → World S → World S
  unfolding request_raw clear_tokens
  logout_of none w = clear_tokens w
  logout_of (some t) w =
      let cleared = clear_tokens w in
      let told =
        (request_raw serve json_parse pair_of error_body_of (logout_init t.refresh_token)
          cleared).1 in
      if is_empty t.refresh_token then cleared else told

  unfoldable pub logout : World S → World S
  unfolding logout_of
  logout w = logout_of w.tokens w

  bootstrapped : Result (Option UserOut) → AuthState → AuthState
  bootstrapped (returns user) s = record s { user = user; bootstrapping = false }
  bootstrapped _ s = record s { user = none; bootstrapping = false }

  -- `bootstrap` of the store.
  unfoldable pub bootstrap : AuthState → World S → AuthState × World S
  unfolding me bootstrapped
  bootstrap s w =
      let started = record s { bootstrapping = true; login_error = none } in
      let (r, w') = me w in
      if is_some w.tokens
      then (bootstrapped r started, w')
      else (record started { user = none; bootstrapping = false }, w)

  login_ended : Result (Option UserOut) → AuthState → AuthState × Bool
  login_ended (returns user) s =
      (record s { user = user; logging = false; login_error = none }, true)
  login_ended (api_error status code message) s =
      (record s { logging = false; login_error = some message }, false)
  login_ended (throws message) s = (record s { logging = false; login_error = some message }, false)

  -- `login` of the store, with what it returns.
  unfoldable pub store_login : Text → Text → AuthState → World S → AuthState × Bool × World S
  unfolding login login_ended
  store_login email password s w =
      let (r, w') = login email password w in
      let ended = login_ended r (record s { logging = true; login_error = none }) in
      (ended.0, ended.1, w')

  -- `logout` of the store.
  unfoldable pub store_logout : AuthState → World S → AuthState × World S
  unfolding logout
  store_logout s w = (record s { user = none; login_error = none }, logout w)
