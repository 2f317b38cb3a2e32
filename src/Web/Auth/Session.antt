-- ===== src/Web/Auth/Session.antt =====
-- Reading and refreshing a session, websites/src/lib/auth/session.server.ts.
pub mod Rotation
use rag_chat_cli.Prelude.{
  ℕ, ◌+◌, Bool, true, false, not, ◌&&◌, ◌||◌, List, [], ◌∷◌, ◌++◌, Option, none, some, is_some, ltb,
  leb, if◌then◌else◌,
}
use rag_chat_cli.Text.{Text, codes, is_empty, starts_with}
use rag_chat_cli.Web.Auth.Cookies.{Envelope, TokenPair, Cookie, Jar, set_session, clear_session}

pub record Session : Type 0 where
  pub access_token : Text
  pub refresh_token : Option Text
  pub access_expires_at : ℕ
  pub refresh_expires_at : ℕ

abbrev pub clock_skew : ℕ
clock_skew = 30

-- `SessionState`
pub data SessionState : Type 0 where
  valid : (access_token : Text) → SessionState
  needs_refresh : SessionState
  anonymous : SessionState

infixl 5 ◌>>=◌
abbrev ◌>>=◌ {ℓ κ} : {A : Type ℓ} {B : Type κ} → Option A → (A → Option B) → Option B
none >>= k = none
some a >>= k = k a

-- A text that is not empty: `!parsed.access_token` returns.
abbrev filled : Text → Option Text
filled t = if is_empty t then none else some t

-- The tests of `classifySession` and `getAccessTokenWithRefresh`: time is left.
abbrev pub is_current : (now : ℕ) → Session → Bool
is_current now s = ltb (now + clock_skew) s.access_expires_at

abbrev pub is_recoverable : (now : ℕ) → Session → Bool
is_recoverable now s = ltb now s.refresh_expires_at

module _ (decode : Text → Option Envelope) where
  -- `decodeEnvelope(raw, validate)`, up to the validation.
  decoded : Option Cookie → Option Envelope
  decoded none = none
  decoded (some c) = if is_empty c.value then none else decode c.value

  -- `isRefreshPayload`, and the token.
  refresh_token_of : Option Envelope → Option Text
  refresh_token_of none = none
  refresh_token_of (some e) = do token ← e.refresh_token; exp ← e.exp; some token

  -- `isAccessPayload`, and the session that it gives with the refresh token that is visible.
  access_session : Option Text → Option Envelope → Option Session
  access_session refresh none = none
  access_session refresh (some e) = do
    token ← e.access_token
    access_exp ← e.access_exp
    refresh_exp ← e.refresh_exp
    some (record {
      access_token = token;
      refresh_token = refresh;
      access_expires_at = access_exp;
      refresh_expires_at = refresh_exp;
    })

  legacy_session : Option Envelope → Option Session
  legacy_session none = none
  legacy_session (some e) = do
    access ← e.access_token
    refresh ← e.refresh_token
    access' ← filled access
    refresh' ← filled refresh
    access_exp ← e.access_expires_at
    refresh_exp ← e.refresh_expires_at
    some (record {
      access_token = access';
      refresh_token = some refresh';
      access_expires_at = access_exp;
      refresh_expires_at = refresh_exp;
    })

  -- `getSession`: the legacy cookie counts only where the access cookie does not decode.
  unfoldable pub get_session : Jar → Option Session
  unfolding decoded refresh_token_of access_session legacy_session
  get_session jar =
      elim (access_session (refresh_token_of (decoded jar.refresh)) (decoded jar.access)) [
        | some s ↦ some s
        | none ↦ legacy_session (decoded jar.legacy)
      ]

  classified : (now : ℕ) → Option Session → SessionState
  classified now none = anonymous
  classified now (some s) =
      if is_current now s
      then valid s.access_token
      else if is_recoverable now s
      then needs_refresh
      else anonymous

  unfoldable pub classify_session : (now : ℕ) → Jar → SessionState
  unfolding get_session classified
  classify_session now jar = classified now (get_session jar)

  -- `getAccessToken`
  unfoldable pub get_access_token : (now : ℕ) → Jar → Option Text
  unfolding classify_session
  get_access_token now jar = elim (classify_session now jar) [
    | valid token ↦ some token
    | needs_refresh ↦ none
    | anonymous ↦ none
  ]

  module _ (encode : Envelope → Text) (backend : Text → Option TokenPair) where
    -- The `try`: a refresh by the backend, `none` where it throws.
    rotate : (now : ℕ) → Jar → Option TokenPair → Option Text × Jar
    rotate now jar none = (none, clear_session jar)
    rotate now jar (some pair) = (some pair.access_token, set_session encode now pair jar)

    rotate_with : (now : ℕ) → Jar → Option Text → Option Text × Jar
    rotate_with now jar none = (none, jar)
    rotate_with now jar (some token) =
        if is_empty token then (none, jar) else rotate now jar (backend token)

    with_refresh : (now : ℕ) → Jar → Option Session → Option Text × Jar
    with_refresh now jar none = (none, jar)
    with_refresh now jar (some s) =
        if is_current now s
        then (some s.access_token, jar)
        else if not (is_recoverable now s)
        then (none, clear_session jar)
        else rotate_with now jar s.refresh_token

    -- `getAccessTokenWithRefresh`: the token, and the cookies behind it.
    unfoldable pub get_access_token_with_refresh : (now : ℕ) → Jar → Option Text × Jar
    unfolding get_session with_refresh rotate_with rotate
    get_access_token_with_refresh now jar = with_refresh now jar (get_session jar)
