-- ===== src/Web/Auth/Proxy.antt =====
-- The gate that every request passes, websites/src/proxy.ts, and the routes refresh-and-back and
-- clear-and-login that the pages send a browser to.
pub mod Settles
use rag_chat_cli.Prelude.{
  ℕ, ◌+◌, Bool, true, false, not, ◌&&◌, ◌||◌, any, List, [], ◌∷◌, ◌++◌, Option, none, some, is_some,
  get_or, ltb, if◌then◌else◌,
}
use rag_chat_cli.Text.{Text, codes, same, is_empty, starts_with}
use rag_chat_cli.Web.Auth.Cookies.{Envelope, TokenPair, Cookie, Jar, set_session, clear_session}
use rag_chat_cli.Web.Auth.Session.{
  SessionState, valid, needs_refresh, anonymous, classify_session, get_access_token_with_refresh,
}

abbrev pub public_paths : List Text
public_paths = codes "/login" ∷ codes "/register" ∷ []

abbrev pub public_prefixes : List Text
public_prefixes =
    codes "/_next"
    ∷ codes "/favicon"
    ∷ codes "/public"
    ∷ codes "/api/health"
    ∷ codes "/api/auth"
    ∷ codes "/share"
    ∷ codes "/api/shares"
    ∷ []

unfoldable pub is_open : Text → Bool
is_open path = any (starts_with path) public_prefixes

unfoldable pub is_public : Text → Bool
is_public path = any (same path) public_paths

-- A cookie to be deleted, at a path.
pub data Cleared : Type 0 where
  refresh_at_api access_at_root legacy_at_root : Cleared

abbrev pub cleared_if : Bool → Cleared → List Cleared
cleared_if true c = c ∷ []
cleared_if false c = []

-- What the gate answers.
pub data Decision : Type 0 where
  next : Decision
  to_chat : Decision
  to_login : (next : Text) → List Cleared → Decision

module _ (decode : Text → Option Envelope) where
  -- `refreshExpFromAccessCookie`
  refresh_exp_of : Option Envelope → ℕ
  refresh_exp_of none = 0
  refresh_exp_of (some e) =
      if is_empty (get_or e.access_token []) then 0 else get_or e.refresh_exp 0

  -- `Number(session.refresh_expires_at) || 0`
  legacy_exp_of : Option Envelope → ℕ
  legacy_exp_of none = 0
  legacy_exp_of (some e) = get_or e.refresh_expires_at 0

  opened : Option Cookie → Option Envelope
  opened none = none
  opened (some c) = if is_empty c.value then none else decode c.value

  unfoldable pub has_valid_session : (now : ℕ) → Jar → Bool
  unfolding refresh_exp_of legacy_exp_of opened
  has_valid_session now jar =
      ltb now (refresh_exp_of (opened jar.access)) || ltb now (legacy_exp_of (opened jar.legacy))

  -- `proxy`
  unfoldable pub proxy : (now : ℕ) → Text → Jar → Decision
  unfolding has_valid_session is_open is_public
  proxy now path jar =
      if is_open path
      then next
      else if is_public path && has_valid_session now jar
      then to_chat
      else if not (is_public path)
          && (not (has_valid_session now jar) && not (same path (codes "/")))
      then to_login path (
          cleared_if (is_some jar.refresh) refresh_at_api
          ++ (cleared_if (is_some jar.access) access_at_root
              ++ cleared_if (is_some jar.legacy) legacy_at_root))
      else next

-- `isSafeNext`, which `buildRedirectTarget` tests too.
unfoldable pub is_safe_next : Option Text → Bool
is_safe_next none = false
is_safe_next (some path) =
    starts_with path (codes "/")
    && (not (starts_with path (codes "//")) && not (starts_with path (codes "/api/auth")))

-- Where a redirect leads: a path, and the `next` parameter behind it.
pub record Target : Type 0 where
  pub path : Text
  pub next : Option Text

abbrev pub safe_next : Option Text → Option Text
safe_next o = if is_safe_next o then o else none

pub data Bridge : Type 0 where
  refresh clear : Bridge

-- `buildRedirectTarget`
unfoldable pub build_redirect_target : Bridge → Option Text → Target
unfolding is_safe_next
build_redirect_target refresh path = record {
  path = codes "/api/auth/refresh-and-back";
  next = safe_next path;
}
build_redirect_target clear path = record {
  path = codes "/api/auth/clear-and-login";
  next = safe_next path;
}

-- What a page does about its session: it has a token, or it redirects.
pub data Access : Type 0 where
  token : Text → Access
  redirect : Target → Access

-- The switch of `requireAccessToken`.
access_for : Option Text → SessionState → Access
unfolding build_redirect_target
access_for path (valid t) = token t
access_for path needs_refresh = redirect (build_redirect_target refresh path)
access_for path anonymous = redirect (build_redirect_target clear path)

module _ (decode : Text → Option Envelope) where
  -- `requireAccessToken`
  unfoldable pub require_access_token : (now : ℕ) → Option Text → Jar → Access
  unfolding classify_session access_for
  require_access_token now path jar = access_for path (classify_session decode now jar)

  -- The route refresh-and-back: where it leads, and the cookies behind it.
  unfoldable pub refresh_and_back :
      (encode : Envelope → Text) (backend : Text → Option TokenPair) (now : ℕ)
      → Option Text
      → Jar
      → Target × Jar
  unfolding get_access_token_with_refresh is_safe_next clear_session
  refresh_and_back encode backend now raw jar =
      let (t, jar') = get_access_token_with_refresh decode encode backend now jar in
      if not (is_empty (get_or t []))
      then (record { path = get_or (safe_next raw) (codes "/chat"); next = none }, jar')
      else (record { path = codes "/login"; next = safe_next raw }, clear_session jar')

-- The route clear-and-login.
unfoldable pub clear_and_login : Option Text → Jar → Target × Jar
unfolding clear_session
clear_and_login raw jar = (
  record {
    path = codes "/login";
    next = if starts_with (get_or raw []) (codes "/") then raw else none;
  },
  clear_session jar,
)
