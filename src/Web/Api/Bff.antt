-- ===== src/Web/Api/Bff.antt =====
-- The wrapper of the BFF's routes, websites/src/app/api/_bff.ts.
pub mod Passes
use rag_chat_cli.Prelude.{
  ℕ, Bool, true, false, not, List, [], ◌∷◌, ◌++◌, Option, none, some, get_or, or_else, ◌==◌,
  if◌then◌else◌,
}
use rag_chat_cli.Text.{Text, codes, is_empty}
use rag_chat_cli.Web.Auth.Cookies.{Envelope, TokenPair, Jar}
use rag_chat_cli.Web.Auth.Session.{get_access_token_with_refresh}
use rag_chat_cli.Web.Api.{
  Json, string, object, Members, no_members, member, HttpResponse, ApiError, Outcome, returns,
  api_error, throws,
}

-- A member that is left out where it is missing.
optional : Text → Option Json → Members → Members
optional key none rest = rest
optional key (some j) rest = member key j rest

-- `if (requestId) body.requestId = requestId`
request_id_of : Option Text → Option Json
request_id_of none = none
request_id_of (some t) = if is_empty t then none else some (string t)

-- The body of `bffError`, outside development.
unfoldable pub error_body : Text → Text → Option Json → Option Text → Json
unfolding optional request_id_of
error_body code message details request_id = object (
    member (codes "error") (string code) (
      member (codes "message") (string message) (
        optional (codes "details") details
          (optional (codes "requestId") (request_id_of request_id) no_members))))

module _ (json_stringify : Json → Text) where
  -- `NextResponse.json(body, { status })`
  abbrev pub json_response : ℕ → Option Text → Json → HttpResponse
  json_response status request_id j = record {
    status = status;
    status_text = [];
    content_type = some (codes "application/json");
    request_id = request_id;
    body = json_stringify j;
  }

  unfoldable pub bff_error : Text → Text → ℕ → Option Json → Option Text → HttpResponse
  unfolding error_body
  bff_error code message status details request_id =
      json_response status request_id (error_body code message details request_id)

  -- `bffErrorFrom` for an `ApiError`, whose own request id goes before that of the route.
  unfoldable pub bff_error_from_api : ApiError → Text → HttpResponse
  unfolding bff_error
  bff_error_from_api e request_id =
      bff_error e.code e.message e.status e.details (or_else e.request_id (some request_id))

  -- `bffErrorFrom` for another error.
  unfoldable pub bff_error_from : Text → Text → HttpResponse
  unfolding bff_error
  bff_error_from message request_id =
      bff_error (codes "UPSTREAM_ERROR") message 502 none (some request_id)

  -- The `try` of `withAuth`; `NextResponse.json(undefined)` throws.
  unfoldable pub respond : Text → Outcome (Option Json) → HttpResponse
  unfolding bff_error_from_api bff_error_from
  respond request_id (returns (some j)) = json_response 200 (some request_id) j
  respond request_id (returns none) =
      bff_error_from (codes "Value is not JSON serializable") request_id
  respond request_id (api_error e) = bff_error_from_api e request_id
  respond request_id (throws message) = bff_error_from message request_id

  unfoldable pub unauthenticated : Text → HttpResponse
  unfolding bff_error
  unauthenticated request_id =
      bff_error (codes "UNAUTHENTICATED") (codes "Session expired or missing.") 401 none
        (some request_id)

  -- `withAuth` with the token of the session, if there is one.
  unfoldable pub with_token : Text → Option Text → (Text → Outcome (Option Json)) → HttpResponse
  unfolding respond unauthenticated
  with_token request_id none inner = unauthenticated request_id
  with_token request_id (some token) inner =
      let answer = respond request_id (inner token) in
      if is_empty token then unauthenticated request_id else answer

  module _ (decode : Text → Option Envelope) (encode : Envelope → Text)
      (backend : Text → Option TokenPair) where
    -- `withAuth`: the response, and the cookies behind it.
    unfoldable pub with_auth :
        (now : ℕ) → Jar → Text → (Text → Outcome (Option Json)) → HttpResponse × Jar
    unfolding with_token get_access_token_with_refresh
    with_auth now jar request_id inner =
        let (token, jar') = get_access_token_with_refresh decode encode backend now jar in
        (with_token request_id token inner, jar')
