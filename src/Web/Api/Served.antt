-- ===== src/Web/Api/Served.antt =====
-- A call of the browser's client all the way: the route that serves it below websites/src/app/api, the
-- wrapper around it in _bff.ts, and the request of the backend.
pub mod Whole
use rag_chat_cli.Prelude.{Bool, true, List, [], ◌∷◌, Option, none, some}
use rag_chat_cli.Text.{Text, codes}
use rag_chat_cli.Web.Api.{
  Json, null, boolean, array, object, no_members, member, member_of, HttpResponse, Outcome, returns,
  api_error, throws,
}
use rag_chat_cli.Web.Api.Browser.{BffRequest}
use rag_chat_cli.Web.Api.Server.{FetchOptions, Upstream, api_fetch}
use rag_chat_cli.Web.Api.Bff.{respond, with_token}
use rag_chat_cli.Web.Api.Router.{
  Answer, passes_on, unwraps, acknowledges, open_to_all, not_allowed, Route,
}
use rag_chat_cli.Web.Api.Routes.{routed}

-- `await ...; return { ok: true }`
unfoldable pub acknowledged : Outcome (Option Json) → Outcome (Option Json)
acknowledged (returns j) = returns (some (object (member (codes "ok") (boolean true) no_members)))
acknowledged (api_error e) = api_error e
acknowledged (throws message) = throws message

-- `Array.isArray(data) ? data : data.items`; what the platform says where there is no value is a parameter.
unfoldable pub unwrapped :
    (unread : Option Json → Text) → Outcome (Option Json) → Outcome (Option Json)
unwrapped unread (returns (some (array is))) = returns (some (array is))
unwrapped unread (returns (some (object ms))) = returns (member_of (codes "items") ms)
unwrapped unread (returns (some null)) = throws (unread (some null))
unwrapped unread (returns none) = throws (unread none)
unwrapped unread (returns (some j)) = returns none
unwrapped unread (api_error e) = api_error e
unwrapped unread (throws message) = throws message

module _ (json_stringify : Json → Text) (json_parse : Text → Option Json)
    (resolve : Text → List (Text × Option Text) → Text) (fetch : Upstream → Outcome HttpResponse)
    (fresh : Text) (missing : HttpResponse) (unread : Option Json → Text) where
  -- A call of the backend within a route; the request id is that of the incoming request.
  unfoldable pub ask : (request_id : Text) → FetchOptions → Outcome (Option Json)
  unfolding api_fetch
  ask request_id o = api_fetch resolve json_stringify json_parse fetch (some request_id) fresh o

  -- The response of a route; `missing` is the framework's where there is no handler.
  unfoldable pub served_by :
      (request_id : Text) (token : Option Text) → Option Answer → HttpResponse
  unfolding ask unwrapped acknowledged with_token respond
  served_by request_id token (some (passes_on f)) =
      with_token json_stringify request_id token (λ t. ask request_id (f t))
  served_by request_id token (some (unwraps f)) =
      with_token json_stringify request_id token (λ t. unwrapped unread (ask request_id (f t)))
  served_by request_id token (some (acknowledges f)) =
      with_token json_stringify request_id token (λ t. acknowledged (ask request_id (f t)))
  served_by request_id token (some (open_to_all o)) =
      respond json_stringify request_id (ask request_id o)
  served_by request_id token (some not_allowed) = missing
  served_by request_id token none = missing

  unfoldable pub served :
      (lookup : List Route → (method : Text) (body : Json) → List Text → Option Answer)
      (request_id : Text) (token : Option Text)
      → BffRequest
      → HttpResponse
  unfolding served_by routed
  served lookup request_id token r = served_by request_id token (routed lookup r)
