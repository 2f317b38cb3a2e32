-- ===== src/Tests/Web/Api.antt =====
-- A request through the BFF at concrete inputs.
use rag_chat_cli.Prelude.{List, [], ◌∷◌, Option, none, some, ◌≡◌, refl}
use rag_chat_cli.Text.{Text, codes, same, is_empty, split, consed}
use rag_chat_cli.Text.Decimal.{decimal}
use rag_chat_cli.Tests.Web.Codec.{write_json, read_json, read_json-write_json}
use rag_chat_cli.Web.Api.{
  Json, array, item, no_items, member, string, object, no_members, HttpResponse, ApiError, Outcome,
  returns, api_error,
}
use rag_chat_cli.Web.Api.Browser.{received}
use rag_chat_cli.Web.Api.Bff.{with_token}
use rag_chat_cli.Web.Api.Calls
use rag_chat_cli.Web.Api.Calls.{ApiCall, request_of}
use rag_chat_cli.Web.Api.Router.{as_it_is, asked, find_route}
use rag_chat_cli.Web.Api.Routes.{routed}
use rag_chat_cli.Web.Api.Forwards.{forwarded}
use rag_chat_cli.Web.Api.Forwards.Every.{IsSound, root, credential, treatment, asked-routed}
use rag_chat_cli.Web.Api.Server.{Upstream, answered, parse_payload, parse_error}
use rag_chat_cli.Web.Api.Served.{served, ask, unwrapped}
use rag_chat_cli.Web.Api.Served.Whole.{IsFetched, kept, received-served}
use rag_chat_cli.Web.Api.Bff.Passes.{HasErrorStatus, passed_on, passed_on_with, received-with_token}

abbrev write_params : List (Text × Text) → Text
write_params [] = []
write_params ((k, v) ∷ q) = k

abbrev unparsed : Text → Text
unparsed t = codes "Unexpected token"

-- A session that the backend does not have.
abbrev not_found : ApiError
not_found = record {
  status = 404;
  code = codes "SESSION_NOT_FOUND";
  message = codes "session not found";
  details = some (object no_members);
  request_id = some (codes "r-2");
}

received-with_token_example :
    received write_params write_json read_json unparsed
      (codes "r-1")
      (with_token write_json (codes "r-2") (some (codes "tk")) (λ t. api_error not_found))
    ≡ api_error not_found
unfolding HasErrorStatus passed_on_with passed_on is_empty
received-with_token_example =
    received-with_token write_params write_json read_json unparsed read_json-write_json
      (codes "r-1") (codes "r-2") (some (codes "tk")) (λ t. api_error not_found) (λ t. refl)

-- Renaming a session.
abbrev renaming : ApiCall
renaming = ApiCall.chat (Calls.Chat.Call.update_session (codes "s-1") (object no_members))

asked-routed_example :
    asked (codes "tk") (routed find_route (request_of renaming))
    ≡ some (forwarded [] (some (codes "tk")) (request_of renaming), as_it_is)
unfolding IsSound root credential treatment same is_empty
asked-routed_example =
    asked-routed find_route (λ rs method body ss. refl) (codes "tk") renaming (refl, refl)

abbrev page : HttpResponse
page = record {
  status = 404;
  status_text = codes "Not Found";
  content_type = none;
  request_id = none;
  body = codes "gone";
}

abbrev backend : Upstream → Outcome HttpResponse
backend u = returns page

-- What the platform says of a value that has no members.
abbrev unread : Option Json → Text
unread j = codes "Cannot read properties"

abbrev write_url : Text → List (Text × Option Text) → Text
write_url path query = path

received-served_example :
    received write_params write_json read_json unparsed (codes "r-1") (
      served write_json read_json write_url backend
        (codes "r-3")
        page
        unread
        find_route
        (codes "r-2")
        (some (codes "tk"))
        (request_of renaming))
    ≡ api_error (record {
      status = 404;
      code = codes "HTTP_404";
      message = codes "Not Found";
      details = some (string (codes "gone"));
      request_id = some (codes "r-2");
    })
unfolding passed_on kept ask IsFetched IsSound root credential treatment request_of routed
    find_route same is_empty split consed answered parse_payload parse_error decimal
received-served_example =
    received-served write_params write_json read_json unparsed read_json-write_json write_url
      backend (λ u. tt) (codes "r-3") page unread find_route (λ rs method body ss. refl)
      (codes "r-1") (codes "r-2") (codes "tk") renaming refl (refl, refl)

-- The items of a page, and what has none.
unwrapped_test :
    (unwrapped unread (returns (some (object (member (codes "items") (array no_items) no_members))))
      ≡ returns (some (array no_items)))
    × (unwrapped unread (returns (some (array (item (string []) no_items))))
        ≡ returns (some (array (item (string []) no_items))))
    × (unwrapped unread (returns none) ≡ Outcome.throws (codes "Cannot read properties"))
unfolding unwrapped same
unwrapped_test = (refl, refl, refl)
