-- ===== src/Web/Api/Browser.antt =====
-- The browser's end of a call, `bff` of websites/src/lib/api/browser/client.ts.
use rag_chat_cli.Prelude.{not, List, [], ◌∷◌, ◌++◌, Option, none, some, get_or, ◌==◌, if◌then◌else◌}
use rag_chat_cli.Text.{Text, codes, is_empty}
use rag_chat_cli.Web.Api.{
  Json, string, field_of, as_string, HttpResponse, is_ok, is_json, ApiError, Outcome, returns,
  api_error, throws, http_code,
}

pub record BffRequest : Type 0 where
  pub method : Option Text
  pub path : Text
  pub query : Option (List (Text × Option Text))
  pub body : Option Json

-- What `fetch` is called with; `Content-Type` is sent with a body.
pub record Fetched : Type 0 where
  pub method : Text
  pub url : Text
  pub accept : Text
  pub content_type : Option Text
  pub request_id : Text
  pub body : Option Text

-- The parameters that are not `undefined`.
given : List (Text × Option Text) → List (Text × Text)
given [] = []
given ((k, none) ∷ q) = given q
given ((k, some v) ∷ q) = (k, v) ∷ given q

module _ (params : List (Text × Text) → Text) where
  unfoldable pub with_query : Text → Option (List (Text × Option Text)) → Text
  unfolding given
  with_query path none = path
  with_query path (some q) =
      let qs = params (given q) in if is_empty qs then path else path ++ (b'?' ∷ qs)

module _ (params : List (Text × Text) → Text) (json_stringify : Json → Text)
    (json_parse : Text → Option Json) (parse_message : Text → Text) where
  text_of : Option Json → Option Text
  text_of none = none
  text_of (some j) = some (json_stringify j)

  content_type_of : Option Json → Option Text
  content_type_of none = none
  content_type_of (some j) = some (codes "application/json")

  -- `opts.method ?? (opts.body === undefined ? "GET" : "POST")`, which only the log uses, and what
  -- `fetch` does where the method is missing.
  unfoldable pub build_init : BffRequest → Text → Fetched
  unfolding with_query text_of content_type_of
  build_init r request_id = record {
    method = get_or r.method (codes "GET");
    url = with_query params r.path r.query;
    accept = codes "application/json";
    content_type = content_type_of r.body;
    request_id = request_id;
    body = text_of r.body;
  }

  parsed : Text → Option Json → Outcome (Option Json)
  parsed text none = throws (parse_message text)
  parsed text (some j) = returns (some j)

  -- `parseBody`: `none` for `undefined`; `parse_message` is the platform's for a text that does not parse.
  unfoldable pub parse_body : HttpResponse → Outcome (Option Json)
  unfolding parsed
  parse_body res =
      if res.status == 204
      then returns none
      else if is_json res.content_type
      then parsed res.body (json_parse res.body)
      else returns (some (string res.body))

  -- `toApiError`
  unfoldable pub to_api_error : HttpResponse → Option Json → Text → ApiError
  to_api_error res payload request_id = record {
    status = res.status;
    code = get_or (as_string (field_of (codes "error") payload)) (http_code res.status);
    message =
        get_or (as_string (field_of (codes "message") payload))
          (if is_empty res.status_text then codes "Request failed" else res.status_text);
    details = field_of (codes "details") payload;
    request_id = some request_id;
  }

  concluded : HttpResponse → Text → Outcome (Option Json) → Outcome (Option Json)
  unfolding to_api_error
  concluded res request_id (returns payload) =
      if not (is_ok res.status)
      then api_error (to_api_error res payload request_id)
      else returns payload
  concluded res request_id (api_error e) = api_error e
  concluded res request_id (throws message) = throws message

  -- `bff` behind its `fetch`.
  unfoldable pub received : Text → HttpResponse → Outcome (Option Json)
  unfolding parse_body concluded
  received request_id res = concluded res (get_or res.request_id request_id) (parse_body res)

  unfoldable pub bff : (Fetched → Outcome HttpResponse) → Text → BffRequest → Outcome (Option Json)
  unfolding build_init received
  bff fetch request_id r = elim (fetch (build_init r request_id)) [
    | returns res ↦ received request_id res
    | api_error e ↦ api_error e
    | throws message ↦ throws message
  ]
