-- ===== src/Web/Api/Server.antt =====
-- The backend's end of a call, `apiFetch` of websites/src/lib/api/server/client.ts. Resolving a URL is a
-- parameter. A form in place of a JSON body is left out.
use rag_chat_cli.Prelude.{not, List, ◌++◌, Option, none, some, get_or, or_else, ◌==◌, if◌then◌else◌}
use rag_chat_cli.Text.{Text, codes, is_empty}
use rag_chat_cli.Web.Api.{
  Json, string, field_of, as_string, HttpResponse, is_ok, is_json, ApiError, Outcome, returns,
  api_error, throws, http_code,
}

pub record FetchOptions : Type 0 where
  pub path : Text
  pub method : Option Text
  pub token : Option Text
  pub body : Option Json
  pub query : List (Text × Option Text)
  pub request_id : Option Text

-- What `fetch` is called with.
pub record Upstream : Type 0 where
  pub url : Text
  pub method : Text
  pub authorization : Option Text
  pub content_type : Option Text
  pub request_id : Text
  pub body : Option Text

-- `token ? { Authorization: ... } : {}`
authorization_of : Option Text → Option Text
authorization_of none = none
authorization_of (some t) = if is_empty t then none else some (codes "Bearer " ++ t)

module _ (resolve : Text → List (Text × Option Text) → Text) (json_stringify : Json → Text)
    (json_parse : Text → Option Json) where
  text_of : Option Json → Option Text
  text_of none = none
  text_of (some j) = some (json_stringify j)

  content_type_of : Option Json → Option Text
  content_type_of none = none
  content_type_of (some j) = some (codes "application/json")

  -- The request, with the id of the incoming one and a new one to fall back on.
  unfoldable pub build_upstream : FetchOptions → Option Text → Text → Upstream
  unfolding authorization_of text_of content_type_of
  build_upstream o incoming fresh = record {
    url = resolve o.path o.query;
    method = get_or o.method (codes "GET");
    authorization = authorization_of o.token;
    content_type = content_type_of o.body;
    request_id = get_or (or_else o.request_id incoming) fresh;
    body = text_of o.body;
  }

  -- `parseBody`: `undefined` without content, and `null` for a text that does not parse.
  unfoldable pub parse_payload : HttpResponse → Option Json
  parse_payload res =
      if res.status == 204
      then none
      else if is_json res.content_type
      then some (get_or (json_parse res.body) Json.null)
      else some (string res.body)

  -- `parseError`
  unfoldable pub parse_error : HttpResponse → Option Json → Text → ApiError
  parse_error res payload request_id = record {
    status = res.status;
    code = get_or (as_string (field_of (codes "code") payload)) (http_code res.status);
    message =
        get_or
          (or_else (as_string (field_of (codes "detail") payload))
            (as_string (field_of (codes "message") payload)))
          (if is_empty res.status_text then codes "Request failed" else res.status_text);
    details = payload;
    request_id = some request_id;
  }

  -- `apiFetch` behind its `fetch`.
  unfoldable pub answered : Text → HttpResponse → Outcome (Option Json)
  unfolding parse_payload parse_error
  answered request_id res =
      let payload = parse_payload res in
      if not (is_ok res.status)
      then api_error (parse_error res payload request_id)
      else returns payload

  unfoldable pub api_fetch :
      (Upstream → Outcome HttpResponse) → Option Text → Text → FetchOptions → Outcome (Option Json)
  unfolding build_upstream answered
  api_fetch fetch incoming fresh o =
      let sent = build_upstream o incoming fresh in
      elim (fetch sent) [
        | returns res ↦ answered sent.request_id res
        | api_error e ↦ api_error e
        | throws message ↦ throws message
      ]
