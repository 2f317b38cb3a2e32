-- ===== src/Web/Api/Bff/Passes.antt =====
-- What the browser's client makes of the responses of the BFF's wrapper.
use rag_chat_cli.Prelude.{
  ℕ, false, List, [], ◌∷◌, Option, none, some, get_or, ◌==◌, ◌≡◌, refl, ap, arith, if◌then◌else◌,
  Option-cases, inl, inr,
}
use rag_chat_cli.Text.{Text, codes, same, is_empty, index_of}
use rag_chat_cli.Web.Api.{Json, is_ok, ApiError, Outcome, returns, api_error, throws}
use rag_chat_cli.Web.Api.Browser.{received, to_api_error, parse_body}
use rag_chat_cli.Web.Api.Bff.{
  error_body, json_response, bff_error, bff_error_from_api, bff_error_from, respond,
  unauthenticated, with_token,
}

abbrev pub error_of_bff : (status : ℕ) (code message : Text) (request_id : Text) → ApiError
error_of_bff status code message request_id = record {
  status = status;
  code = code;
  message = message;
  details = none;
  request_id = some request_id;
}

-- What the caller in the browser is to see of an outcome behind the BFF.
unfoldable pub passed_on : (request_id : Text) → Outcome (Option Json) → Outcome (Option Json)
passed_on request_id (returns (some j)) = returns (some j)
passed_on request_id (returns none) =
    api_error (
      error_of_bff 502 (codes "UPSTREAM_ERROR") (codes "Value is not JSON serializable") request_id)
passed_on request_id (api_error e) = api_error (record {
  status = e.status;
  code = e.code;
  message = e.message;
  details = e.details;
  request_id = some (get_or e.request_id request_id);
})
passed_on request_id (throws message) =
    api_error (error_of_bff 502 (codes "UPSTREAM_ERROR") message request_id)

unfoldable pub passed_on_with :
    (request_id : Text) → Option Text → (Text → Outcome (Option Json)) → Outcome (Option Json)
unfolding passed_on
passed_on_with request_id none inner =
    api_error
      (error_of_bff 401 (codes "UNAUTHENTICATED") (codes "Session expired or missing.") request_id)
passed_on_with request_id (some token) inner =
    let o = passed_on request_id (inner token) in
    if is_empty token
    then api_error (
        error_of_bff 401 (codes "UNAUTHENTICATED") (codes "Session expired or missing.") request_id)
    else o

-- The errors of a call have the status of an error.
unfoldable pub HasErrorStatus : Outcome (Option Json) → Type 0
HasErrorStatus (returns j) = Unit
HasErrorStatus (api_error e) = is_ok e.status ≡ false
HasErrorStatus (throws message) = Unit

error-has-content : (status : ℕ) → is_ok status ≡ false → (status == 204) ≡ false
error-has-content status h = ground (arith, h)

module _ (params : List (Text × Text) → Text) (json_stringify : Json → Text)
    (json_parse : Text → Option Json) (parse_message : Text → Text)
    (codec : (j : Json) → json_parse (json_stringify j) ≡ some j) where
  parse_body-json_response :
      (status : ℕ) (request_id : Option Text) (j : Json)
      → (status == 204) ≡ false
      → parse_body params json_stringify json_parse parse_message
          (json_response json_stringify status request_id j)
        ≡ returns (some j)
  unfolding parse_body index_of
  parse_body-json_response status request_id j h = rw (h, codec j)

  to_api_error-error_body :
      (code message : Text) (status : ℕ) (details : Option Json) (request_id : Text) (j : Json)
      → to_api_error params json_stringify json_parse parse_message
          (json_response json_stringify status (some request_id) j)
          (some (error_body code message details (some request_id)))
          request_id
        ≡ record {
          status = status;
          code = code;
          message = message;
          details = details;
          request_id = some request_id;
        }
  unfolding to_api_error error_body same is_empty
  to_api_error-error_body code message status none [] j = refl
  to_api_error-error_body code message status none (c ∷ request_id) j = refl
  to_api_error-error_body code message status (some d) [] j = refl
  to_api_error-error_body code message status (some d) (c ∷ request_id) j = refl

  pub received-bff_error :
      (mine code message : Text) (status : ℕ) (details : Option Json) (request_id : Text)
      → is_ok status ≡ false
      → received params json_stringify json_parse parse_message mine
          (bff_error json_stringify code message status details (some request_id))
        ≡ api_error (record {
          status = status;
          code = code;
          message = message;
          details = details;
          request_id = some request_id;
        })
  unfolding received bff_error
  received-bff_error mine code message status details request_id h =
      rw
        (
          parse_body-json_response status (some request_id)
              (error_body code message details (some request_id)) (error-has-content status h),
          h,
        )
        (ap api_error (to_api_error-error_body code message status details request_id Json.null))

  pub received-respond :
      (mine request_id : Text) (o : Outcome (Option Json))
      → HasErrorStatus o
      → received params json_stringify json_parse parse_message mine
          (respond json_stringify request_id o)
        ≡ passed_on request_id o
  unfolding respond passed_on bff_error_from bff_error_from_api HasErrorStatus
  received-respond mine request_id (returns (some j)) h =
      unfold received in rw (parse_body-json_response 200 (some request_id) j refl) refl
  received-respond mine request_id (returns none) h =
      received-bff_error mine _ _ 502 none request_id refl
  received-respond mine request_id (api_error e) h = elim (Option-cases e.request_id) [
    | inl n ↦ rw n (received-bff_error mine e.code e.message e.status e.details request_id h)
    | inr (id, n) ↦ rw n (received-bff_error mine e.code e.message e.status e.details id h)
  ]
  received-respond mine request_id (throws message) h =
      received-bff_error mine _ message 502 none request_id refl

  -- Where the errors of a route's call have the status of an error, the browser's client makes of the
  -- BFF's response what the call returned, or an error with the code, message and details of the
  -- call's; it makes UNAUTHENTICATED of a session without a token, and UPSTREAM_ERROR of what is thrown.
  pub received-with_token :
      (mine request_id : Text) (token : Option Text) (inner : Text → Outcome (Option Json))
      → ((t : Text) → HasErrorStatus (inner t))
      → received params json_stringify json_parse parse_message mine
          (with_token json_stringify request_id token inner)
        ≡ passed_on_with request_id token inner
  unfolding with_token passed_on_with unauthenticated is_empty
  received-with_token mine request_id none inner h =
      received-bff_error mine _ _ 401 none request_id refl
  received-with_token mine request_id (some []) inner h =
      received-bff_error mine _ _ 401 none request_id refl
  received-with_token mine request_id (some (c ∷ t)) inner h =
      received-respond mine request_id (inner (c ∷ t)) (h (c ∷ t))
