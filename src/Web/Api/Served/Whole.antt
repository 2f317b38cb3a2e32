-- ===== src/Web/Api/Served/Whole.antt =====
-- What a call of the browser's client returns or throws.
use rag_chat_cli.Prelude.{
  true, false, not, List, Option, none, some, get_or, ◌≡◌, refl, ap, ◌∙◌, arith, if_rec,
}
use rag_chat_cli.Text.{Text, codes, is_empty}
use rag_chat_cli.Web.Api.{
  Json, field_of, no_members, member, null, boolean, number, string, array, object, HttpResponse,
  is_ok, Outcome, returns, api_error, throws,
}
use rag_chat_cli.Web.Api.Browser.{received}
use rag_chat_cli.Web.Api.Server.{FetchOptions, Upstream, api_fetch, answered, parse_error}
use rag_chat_cli.Web.Api.Bff.{respond}
use rag_chat_cli.Web.Api.Bff.Passes.{HasErrorStatus, passed_on, received-respond}
use rag_chat_cli.Web.Api.Router.{
  Answer, Treatment, as_it_is, as_page, as_ok, passes_on, unwraps, acknowledges, open_to_all,
  not_allowed, Route, asked, find_route,
}
use rag_chat_cli.Web.Api.Routes.{routed}
use rag_chat_cli.Web.Api.Calls.{ApiCall, request_of}
use rag_chat_cli.Web.Api.Forwards.{forwarded}
use rag_chat_cli.Web.Api.Forwards.Every.{IsSound, root, credential, treatment, asked-routed}
use rag_chat_cli.Web.Api.Served.{unwrapped, acknowledged, ask, served_by, served}

-- `fetch` gives a response, or throws an error of its own.
unfoldable pub IsFetched : Outcome HttpResponse → Type 0
IsFetched (returns res) = Unit
IsFetched (api_error e) = true ≡ false
IsFetched (throws message) = Unit

-- The items of a value that can be a page: an array has none but itself, and of no value none are read.
unfoldable pub items_of : (unread : Option Json → Text) → Option Json → Outcome (Option Json)
items_of unread none = throws (unread none)
items_of unread (some null) = throws (unread (some null))
items_of unread (some (array is)) = returns (some (array is))
items_of unread (some j) = returns (field_of (codes "items") (some j))

-- What the caller is to get of what the backend's answer comes to.
unfoldable pub kept :
    (unread : Option Json → Text) → Treatment → Outcome (Option Json) → Outcome (Option Json)
unfolding items_of
kept unread as_it_is o = o
kept unread as_page (returns j) = items_of unread j
kept unread as_ok (returns j) =
    returns (some (object (member (codes "ok") (boolean true) no_members)))
kept unread _ (api_error e) = api_error e
kept unread _ (throws message) = throws message

kept-HasErrorStatus :
    (unread : Option Json → Text) (t : Treatment) (o : Outcome (Option Json))
    → HasErrorStatus o
    → HasErrorStatus (kept unread t o)
unfolding kept HasErrorStatus
kept-HasErrorStatus unread as_it_is o h = h
kept-HasErrorStatus unread as_ok (returns j) h = tt
kept-HasErrorStatus unread as_page (returns none) h = tt
kept-HasErrorStatus unread as_page (returns (some null)) h = tt
kept-HasErrorStatus unread as_page (returns (some (boolean b))) h = tt
kept-HasErrorStatus unread as_page (returns (some (number t))) h = tt
kept-HasErrorStatus unread as_page (returns (some (string t))) h = tt
kept-HasErrorStatus unread as_page (returns (some (array is))) h = tt
kept-HasErrorStatus unread as_page (returns (some (object ms))) h = tt
kept-HasErrorStatus unread as_page (api_error e) h = h
kept-HasErrorStatus unread as_page (throws message) h = tt
kept-HasErrorStatus unread as_ok (api_error e) h = h
kept-HasErrorStatus unread as_ok (throws message) h = tt

unwrapped-kept :
    (unread : Option Json → Text) (o : Outcome (Option Json))
    → unwrapped unread o ≡ kept unread as_page o
unfolding unwrapped kept
unwrapped-kept unread (returns none) = refl
unwrapped-kept unread (returns (some null)) = refl
unwrapped-kept unread (returns (some (boolean b))) = refl
unwrapped-kept unread (returns (some (number t))) = refl
unwrapped-kept unread (returns (some (string t))) = refl
unwrapped-kept unread (returns (some (array is))) = refl
unwrapped-kept unread (returns (some (object ms))) = refl
unwrapped-kept unread (api_error e) = refl
unwrapped-kept unread (throws message) = refl

acknowledged-kept :
    (unread : Option Json → Text) (o : Outcome (Option Json)) → acknowledged o ≡ kept unread as_ok o
unfolding acknowledged kept
acknowledged-kept unread (returns j) = refl
acknowledged-kept unread (api_error e) = refl
acknowledged-kept unread (throws message) = refl

module _ (params : List (Text × Text) → Text) (json_stringify : Json → Text)
    (json_parse : Text → Option Json) (parse_message : Text → Text)
    (codec : (j : Json) → json_parse (json_stringify j) ≡ some j)
    (resolve : Text → List (Text × Option Text) → Text) (fetch : Upstream → Outcome HttpResponse)
    (fetched : (u : Upstream) → IsFetched (fetch u)) (fresh : Text) (missing : HttpResponse)
    (unread : Option Json → Text) where
  answered-HasErrorStatus :
      (request_id : Text) (res : HttpResponse)
      → HasErrorStatus (answered resolve json_stringify json_parse request_id res)
  unfolding answered HasErrorStatus parse_error
  answered-HasErrorStatus request_id res =
      if_rec HasErrorStatus (not (is_ok res.status)) (λ e. ground (arith, e)) (λ e. tt)

  concluded-HasErrorStatus :
      (request_id : Text) (o : Outcome HttpResponse)
      → IsFetched o
      → HasErrorStatus (elim o [
        | returns res ↦ answered resolve json_stringify json_parse request_id res
        | api_error e ↦ api_error e
        | throws message ↦ throws message
      ])
  unfolding IsFetched HasErrorStatus
  concluded-HasErrorStatus request_id (returns res) h = answered-HasErrorStatus request_id res
  concluded-HasErrorStatus request_id (api_error e) h = ground (arith, h)
  concluded-HasErrorStatus request_id (throws message) h = tt

  ask-HasErrorStatus :
      (request_id : Text) (o : FetchOptions)
      → HasErrorStatus
          (ask json_stringify json_parse resolve fetch fresh missing unread request_id o)
  unfolding ask api_fetch
  ask-HasErrorStatus request_id o = concluded-HasErrorStatus _ (fetch _) (fetched _)

  abbrev comes_to : Text → FetchOptions → Outcome (Option Json)
  comes_to request_id o =
      ask json_stringify json_parse resolve fetch fresh missing unread request_id o

  abbrev responded : (mine request_id : Text) → Outcome (Option Json) → Outcome (Option Json)
  responded mine request_id o =
      received params json_stringify json_parse parse_message mine
        (respond json_stringify request_id o)

  -- The response with one treatment, where the request and the treatment are the expected ones.
  received-kept :
      (mine request_id : Text) (t u : Treatment) (p o : FetchOptions)
      → ◌≡◌ {A = Option (FetchOptions × Treatment)} (some (p, t)) (some (o, u))
      → received params json_stringify json_parse parse_message mine
          (respond json_stringify request_id (kept unread t (comes_to request_id p)))
        ≡ passed_on request_id (kept unread u (comes_to request_id o))
  received-kept mine request_id t u p o h =
      received-respond params json_stringify json_parse parse_message codec mine request_id
        (kept unread t (comes_to request_id p))
        (kept-HasErrorStatus unread t (comes_to request_id p) (ask-HasErrorStatus request_id p))
      ∙ ap (λ q. passed_on request_id (kept unread q.1 (comes_to request_id q.0)))
          (ap (λ q. get_or q (o, u)) h)

  received-served_by :
      (mine request_id token : Text) (answer : Option Answer) (o : FetchOptions) (u : Treatment)
      → is_empty token ≡ false
      → asked token answer ≡ some (o, u)
      → received params json_stringify json_parse parse_message mine (
          served_by json_stringify json_parse resolve fetch fresh missing unread request_id
            (some token)
            answer)
        ≡ passed_on request_id (kept unread u (comes_to request_id o))
  unfolding served_by asked kept
  received-served_by mine request_id token none o u full h = ground (arith, h)
  received-served_by mine request_id token (some not_allowed) o u full h = ground (arith, h)
  received-served_by mine request_id token (some (passes_on f)) o u full h =
      rw full (received-kept mine request_id as_it_is u (f token) o h)
  received-served_by mine request_id token (some (unwraps f)) o u full h = rw full (
      ap (responded mine request_id) (unwrapped-kept unread (comes_to request_id (f token)))
      ∙ received-kept mine request_id as_page u (f token) o h)
  received-served_by mine request_id token (some (acknowledges f)) o u full h = rw full (
      ap (responded mine request_id) (acknowledged-kept unread (comes_to request_id (f token)))
      ∙ received-kept mine request_id as_ok u (f token) o h)
  received-served_by mine request_id token (some (open_to_all p)) o u full h =
      received-kept mine request_id as_it_is u p o h

  -- Where JSON reads back what it writes, fetch gives a response or throws an error of its own, the
  -- framework looks routes up as documented, and the session has a token that is not empty: every call
  -- of the methods modelled, those that ask for JSON in the namespaces chat, providers, me, orgs, wikis,
  -- wikiPages, wikiPageShares, bookmarks, shares and documents, with sound ids, returns what the same
  -- request of the backend, below the backend's path for it, comes to, the items of it where a list can
  -- be a page, or `{ ok: true }` for most removals, and throws an error with the same status, code,
  -- message and details, or UPSTREAM_ERROR for what is thrown there or has no items.
  pub received-served :
      (lookup : List Route → Text → Json → List Text → Option Answer)
      → ((rs : List Route) (method : Text) (body : Json) (ss : List Text)
          → lookup rs method body ss ≡ find_route rs method body ss)
      → (mine request_id token : Text) (c : ApiCall) → is_empty token ≡ false
      → IsSound c
      → received params json_stringify json_parse parse_message mine (
          served json_stringify json_parse resolve fetch fresh missing unread lookup request_id
            (some token)
            (request_of c))
        ≡ passed_on request_id (
            kept unread
              (treatment c)
              (comes_to request_id (forwarded (root c) (credential token c) (request_of c))))
  unfolding served
  received-served lookup documented mine request_id token c full h =
      received-served_by mine request_id token (routed lookup (request_of c)) _ _ full
        (asked-routed lookup documented token c h)
