-- ===== src/Web/Api/Router.antt =====
-- How a request of the browser meets a route file below websites/src/app/api. The table of route files
-- stands for the folders; a route is looked up as the framework documents it, with the segments of a
-- path fixed or dynamic, and a fixed one before a dynamic one.
use rag_chat_cli.Prelude.{Bool, not, List, [], ◌∷◌, Option, none, some, get_or, if◌then◌else◌}
use rag_chat_cli.Text.{Text, same, is_empty}
use rag_chat_cli.Web.Api.{Json, null, object, no_members, field_of}
use rag_chat_cli.Web.Api.Server.{FetchOptions}

-- What a route does: it passes on what the backend returns, or the items of the page that it returns, or
-- answers `{ ok: true }` behind it, with the access token of the session; or it asks without one.
pub data Answer : Type 0 where
  passes_on : (Text → FetchOptions) → Answer
  unwraps : (Text → FetchOptions) → Answer
  acknowledges : (Text → FetchOptions) → Answer
  open_to_all : FetchOptions → Answer
  not_allowed : Answer

-- What becomes of the value that the backend returns: it stays as it is, it is taken for a page whose
-- items count, or it is dropped for `{ ok: true }`.
pub data Treatment : Type 0 where
  as_it_is as_page as_ok : Treatment

-- What the backend is asked for a session with this access token, and what becomes of its answer.
unfoldable pub asked : (token : Text) → Option Answer → Option (FetchOptions × Treatment)
asked token none = none
asked token (some (passes_on f)) = some (f token, as_it_is)
asked token (some (unwraps f)) = some (f token, as_page)
asked token (some (acknowledges f)) = some (f token, as_ok)
asked token (some (open_to_all o)) = some (o, as_it_is)
asked token (some not_allowed) = none

-- `body[key] ?? d`
unfoldable pub nullish : Option Json → Json → Json
nullish none d = d
nullish (some null) d = d
nullish (some j) d = j

abbrev pub given_or : Text → Json → Json → Json
given_or key body d = nullish (field_of key (some body)) d

pub data Segment : Type 0 where
  fixed : Text → Segment
  dynamic : Segment

pub record Route : Type 0 where
  pub pattern : List Segment
  pub handler : (method : Text) (params : List Text) (body : Json) → Answer

unfoldable pub prepend : Text → Option (List Text) → Option (List Text)
prepend s none = none
prepend s (some ps) = some (s ∷ ps)

unfoldable pub only_if : Bool → Option (List Text) → Option (List Text)
only_if b none = none
only_if b (some ps) = if b then some ps else none

-- The params of a path that a pattern matches.
unfoldable pub matched : List Segment → List Text → Option (List Text)
unfolding prepend only_if is_empty
matched [] [] = some []
matched (fixed t ∷ ps) (s ∷ ss) = only_if (same t s) (matched ps ss)
matched (dynamic ∷ ps) (s ∷ ss) = only_if (not (is_empty s)) (prepend s (matched ps ss))
matched _ _ = none

unfoldable pub handled :
    Route → (method : Text) (body : Json) → Option (List Text) → Option Answer → Option Answer
handled r method body none later = later
handled r method body (some params) later = some (r.handler method params body)

-- The first route of a table that matches.
unfoldable pub find_route : List Route → (method : Text) (body : Json) → List Text → Option Answer
unfolding matched handled
find_route [] method body ss = none
find_route (r ∷ rs) method body ss =
    handled r method body (matched r.pattern ss) (find_route rs method body ss)

-- `readJson`: the body, or an empty object.
abbrev pub read_json : Option Json → Json
read_json body = get_or body (object no_members)
