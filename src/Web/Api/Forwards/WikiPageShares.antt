-- ===== src/Web/Api/Forwards/WikiPageShares.antt =====
-- The calls of the namespace `wikiPageShares`.
use rag_chat_cli.Prelude.{true, [], Option, none, some, ◌≡◌, refl}
use rag_chat_cli.Text.{Text, same, split, consed}
use rag_chat_cli.Web.Api.Calls.WikiPageShares.{Call, request, get_public, remove}
use rag_chat_cli.Web.Api.Routes.{routed}
use rag_chat_cli.Web.Api.Router.{Treatment, as_ok, as_it_is, asked, find_route, nullish}
use rag_chat_cli.Web.Api.Forwards.{is_segment, plain, nonempty, split-unbroken, forwarded}

-- The ids in a path are segments, and none is taken for a folder of the routes.
unfoldable pub IsSound : Call → Type 0
IsSound (get_public token) = (is_segment token ≡ true)
IsSound (remove token) = (is_segment token ≡ true)

-- Whose token goes along: a public share needs none.
unfoldable pub credential : Text → Call → Option Text
credential token (get_public public) = none
credential token _ = some token

-- What the caller gets of the value that the backend returns.
unfoldable pub treatment : Call → Treatment
treatment (remove share_token) = as_ok
treatment _ = as_it_is

pub forwards :
    (token : Text) (c : Call)
    → IsSound c
    → asked token (routed find_route (request c))
      ≡ some (forwarded [] (credential token c) (request c), treatment c)
unfolding treatment IsSound asked routed request split consed find_route same nullish credential
forwards access (get_public token) h =
    rw (split-unbroken token (plain token h), nonempty token h) refl
forwards access (remove token) h = rw (split-unbroken token (plain token h), nonempty token h) refl
