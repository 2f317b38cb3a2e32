-- ===== src/Web/Api/Forwards/Me.antt =====
-- The calls of the namespace `me`.
use rag_chat_cli.Prelude.{[], some, ◌≡◌, refl}
use rag_chat_cli.Text.{Text, same, split, consed}
use rag_chat_cli.Web.Api.Calls.Me.{Call, request, get_preferences, update_preferences}
use rag_chat_cli.Web.Api.Routes.{routed}
use rag_chat_cli.Web.Api.Router.{Treatment, as_it_is, asked, find_route, nullish}
use rag_chat_cli.Web.Api.Forwards.{forwarded}

-- The ids in a path are segments, and none is taken for a folder of the routes.
unfoldable pub IsSound : Call → Type 0
IsSound get_preferences = Unit
IsSound (update_preferences body) = Unit

-- What the caller gets of the value that the backend returns.
unfoldable pub treatment : Call → Treatment
treatment c = as_it_is

pub forwards :
    (token : Text) (c : Call)
    → IsSound c
    → asked token (routed find_route (request c))
      ≡ some (forwarded [] (some token) (request c), treatment c)
unfolding treatment IsSound asked routed request split consed find_route same nullish
forwards access get_preferences h = refl
forwards access (update_preferences body) h = refl
