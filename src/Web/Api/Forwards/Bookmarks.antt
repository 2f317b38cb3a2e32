-- ===== src/Web/Api/Forwards/Bookmarks.antt =====
-- The calls of the namespace `bookmarks`.
use rag_chat_cli.Prelude.{true, false, [], some, ◌≡◌, refl}
use rag_chat_cli.Text.{Text, codes, same, split, consed}
use rag_chat_cli.Web.Api.Calls.Bookmarks.{Call, request, list, list_full, create, remove}
use rag_chat_cli.Web.Api.Routes.{routed}
use rag_chat_cli.Web.Api.Router.{Treatment, as_ok, as_it_is, asked, find_route, nullish}
use rag_chat_cli.Web.Api.Forwards.{is_segment, plain, nonempty, split-unbroken, forwarded}

-- The ids in a path are segments, and none is taken for a folder of the routes.
unfoldable pub IsSound : Call → Type 0
IsSound list = Unit
IsSound list_full = Unit
IsSound (create body) = Unit
IsSound (remove id) = (is_segment id ≡ true) × (same (codes "full") id ≡ false)

-- What the caller gets of the value that the backend returns.
unfoldable pub treatment : Call → Treatment
treatment (remove id) = as_ok
treatment _ = as_it_is

pub forwards :
    (token : Text) (c : Call)
    → IsSound c
    → asked token (routed find_route (request c))
      ≡ some (forwarded [] (some token) (request c), treatment c)
unfolding treatment IsSound asked routed request split consed find_route same nullish
forwards access list h = refl
forwards access list_full h = refl
forwards access (create body) h = refl
forwards access (remove id) h = rw (split-unbroken id (plain id h.0), nonempty id h.0, h.1) refl
