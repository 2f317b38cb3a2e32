-- ===== src/Web/Api/Forwards/WikiPages.antt =====
-- The calls of the namespace `wikiPages`.
use rag_chat_cli.Prelude.{true, [], some, ◌≡◌, refl}
use rag_chat_cli.Text.{Text, codes, same, split, consed}
use rag_chat_cli.Web.Api.Calls.WikiPages.{
  Call, request, get, update, remove, move, duplicate, create_share, get_share,
}
use rag_chat_cli.Web.Api.Routes.{routed}
use rag_chat_cli.Web.Api.Router.{Treatment, as_ok, as_it_is, asked, find_route, nullish}
use rag_chat_cli.Web.Api.Forwards.{
  is_segment, plain, nonempty, split-unbroken, split-segment, forwarded,
}

-- The ids in a path are segments, and none is taken for a folder of the routes.
unfoldable pub IsSound : Call → Type 0
IsSound (get page_id) = (is_segment page_id ≡ true)
IsSound (update page_id body) = (is_segment page_id ≡ true)
IsSound (remove page_id) = (is_segment page_id ≡ true)
IsSound (move page_id body) = (is_segment page_id ≡ true)
IsSound (duplicate page_id) = (is_segment page_id ≡ true)
IsSound (create_share page_id) = (is_segment page_id ≡ true)
IsSound (get_share page_id) = (is_segment page_id ≡ true)

-- What the caller gets of the value that the backend returns.
unfoldable pub treatment : Call → Treatment
treatment (remove page_id) = as_ok
treatment _ = as_it_is

pub forwards :
    (token : Text) (c : Call)
    → IsSound c
    → asked token (routed find_route (request c))
      ≡ some (forwarded [] (some token) (request c), treatment c)
unfolding treatment IsSound asked routed request split consed find_route same nullish
forwards access (get page_id) h =
    rw (split-unbroken page_id (plain page_id h), nonempty page_id h) refl
forwards access (update page_id body) h =
    rw (split-unbroken page_id (plain page_id h), nonempty page_id h) refl
forwards access (remove page_id) h =
    rw (split-unbroken page_id (plain page_id h), nonempty page_id h) refl
forwards access (move page_id body) h =
    rw (split-segment page_id (codes "move") (plain page_id h), nonempty page_id h) refl
forwards access (duplicate page_id) h =
    rw (split-segment page_id (codes "duplicate") (plain page_id h), nonempty page_id h) refl
forwards access (create_share page_id) h =
    rw (split-segment page_id (codes "share") (plain page_id h), nonempty page_id h) refl
forwards access (get_share page_id) h =
    rw (split-segment page_id (codes "share") (plain page_id h), nonempty page_id h) refl
