-- ===== src/Web/Api/Forwards/Documents.antt =====
-- The calls of the namespace `documents`.
use rag_chat_cli.Prelude.{true, some, ◌≡◌, refl}
use rag_chat_cli.Text.{Text, codes, same, split, consed}
use rag_chat_cli.Web.Api.Calls.Documents.{Call, request, list, create, get, update, remove}
use rag_chat_cli.Web.Api.Routes.{routed}
use rag_chat_cli.Web.Api.Router.{Treatment, as_page, as_ok, as_it_is, asked, find_route, nullish}
use rag_chat_cli.Web.Api.Forwards.{is_segment, plain, nonempty, split-unbroken, forwarded}

-- The ids in a path are segments, and none is taken for a folder of the routes.
unfoldable pub IsSound : Call → Type 0
IsSound list = Unit
IsSound (create body) = Unit
IsSound (get document_id) = (is_segment document_id ≡ true)
IsSound (update document_id body) = (is_segment document_id ≡ true)
IsSound (remove document_id) = (is_segment document_id ≡ true)

-- What the caller gets of the value that the backend returns.
unfoldable pub treatment : Call → Treatment
treatment list = as_page
treatment (remove document_id) = as_ok
treatment _ = as_it_is

pub forwards :
    (token : Text) (c : Call)
    → IsSound c
    → asked token (routed find_route (request c))
      ≡ some (forwarded (codes "/knowledge") (some token) (request c), treatment c)
unfolding treatment IsSound asked routed request split consed find_route same nullish
forwards access list h = refl
forwards access (create body) h = refl
forwards access (get document_id) h =
    rw (split-unbroken document_id (plain document_id h), nonempty document_id h) refl
forwards access (update document_id body) h =
    rw (split-unbroken document_id (plain document_id h), nonempty document_id h) refl
forwards access (remove document_id) h =
    rw (split-unbroken document_id (plain document_id h), nonempty document_id h) refl
