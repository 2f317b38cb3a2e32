-- ===== src/Web/Api/Forwards/Wikis.antt =====
-- The calls of the namespace `wikis`.
use rag_chat_cli.Prelude.{true, [], ◌++◌, some, ◌≡◌, refl}
use rag_chat_cli.Text.{Text, codes, same, split, consed}
use rag_chat_cli.Web.Api.Calls.Wikis.{
  Call, request, get, update, remove, list_members, add_member, update_member_role, remove_member,
  list_pages, create_page,
}
use rag_chat_cli.Web.Api.Routes.{routed}
use rag_chat_cli.Web.Api.Router.{Treatment, as_ok, as_it_is, asked, find_route, nullish}
use rag_chat_cli.Web.Api.Forwards.{
  is_segment, plain, nonempty, split-unbroken, split-segment, forwarded,
}

-- The ids in a path are segments, and none is taken for a folder of the routes.
unfoldable pub IsSound : Call → Type 0
IsSound (get wiki_id) = (is_segment wiki_id ≡ true)
IsSound (update wiki_id body) = (is_segment wiki_id ≡ true)
IsSound (remove wiki_id) = (is_segment wiki_id ≡ true)
IsSound (list_members wiki_id) = (is_segment wiki_id ≡ true)
IsSound (add_member wiki_id body) = (is_segment wiki_id ≡ true)
IsSound (update_member_role wiki_id user_id body) =
    (is_segment wiki_id ≡ true) × (is_segment user_id ≡ true)
IsSound (remove_member wiki_id user_id) = (is_segment wiki_id ≡ true) × (is_segment user_id ≡ true)
IsSound (list_pages wiki_id) = (is_segment wiki_id ≡ true)
IsSound (create_page wiki_id body) = (is_segment wiki_id ≡ true)

-- What the caller gets of the value that the backend returns.
unfoldable pub treatment : Call → Treatment
treatment (remove wiki_id) = as_ok
treatment (remove_member wiki_id user_id) = as_ok
treatment _ = as_it_is

pub forwards :
    (token : Text) (c : Call)
    → IsSound c
    → asked token (routed find_route (request c))
      ≡ some (forwarded [] (some token) (request c), treatment c)
unfolding treatment IsSound asked routed request split consed find_route same nullish
forwards access (get wiki_id) h =
    rw (split-unbroken wiki_id (plain wiki_id h), nonempty wiki_id h) refl
forwards access (update wiki_id body) h =
    rw (split-unbroken wiki_id (plain wiki_id h), nonempty wiki_id h) refl
forwards access (remove wiki_id) h =
    rw (split-unbroken wiki_id (plain wiki_id h), nonempty wiki_id h) refl
forwards access (list_members wiki_id) h =
    rw (split-segment wiki_id (codes "members") (plain wiki_id h), nonempty wiki_id h) refl
forwards access (add_member wiki_id body) h =
    rw (split-segment wiki_id (codes "members") (plain wiki_id h), nonempty wiki_id h) refl
forwards access (update_member_role wiki_id user_id body) h =
    rw
      (
        split-segment wiki_id (codes "members/" ++ user_id) (plain wiki_id h.0),
        nonempty wiki_id h.0,
        split-unbroken user_id (plain user_id h.1),
        nonempty user_id h.1,
      )
      refl
forwards access (remove_member wiki_id user_id) h =
    rw
      (
        split-segment wiki_id (codes "members/" ++ user_id) (plain wiki_id h.0),
        nonempty wiki_id h.0,
        split-unbroken user_id (plain user_id h.1),
        nonempty user_id h.1,
      )
      refl
forwards access (list_pages wiki_id) h =
    rw (split-segment wiki_id (codes "pages") (plain wiki_id h), nonempty wiki_id h) refl
forwards access (create_page wiki_id body) h =
    rw (split-segment wiki_id (codes "pages") (plain wiki_id h), nonempty wiki_id h) refl
