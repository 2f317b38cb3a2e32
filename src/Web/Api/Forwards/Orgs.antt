-- ===== src/Web/Api/Forwards/Orgs.antt =====
-- The calls of the namespace `orgs`.
use rag_chat_cli.Prelude.{true, [], ◌++◌, some, ◌≡◌, refl}
use rag_chat_cli.Text.{Text, codes, same, split, consed}
use rag_chat_cli.Web.Api.Calls.Orgs.{
  Call, request, list, create, get, update, remove, transfer_ownership, list_members, add_member,
  update_member_role, remove_member, list_wikis, create_wiki,
}
use rag_chat_cli.Web.Api.Routes.{routed}
use rag_chat_cli.Web.Api.Router.{Treatment, as_ok, as_it_is, asked, find_route, nullish}
use rag_chat_cli.Web.Api.Forwards.{
  is_segment, plain, nonempty, split-unbroken, split-segment, forwarded,
}

-- The ids in a path are segments, and none is taken for a folder of the routes.
unfoldable pub IsSound : Call → Type 0
IsSound list = Unit
IsSound (create body) = Unit
IsSound (get org_id) = (is_segment org_id ≡ true)
IsSound (update org_id body) = (is_segment org_id ≡ true)
IsSound (remove org_id) = (is_segment org_id ≡ true)
IsSound (transfer_ownership org_id body) = (is_segment org_id ≡ true)
IsSound (list_members org_id) = (is_segment org_id ≡ true)
IsSound (add_member org_id body) = (is_segment org_id ≡ true)
IsSound (update_member_role org_id user_id body) =
    (is_segment org_id ≡ true) × (is_segment user_id ≡ true)
IsSound (remove_member org_id user_id) = (is_segment org_id ≡ true) × (is_segment user_id ≡ true)
IsSound (list_wikis org_id) = (is_segment org_id ≡ true)
IsSound (create_wiki org_id body) = (is_segment org_id ≡ true)

-- What the caller gets of the value that the backend returns.
unfoldable pub treatment : Call → Treatment
treatment (remove org_id) = as_ok
treatment (remove_member org_id user_id) = as_ok
treatment _ = as_it_is

pub forwards :
    (token : Text) (c : Call)
    → IsSound c
    → asked token (routed find_route (request c))
      ≡ some (forwarded [] (some token) (request c), treatment c)
unfolding treatment IsSound asked routed request split consed find_route same nullish
forwards access list h = refl
forwards access (create body) h = refl
forwards access (get org_id) h = rw (split-unbroken org_id (plain org_id h), nonempty org_id h) refl
forwards access (update org_id body) h =
    rw (split-unbroken org_id (plain org_id h), nonempty org_id h) refl
forwards access (remove org_id) h =
    rw (split-unbroken org_id (plain org_id h), nonempty org_id h) refl
forwards access (transfer_ownership org_id body) h =
    rw (split-segment org_id (codes "transfer") (plain org_id h), nonempty org_id h) refl
forwards access (list_members org_id) h =
    rw (split-segment org_id (codes "members") (plain org_id h), nonempty org_id h) refl
forwards access (add_member org_id body) h =
    rw (split-segment org_id (codes "members") (plain org_id h), nonempty org_id h) refl
forwards access (update_member_role org_id user_id body) h =
    rw
      (
        split-segment org_id (codes "members/" ++ user_id) (plain org_id h.0),
        nonempty org_id h.0,
        split-unbroken user_id (plain user_id h.1),
        nonempty user_id h.1,
      )
      refl
forwards access (remove_member org_id user_id) h =
    rw
      (
        split-segment org_id (codes "members/" ++ user_id) (plain org_id h.0),
        nonempty org_id h.0,
        split-unbroken user_id (plain user_id h.1),
        nonempty user_id h.1,
      )
      refl
forwards access (list_wikis org_id) h =
    rw (split-segment org_id (codes "wikis") (plain org_id h), nonempty org_id h) refl
forwards access (create_wiki org_id body) h =
    rw (split-segment org_id (codes "wikis") (plain org_id h), nonempty org_id h) refl
