-- ===== src/Web/Api/Forwards/Chat.antt =====
-- The calls of the namespace `chat`.
use rag_chat_cli.Prelude.{true, false, [], none, some, ◌≡◌, refl, arith, Bool-cases, inl, inr}
use rag_chat_cli.Text.{Text, codes, same, split, consed}
use rag_chat_cli.Web.Api.Calls.Chat.{
  Call, request, list_sessions, create_session, update_session, delete_session, get_messages,
  get_message_evaluation, evaluate_message, session_from_share, session_from_wiki,
}
use rag_chat_cli.Web.Api.Routes.{routed}
use rag_chat_cli.Web.Api.Router.{Treatment, as_page, as_ok, as_it_is, asked, find_route, nullish}
use rag_chat_cli.Web.Api.Forwards.{
  is_segment, plain, nonempty, split-unbroken, split-segment, forwarded,
}

-- The ids in a path are segments, and none is taken for a folder of the routes.
unfoldable pub IsSound : Call → Type 0
IsSound list_sessions = Unit
IsSound (create_session none) = true ≡ false
IsSound (create_session (some title)) = Unit
IsSound (update_session session_id body) =
    (is_segment session_id ≡ true) × (same (codes "from-share") session_id ≡ false)
IsSound (delete_session session_id) =
    (is_segment session_id ≡ true) × (same (codes "from-share") session_id ≡ false)
IsSound (get_messages session_id) =
    (is_segment session_id ≡ true) × (same (codes "from-wiki") session_id ≡ false)
IsSound (get_message_evaluation message_id) = (is_segment message_id ≡ true)
IsSound (evaluate_message message_id) = (is_segment message_id ≡ true)
IsSound (session_from_share token) = Unit
IsSound (session_from_wiki page_id) = (is_segment page_id ≡ true)

-- What the caller gets of the value that the backend returns.
unfoldable pub treatment : Call → Treatment
treatment list_sessions = as_page
treatment (get_messages session_id) = as_page
treatment (delete_session session_id) = as_ok
treatment _ = as_it_is

pub forwards :
    (token : Text) (c : Call)
    → IsSound c
    → asked token (routed find_route (request c))
      ≡ some (forwarded [] (some token) (request c), treatment c)
unfolding treatment IsSound asked routed request split consed find_route same nullish
forwards access list_sessions h = refl
forwards access (create_session none) h = ground (arith, h)
forwards access (create_session (some title)) h = refl
forwards access (update_session session_id body) h =
    rw (split-unbroken session_id (plain session_id h.0), nonempty session_id h.0, h.1) refl
forwards access (delete_session session_id) h =
    rw (split-unbroken session_id (plain session_id h.0), nonempty session_id h.0, h.1) refl
forwards access (get_messages session_id) h =
    rw
      (
        split-segment session_id (codes "messages") (plain session_id h.0),
        nonempty session_id h.0,
        h.1,
      )
      refl
forwards access (get_message_evaluation message_id) h =
    rw (split-segment message_id (codes "evaluation") (plain message_id h), nonempty message_id h)
      refl
forwards access (evaluate_message message_id) h =
    rw (split-segment message_id (codes "evaluation") (plain message_id h), nonempty message_id h)
      refl
forwards access (session_from_share token) h = refl
forwards access (session_from_wiki page_id) h =
    elim (Bool-cases (same (codes "evaluation") page_id)) [
      | inl e ↦ rw (split-unbroken page_id (plain page_id h), nonempty page_id h, e) refl
      | inr e ↦ rw (split-unbroken page_id (plain page_id h), nonempty page_id h, e) refl
    ]
