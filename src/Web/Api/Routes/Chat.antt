-- ===== src/Web/Api/Routes/Chat.antt =====
-- The routes below websites/src/app/api/chat, less those of streams.
use rag_chat_cli.Prelude.{List, [], ◌∷◌, some, if◌then◌else◌}
use rag_chat_cli.Text.{Text, codes, same}
use rag_chat_cli.Web.Api.{Json, string, field_of}
use rag_chat_cli.Web.Api.Upstreams.Chat
use rag_chat_cli.Web.Api.Upstreams.Shares
use rag_chat_cli.Web.Api.Router.{
  Answer, passes_on, unwraps, acknowledges, not_allowed, fixed, dynamic, Route, given_or,
}

-- chat/messages/[messageId]/evaluation/route.ts
unfoldable pub at_messages_message_id_evaluation :
    (method : Text) (params : List Text) (body : Json) → Answer
unfolding Chat.get_message_evaluation Chat.evaluate_message
at_messages_message_id_evaluation method (message_id ∷ []) body =
    if same method (codes "GET")
    then passes_on (λ token. Chat.get_message_evaluation token message_id)
    else if same method (codes "POST")
    then passes_on (λ token. Chat.evaluate_message token message_id)
    else not_allowed
at_messages_message_id_evaluation method _ body = not_allowed

-- chat/sessions/route.ts
unfoldable pub at_sessions : (method : Text) (params : List Text) (body : Json) → Answer
unfolding Chat.list_sessions Chat.create_session
at_sessions method [] body =
    if same method (codes "GET")
    then unwraps (λ token. Chat.list_sessions token)
    else if same method (codes "POST")
    then passes_on (λ token. Chat.create_session token (field_of (codes "title") (some body)))
    else not_allowed
at_sessions method _ body = not_allowed

-- chat/sessions/from-share/route.ts
unfoldable pub at_sessions_from_share : (method : Text) (params : List Text) (body : Json) → Answer
unfolding Shares.fork_from_share
at_sessions_from_share method [] body =
    if same method (codes "POST")
    then passes_on
        (λ token. Shares.fork_from_share token (given_or (codes "token") body (string [])))
    else not_allowed
at_sessions_from_share method _ body = not_allowed

-- chat/sessions/from-wiki/[pageId]/route.ts
unfoldable pub at_sessions_from_wiki_page_id :
    (method : Text) (params : List Text) (body : Json) → Answer
unfolding Chat.session_from_wiki
at_sessions_from_wiki_page_id method (page_id ∷ []) body =
    if same method (codes "POST")
    then passes_on (λ token. Chat.session_from_wiki token page_id)
    else not_allowed
at_sessions_from_wiki_page_id method _ body = not_allowed

-- chat/sessions/[sessionId]/route.ts
unfoldable pub at_sessions_session_id : (method : Text) (params : List Text) (body : Json) → Answer
unfolding Chat.update_session Chat.delete_session
at_sessions_session_id method (session_id ∷ []) body =
    if same method (codes "PATCH")
    then passes_on (λ token. Chat.update_session token session_id body)
    else if same method (codes "DELETE")
    then acknowledges (λ token. Chat.delete_session token session_id)
    else not_allowed
at_sessions_session_id method _ body = not_allowed

-- chat/sessions/[sessionId]/messages/route.ts
unfoldable pub at_sessions_session_id_messages :
    (method : Text) (params : List Text) (body : Json) → Answer
unfolding Chat.get_messages
at_sessions_session_id_messages method (session_id ∷ []) body =
    if same method (codes "GET")
    then unwraps (λ token. Chat.get_messages token session_id)
    else not_allowed
at_sessions_session_id_messages method _ body = not_allowed

unfoldable pub routes : List Route
unfolding at_messages_message_id_evaluation at_sessions at_sessions_from_share
    at_sessions_from_wiki_page_id at_sessions_session_id at_sessions_session_id_messages
routes =
    record {
      pattern = fixed (codes "messages") ∷ dynamic ∷ fixed (codes "evaluation") ∷ [];
      handler = at_messages_message_id_evaluation;
    }
    ∷ record { pattern = fixed (codes "sessions") ∷ []; handler = at_sessions }
    ∷ record {
      pattern = fixed (codes "sessions") ∷ fixed (codes "from-share") ∷ [];
      handler = at_sessions_from_share;
    }
    ∷ record {
      pattern = fixed (codes "sessions") ∷ fixed (codes "from-wiki") ∷ dynamic ∷ [];
      handler = at_sessions_from_wiki_page_id;
    }
    ∷ record { pattern = fixed (codes "sessions") ∷ dynamic ∷ []; handler = at_sessions_session_id }
    ∷ record {
      pattern = fixed (codes "sessions") ∷ dynamic ∷ fixed (codes "messages") ∷ [];
      handler = at_sessions_session_id_messages;
    }
    ∷ []
