-- ===== src/Web/Api/Calls/Chat.antt =====
-- The namespace `chat` of websites/src/lib/api/browser/index.ts, less its streams.
use rag_chat_cli.Prelude.{◌++◌, Option, none, some}
use rag_chat_cli.Text.{Text, codes}
use rag_chat_cli.Web.Api.{Json, string, object, no_members, member}
use rag_chat_cli.Web.Api.Browser.{BffRequest}

-- `{ title }`, empty where there is none.
abbrev pub titled : Option Text → Json
titled none = object no_members
titled (some t) = object (member (codes "title") (string t) no_members)

pub data Call : Type 0 where
  list_sessions : Call
  create_session : (title : Option Text) → Call
  update_session : (session_id : Text) → (body : Json) → Call
  delete_session : (session_id : Text) → Call
  get_messages : (session_id : Text) → Call
  get_message_evaluation : (message_id : Text) → Call
  evaluate_message : (message_id : Text) → Call
  session_from_share : (token : Text) → Call
  session_from_wiki : (page_id : Text) → Call

unfoldable pub request : Call → BffRequest
request list_sessions = record {
  method = none;
  path = codes "/api/chat/sessions";
  query = none;
  body = none;
}
request (create_session title) = record {
  method = some (codes "POST");
  path = codes "/api/chat/sessions";
  query = none;
  body = some (titled title);
}
request (update_session session_id body) = record {
  method = some (codes "PATCH");
  path = codes "/api/chat/sessions/" ++ session_id;
  query = none;
  body = some body;
}
request (delete_session session_id) = record {
  method = some (codes "DELETE");
  path = codes "/api/chat/sessions/" ++ session_id;
  query = none;
  body = none;
}
request (get_messages session_id) = record {
  method = none;
  path = codes "/api/chat/sessions/" ++ (session_id ++ codes "/messages");
  query = none;
  body = none;
}
request (get_message_evaluation message_id) = record {
  method = none;
  path = codes "/api/chat/messages/" ++ (message_id ++ codes "/evaluation");
  query = none;
  body = none;
}
request (evaluate_message message_id) = record {
  method = some (codes "POST");
  path = codes "/api/chat/messages/" ++ (message_id ++ codes "/evaluation");
  query = none;
  body = none;
}
request (session_from_share token) = record {
  method = some (codes "POST");
  path = codes "/api/chat/sessions/from-share";
  query = none;
  body = some (object (member (codes "token") (string token) no_members));
}
request (session_from_wiki page_id) = record {
  method = some (codes "POST");
  path = codes "/api/chat/sessions/from-wiki/" ++ page_id;
  query = none;
  body = none;
}
