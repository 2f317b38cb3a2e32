-- ===== src/Web/Api/Upstreams/Chat.antt =====
-- The requests of websites/src/lib/api/server/chat.ts. What they make of the
-- answer is in Web.Api.Router and Web.Api.Served.
use rag_chat_cli.Prelude.{[], ◌++◌, Option, none, some}
use rag_chat_cli.Text.{Text, codes}
use rag_chat_cli.Web.Api.{Json, null, string, object, no_members, member}
use rag_chat_cli.Web.Api.Server.{FetchOptions}

-- `typeof bodyOrTitle === "string" || bodyOrTitle === undefined ? { title: bodyOrTitle ?? null } : bodyOrTitle`
abbrev title_body : Option Json → Json
title_body none = object (member (codes "title") null no_members)
title_body (some (string t)) = object (member (codes "title") (string t) no_members)
title_body (some j) = j

unfoldable pub list_sessions : (token : Text) → FetchOptions
list_sessions token = record {
  path = codes "/chat/sessions";
  method = none;
  token = some token;
  body = none;
  query = [];
  request_id = none;
}

unfoldable pub create_session : (token : Text) → (body_or_title : Option Json) → FetchOptions
create_session token body_or_title = record {
  path = codes "/chat/sessions";
  method = some (codes "POST");
  token = some token;
  body = some (title_body body_or_title);
  query = [];
  request_id = none;
}

unfoldable pub update_session : (token : Text) → (session_id : Text) → (body : Json) → FetchOptions
update_session token session_id body = record {
  path = codes "/chat/sessions/" ++ session_id;
  method = some (codes "PATCH");
  token = some token;
  body = some body;
  query = [];
  request_id = none;
}

unfoldable pub delete_session : (token : Text) → (session_id : Text) → FetchOptions
delete_session token session_id = record {
  path = codes "/chat/sessions/" ++ session_id;
  method = some (codes "DELETE");
  token = some token;
  body = none;
  query = [];
  request_id = none;
}

unfoldable pub session_from_wiki : (token : Text) → (page_id : Text) → FetchOptions
session_from_wiki token page_id = record {
  path = codes "/chat/sessions/from-wiki/" ++ page_id;
  method = some (codes "POST");
  token = some token;
  body = none;
  query = [];
  request_id = none;
}

unfoldable pub get_messages : (token : Text) → (session_id : Text) → FetchOptions
get_messages token session_id = record {
  path = codes "/chat/sessions/" ++ (session_id ++ codes "/messages");
  method = none;
  token = some token;
  body = none;
  query = [];
  request_id = none;
}

unfoldable pub get_message_evaluation : (token : Text) → (message_id : Text) → FetchOptions
get_message_evaluation token message_id = record {
  path = codes "/chat/messages/" ++ (message_id ++ codes "/evaluation");
  method = none;
  token = some token;
  body = none;
  query = [];
  request_id = none;
}

unfoldable pub evaluate_message : (token : Text) → (message_id : Text) → FetchOptions
evaluate_message token message_id = record {
  path = codes "/chat/messages/" ++ (message_id ++ codes "/evaluation");
  method = some (codes "POST");
  token = some token;
  body = none;
  query = [];
  request_id = none;
}
