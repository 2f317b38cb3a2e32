-- ===== src/Web/Api/Calls/Wikis.antt =====
-- The namespace `wikis` of websites/src/lib/api/browser/index.ts.
use rag_chat_cli.Prelude.{◌++◌, none, some}
use rag_chat_cli.Text.{Text, codes}
use rag_chat_cli.Web.Api.{Json}
use rag_chat_cli.Web.Api.Browser.{BffRequest}

pub data Call : Type 0 where
  get : (wiki_id : Text) → Call
  update : (wiki_id : Text) → (body : Json) → Call
  remove : (wiki_id : Text) → Call
  list_members : (wiki_id : Text) → Call
  add_member : (wiki_id : Text) → (body : Json) → Call
  update_member_role : (wiki_id : Text) → (user_id : Text) → (body : Json) → Call
  remove_member : (wiki_id : Text) → (user_id : Text) → Call
  list_pages : (wiki_id : Text) → Call
  create_page : (wiki_id : Text) → (body : Json) → Call

unfoldable pub request : Call → BffRequest
request (get wiki_id) = record {
  method = none;
  path = codes "/api/wikis/" ++ wiki_id;
  query = none;
  body = none;
}
request (update wiki_id body) = record {
  method = some (codes "PATCH");
  path = codes "/api/wikis/" ++ wiki_id;
  query = none;
  body = some body;
}
request (remove wiki_id) = record {
  method = some (codes "DELETE");
  path = codes "/api/wikis/" ++ wiki_id;
  query = none;
  body = none;
}
request (list_members wiki_id) = record {
  method = none;
  path = codes "/api/wikis/" ++ (wiki_id ++ codes "/members");
  query = none;
  body = none;
}
request (add_member wiki_id body) = record {
  method = some (codes "POST");
  path = codes "/api/wikis/" ++ (wiki_id ++ codes "/members");
  query = none;
  body = some body;
}
request (update_member_role wiki_id user_id body) = record {
  method = some (codes "PATCH");
  path = codes "/api/wikis/" ++ (wiki_id ++ (codes "/members/" ++ user_id));
  query = none;
  body = some body;
}
request (remove_member wiki_id user_id) = record {
  method = some (codes "DELETE");
  path = codes "/api/wikis/" ++ (wiki_id ++ (codes "/members/" ++ user_id));
  query = none;
  body = none;
}
request (list_pages wiki_id) = record {
  method = none;
  path = codes "/api/wikis/" ++ (wiki_id ++ codes "/pages");
  query = none;
  body = none;
}
request (create_page wiki_id body) = record {
  method = some (codes "POST");
  path = codes "/api/wikis/" ++ (wiki_id ++ codes "/pages");
  query = none;
  body = some body;
}
