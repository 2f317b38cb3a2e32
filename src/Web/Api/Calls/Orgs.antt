-- ===== src/Web/Api/Calls/Orgs.antt =====
-- The namespace `orgs` of websites/src/lib/api/browser/index.ts.
use rag_chat_cli.Prelude.{◌++◌, none, some}
use rag_chat_cli.Text.{Text, codes}
use rag_chat_cli.Web.Api.{Json}
use rag_chat_cli.Web.Api.Browser.{BffRequest}

pub data Call : Type 0 where
  list : Call
  create : (body : Json) → Call
  get : (org_id : Text) → Call
  update : (org_id : Text) → (body : Json) → Call
  remove : (org_id : Text) → Call
  transfer_ownership : (org_id : Text) → (body : Json) → Call
  list_members : (org_id : Text) → Call
  add_member : (org_id : Text) → (body : Json) → Call
  update_member_role : (org_id : Text) → (user_id : Text) → (body : Json) → Call
  remove_member : (org_id : Text) → (user_id : Text) → Call
  list_wikis : (org_id : Text) → Call
  create_wiki : (org_id : Text) → (body : Json) → Call

unfoldable pub request : Call → BffRequest
request list = record { method = none; path = codes "/api/orgs"; query = none; body = none }
request (create body) = record {
  method = some (codes "POST");
  path = codes "/api/orgs";
  query = none;
  body = some body;
}
request (get org_id) = record {
  method = none;
  path = codes "/api/orgs/" ++ org_id;
  query = none;
  body = none;
}
request (update org_id body) = record {
  method = some (codes "PATCH");
  path = codes "/api/orgs/" ++ org_id;
  query = none;
  body = some body;
}
request (remove org_id) = record {
  method = some (codes "DELETE");
  path = codes "/api/orgs/" ++ org_id;
  query = none;
  body = none;
}
request (transfer_ownership org_id body) = record {
  method = some (codes "POST");
  path = codes "/api/orgs/" ++ (org_id ++ codes "/transfer");
  query = none;
  body = some body;
}
request (list_members org_id) = record {
  method = none;
  path = codes "/api/orgs/" ++ (org_id ++ codes "/members");
  query = none;
  body = none;
}
request (add_member org_id body) = record {
  method = some (codes "POST");
  path = codes "/api/orgs/" ++ (org_id ++ codes "/members");
  query = none;
  body = some body;
}
request (update_member_role org_id user_id body) = record {
  method = some (codes "PATCH");
  path = codes "/api/orgs/" ++ (org_id ++ (codes "/members/" ++ user_id));
  query = none;
  body = some body;
}
request (remove_member org_id user_id) = record {
  method = some (codes "DELETE");
  path = codes "/api/orgs/" ++ (org_id ++ (codes "/members/" ++ user_id));
  query = none;
  body = none;
}
request (list_wikis org_id) = record {
  method = none;
  path = codes "/api/orgs/" ++ (org_id ++ codes "/wikis");
  query = none;
  body = none;
}
request (create_wiki org_id body) = record {
  method = some (codes "POST");
  path = codes "/api/orgs/" ++ (org_id ++ codes "/wikis");
  query = none;
  body = some body;
}
