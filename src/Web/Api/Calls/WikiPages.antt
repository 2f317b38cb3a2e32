-- ===== src/Web/Api/Calls/WikiPages.antt =====
-- The namespace `wikiPages` of websites/src/lib/api/browser/index.ts.
use rag_chat_cli.Prelude.{◌++◌, none, some}
use rag_chat_cli.Text.{Text, codes}
use rag_chat_cli.Web.Api.{Json}
use rag_chat_cli.Web.Api.Browser.{BffRequest}

pub data Call : Type 0 where
  get : (page_id : Text) → Call
  update : (page_id : Text) → (body : Json) → Call
  remove : (page_id : Text) → Call
  move : (page_id : Text) → (body : Json) → Call
  duplicate : (page_id : Text) → Call
  create_share : (page_id : Text) → Call
  get_share : (page_id : Text) → Call

unfoldable pub request : Call → BffRequest
request (get page_id) = record {
  method = none;
  path = codes "/api/wiki-pages/" ++ page_id;
  query = none;
  body = none;
}
request (update page_id body) = record {
  method = some (codes "PATCH");
  path = codes "/api/wiki-pages/" ++ page_id;
  query = none;
  body = some body;
}
request (remove page_id) = record {
  method = some (codes "DELETE");
  path = codes "/api/wiki-pages/" ++ page_id;
  query = none;
  body = none;
}
request (move page_id body) = record {
  method = some (codes "POST");
  path = codes "/api/wiki-pages/" ++ (page_id ++ codes "/move");
  query = none;
  body = some body;
}
request (duplicate page_id) = record {
  method = some (codes "POST");
  path = codes "/api/wiki-pages/" ++ (page_id ++ codes "/duplicate");
  query = none;
  body = none;
}
request (create_share page_id) = record {
  method = some (codes "POST");
  path = codes "/api/wiki-pages/" ++ (page_id ++ codes "/share");
  query = none;
  body = none;
}
request (get_share page_id) = record {
  method = none;
  path = codes "/api/wiki-pages/" ++ (page_id ++ codes "/share");
  query = none;
  body = none;
}
