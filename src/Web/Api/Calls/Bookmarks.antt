-- ===== src/Web/Api/Calls/Bookmarks.antt =====
-- The namespace `bookmarks` of websites/src/lib/api/browser/index.ts.
use rag_chat_cli.Prelude.{◌++◌, none, some}
use rag_chat_cli.Text.{Text, codes}
use rag_chat_cli.Web.Api.{Json}
use rag_chat_cli.Web.Api.Browser.{BffRequest}

pub data Call : Type 0 where
  list : Call
  list_full : Call
  create : (body : Json) → Call
  remove : (id : Text) → Call

unfoldable pub request : Call → BffRequest
request list = record { method = none; path = codes "/api/bookmarks"; query = none; body = none }
request list_full = record {
  method = none;
  path = codes "/api/bookmarks/full";
  query = none;
  body = none;
}
request (create body) = record {
  method = some (codes "POST");
  path = codes "/api/bookmarks";
  query = none;
  body = some body;
}
request (remove id) = record {
  method = some (codes "DELETE");
  path = codes "/api/bookmarks/" ++ id;
  query = none;
  body = none;
}
