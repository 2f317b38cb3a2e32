-- ===== src/Web/Api/Calls/Shares.antt =====
-- The namespace `shares` of websites/src/lib/api/browser/index.ts.
use rag_chat_cli.Prelude.{◌++◌, none, some}
use rag_chat_cli.Text.{Text, codes}
use rag_chat_cli.Web.Api.{Json}
use rag_chat_cli.Web.Api.Browser.{BffRequest}

pub data Call : Type 0 where
  list_mine : Call
  create : (body : Json) → Call
  get_public : (token : Text) → Call
  remove : (token : Text) → Call

unfoldable pub request : Call → BffRequest
request list_mine = record { method = none; path = codes "/api/shares"; query = none; body = none }
request (create body) = record {
  method = some (codes "POST");
  path = codes "/api/shares";
  query = none;
  body = some body;
}
request (get_public token) = record {
  method = none;
  path = codes "/api/shares/" ++ token;
  query = none;
  body = none;
}
request (remove token) = record {
  method = some (codes "DELETE");
  path = codes "/api/shares/" ++ token;
  query = none;
  body = none;
}
