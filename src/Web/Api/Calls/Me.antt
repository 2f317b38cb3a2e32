-- ===== src/Web/Api/Calls/Me.antt =====
-- The namespace `me` of websites/src/lib/api/browser/index.ts.
use rag_chat_cli.Prelude.{none, some}
use rag_chat_cli.Text.{codes}
use rag_chat_cli.Web.Api.{Json}
use rag_chat_cli.Web.Api.Browser.{BffRequest}

pub data Call : Type 0 where
  get_preferences : Call
  update_preferences : (body : Json) → Call

unfoldable pub request : Call → BffRequest
request get_preferences = record {
  method = none;
  path = codes "/api/me/preferences";
  query = none;
  body = none;
}
request (update_preferences body) = record {
  method = some (codes "PUT");
  path = codes "/api/me/preferences";
  query = none;
  body = some body;
}
