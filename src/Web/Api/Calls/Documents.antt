-- ===== src/Web/Api/Calls/Documents.antt =====
-- The namespace `documents` of websites/src/lib/api/browser/index.ts.
use rag_chat_cli.Prelude.{◌++◌, none, some}
use rag_chat_cli.Text.{Text, codes}
use rag_chat_cli.Web.Api.{Json}
use rag_chat_cli.Web.Api.Browser.{BffRequest}

pub data Call : Type 0 where
  list : Call
  create : (body : Json) → Call
  get : (document_id : Text) → Call
  update : (document_id : Text) → (body : Json) → Call
  remove : (document_id : Text) → Call

unfoldable pub request : Call → BffRequest
request list = record { method = none; path = codes "/api/documents"; query = none; body = none }
request (create body) = record {
  method = some (codes "POST");
  path = codes "/api/documents";
  query = none;
  body = some body;
}
request (get document_id) = record {
  method = none;
  path = codes "/api/documents/" ++ document_id;
  query = none;
  body = none;
}
request (update document_id body) = record {
  method = some (codes "PATCH");
  path = codes "/api/documents/" ++ document_id;
  query = none;
  body = some body;
}
request (remove document_id) = record {
  method = some (codes "DELETE");
  path = codes "/api/documents/" ++ document_id;
  query = none;
  body = none;
}
