-- ===== src/Web/Api/Upstreams/Knowledge.antt =====
-- The requests of websites/src/lib/api/server/knowledge.ts. What they make of the
-- answer is in Web.Api.Router and Web.Api.Served.
use rag_chat_cli.Prelude.{[], ◌++◌, none, some}
use rag_chat_cli.Text.{Text, codes}
use rag_chat_cli.Web.Api.{Json}
use rag_chat_cli.Web.Api.Server.{FetchOptions}

unfoldable pub list_documents : (token : Text) → FetchOptions
list_documents token = record {
  path = codes "/knowledge/documents";
  method = none;
  token = some token;
  body = none;
  query = [];
  request_id = none;
}

unfoldable pub add_document : (token : Text) → (body : Json) → FetchOptions
add_document token body = record {
  path = codes "/knowledge/documents";
  method = some (codes "POST");
  token = some token;
  body = some body;
  query = [];
  request_id = none;
}

unfoldable pub get_document : (token : Text) → (document_id : Text) → FetchOptions
get_document token document_id = record {
  path = codes "/knowledge/documents/" ++ document_id;
  method = none;
  token = some token;
  body = none;
  query = [];
  request_id = none;
}

unfoldable pub update_document :
    (token : Text) → (document_id : Text) → (body : Json) → FetchOptions
update_document token document_id body = record {
  path = codes "/knowledge/documents/" ++ document_id;
  method = some (codes "PATCH");
  token = some token;
  body = some body;
  query = [];
  request_id = none;
}

unfoldable pub delete_document : (token : Text) → (document_id : Text) → FetchOptions
delete_document token document_id = record {
  path = codes "/knowledge/documents/" ++ document_id;
  method = some (codes "DELETE");
  token = some token;
  body = none;
  query = [];
  request_id = none;
}
