-- ===== src/Web/Api/Upstreams/Bookmarks.antt =====
-- The requests of websites/src/lib/api/server/bookmarks.ts. What they do with the answer is left out.
use rag_chat_cli.Prelude.{[], ◌++◌, none, some}
use rag_chat_cli.Text.{Text, codes}
use rag_chat_cli.Web.Api.{Json}
use rag_chat_cli.Web.Api.Server.{FetchOptions}

unfoldable pub create_bookmark : (token : Text) → (body : Json) → FetchOptions
create_bookmark token body = record {
  path = codes "/bookmarks";
  method = some (codes "POST");
  token = some token;
  body = some body;
  query = [];
  request_id = none;
}

unfoldable pub list_bookmarks : (token : Text) → FetchOptions
list_bookmarks token = record {
  path = codes "/bookmarks";
  method = none;
  token = some token;
  body = none;
  query = [];
  request_id = none;
}

unfoldable pub list_bookmarks_full : (token : Text) → FetchOptions
list_bookmarks_full token = record {
  path = codes "/bookmarks/full";
  method = none;
  token = some token;
  body = none;
  query = [];
  request_id = none;
}

unfoldable pub delete_bookmark : (token : Text) → (bookmark_id : Text) → FetchOptions
delete_bookmark token bookmark_id = record {
  path = codes "/bookmarks/" ++ bookmark_id;
  method = some (codes "DELETE");
  token = some token;
  body = none;
  query = [];
  request_id = none;
}
