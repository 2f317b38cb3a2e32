-- ===== src/Web/Api/Calls/WikiPageShares.antt =====
-- The namespace `wikiPageShares` of websites/src/lib/api/browser/index.ts.
use rag_chat_cli.Prelude.{◌++◌, none, some}
use rag_chat_cli.Text.{Text, codes}
use rag_chat_cli.Web.Api.Browser.{BffRequest}

pub data Call : Type 0 where
  get_public : (token : Text) → Call
  remove : (token : Text) → Call

unfoldable pub request : Call → BffRequest
request (get_public token) = record {
  method = none;
  path = codes "/api/wiki-page-shares/" ++ token;
  query = none;
  body = none;
}
request (remove token) = record {
  method = some (codes "DELETE");
  path = codes "/api/wiki-page-shares/" ++ token;
  query = none;
  body = none;
}
