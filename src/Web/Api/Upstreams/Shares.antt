-- ===== src/Web/Api/Upstreams/Shares.antt =====
-- The requests of websites/src/lib/api/server/shares.ts. What they do with the answer is left out.
use rag_chat_cli.Prelude.{[], ◌++◌, none, some}
use rag_chat_cli.Text.{Text, codes}
use rag_chat_cli.Web.Api.{Json, object, no_members, member}
use rag_chat_cli.Web.Api.Server.{FetchOptions}

unfoldable pub create_share : (token : Text) → (body : Json) → FetchOptions
create_share token body = record {
  path = codes "/shares";
  method = some (codes "POST");
  token = some token;
  body = some body;
  query = [];
  request_id = none;
}

unfoldable pub list_my_shares : (token : Text) → FetchOptions
list_my_shares token = record {
  path = codes "/shares";
  method = none;
  token = some token;
  body = none;
  query = [];
  request_id = none;
}

unfoldable pub revoke_share : (token : Text) → (share_token : Text) → FetchOptions
revoke_share token share_token = record {
  path = codes "/shares/" ++ share_token;
  method = some (codes "DELETE");
  token = some token;
  body = none;
  query = [];
  request_id = none;
}

unfoldable pub fetch_share_public : (share_token : Text) → FetchOptions
fetch_share_public share_token = record {
  path = codes "/shares/" ++ share_token;
  method = none;
  token = none;
  body = none;
  query = [];
  request_id = none;
}

unfoldable pub fork_from_share : (token : Text) → (share_token : Json) → FetchOptions
fork_from_share token share_token = record {
  path = codes "/chat/sessions/from-share";
  method = some (codes "POST");
  token = some token;
  body = some (object (member (codes "token") share_token no_members));
  query = [];
  request_id = none;
}
