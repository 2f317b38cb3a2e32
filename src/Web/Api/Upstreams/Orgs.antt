-- ===== src/Web/Api/Upstreams/Orgs.antt =====
-- The requests of websites/src/lib/api/server/orgs.ts. What they do with the answer is left out.
use rag_chat_cli.Prelude.{[], ◌++◌, none, some}
use rag_chat_cli.Text.{Text, codes}
use rag_chat_cli.Web.Api.{Json}
use rag_chat_cli.Web.Api.Server.{FetchOptions}

unfoldable pub list_orgs : (token : Text) → FetchOptions
list_orgs token = record {
  path = codes "/orgs";
  method = none;
  token = some token;
  body = none;
  query = [];
  request_id = none;
}

unfoldable pub create_org : (token : Text) → (body : Json) → FetchOptions
create_org token body = record {
  path = codes "/orgs";
  method = some (codes "POST");
  token = some token;
  body = some body;
  query = [];
  request_id = none;
}

unfoldable pub get_org : (token : Text) → (org_id : Text) → FetchOptions
get_org token org_id = record {
  path = codes "/orgs/" ++ org_id;
  method = none;
  token = some token;
  body = none;
  query = [];
  request_id = none;
}

unfoldable pub update_org : (token : Text) → (org_id : Text) → (body : Json) → FetchOptions
update_org token org_id body = record {
  path = codes "/orgs/" ++ org_id;
  method = some (codes "PATCH");
  token = some token;
  body = some body;
  query = [];
  request_id = none;
}

unfoldable pub delete_org : (token : Text) → (org_id : Text) → FetchOptions
delete_org token org_id = record {
  path = codes "/orgs/" ++ org_id;
  method = some (codes "DELETE");
  token = some token;
  body = none;
  query = [];
  request_id = none;
}

unfoldable pub list_members : (token : Text) → (org_id : Text) → FetchOptions
list_members token org_id = record {
  path = codes "/orgs/" ++ (org_id ++ codes "/members");
  method = none;
  token = some token;
  body = none;
  query = [];
  request_id = none;
}

unfoldable pub add_member : (token : Text) → (org_id : Text) → (body : Json) → FetchOptions
add_member token org_id body = record {
  path = codes "/orgs/" ++ (org_id ++ codes "/members");
  method = some (codes "POST");
  token = some token;
  body = some body;
  query = [];
  request_id = none;
}

unfoldable pub update_member :
    (token : Text) → (org_id : Text) → (user_id : Text) → (body : Json) → FetchOptions
update_member token org_id user_id body = record {
  path = codes "/orgs/" ++ (org_id ++ (codes "/members/" ++ user_id));
  method = some (codes "PATCH");
  token = some token;
  body = some body;
  query = [];
  request_id = none;
}

unfoldable pub remove_member : (token : Text) → (org_id : Text) → (user_id : Text) → FetchOptions
remove_member token org_id user_id = record {
  path = codes "/orgs/" ++ (org_id ++ (codes "/members/" ++ user_id));
  method = some (codes "DELETE");
  token = some token;
  body = none;
  query = [];
  request_id = none;
}

unfoldable pub transfer_ownership : (token : Text) → (org_id : Text) → (body : Json) → FetchOptions
transfer_ownership token org_id body = record {
  path = codes "/orgs/" ++ (org_id ++ codes "/transfer");
  method = some (codes "POST");
  token = some token;
  body = some body;
  query = [];
  request_id = none;
}
