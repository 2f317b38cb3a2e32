-- ===== src/Web/Api/Upstreams/Providers.antt =====
-- The requests of websites/src/lib/api/server/providers.ts. What they do with the answer is left out.
use rag_chat_cli.Prelude.{[], ◌++◌, none, some}
use rag_chat_cli.Text.{Text, codes}
use rag_chat_cli.Web.Api.{Json, object, no_members, member}
use rag_chat_cli.Web.Api.Server.{FetchOptions}

unfoldable pub list_providers : (token : Text) → FetchOptions
list_providers token = record {
  path = codes "/providers";
  method = none;
  token = some token;
  body = none;
  query = [];
  request_id = none;
}

unfoldable pub create_provider : (token : Text) → (body : Json) → FetchOptions
create_provider token body = record {
  path = codes "/providers";
  method = some (codes "POST");
  token = some token;
  body = some body;
  query = [];
  request_id = none;
}

unfoldable pub update_provider : (token : Text) → (id : Text) → (body : Json) → FetchOptions
update_provider token id body = record {
  path = codes "/providers/" ++ id;
  method = some (codes "PATCH");
  token = some token;
  body = some body;
  query = [];
  request_id = none;
}

unfoldable pub delete_provider : (token : Text) → (id : Text) → FetchOptions
delete_provider token id = record {
  path = codes "/providers/" ++ id;
  method = some (codes "DELETE");
  token = some token;
  body = none;
  query = [];
  request_id = none;
}

unfoldable pub list_provider_models : (token : Text) → (id : Text) → FetchOptions
list_provider_models token id = record {
  path = codes "/providers/" ++ (id ++ codes "/models");
  method = none;
  token = some token;
  body = none;
  query = [];
  request_id = none;
}

unfoldable pub delete_provider_model : (token : Text) → (id : Text) → (model : Json) → FetchOptions
delete_provider_model token id model = record {
  path = codes "/providers/" ++ (id ++ codes "/models/delete");
  method = some (codes "POST");
  token = some token;
  body = some (object (member (codes "model") model no_members));
  query = [];
  request_id = none;
}

unfoldable pub upsert_model_meta : (token : Text) → (id : Text) → (body : Json) → FetchOptions
upsert_model_meta token id body = record {
  path = codes "/providers/" ++ (id ++ codes "/models/meta");
  method = some (codes "POST");
  token = some token;
  body = some body;
  query = [];
  request_id = none;
}

unfoldable pub show_provider_model : (token : Text) → (id : Text) → (model : Json) → FetchOptions
show_provider_model token id model = record {
  path = codes "/providers/" ++ (id ++ codes "/models/show");
  method = some (codes "POST");
  token = some token;
  body = some (object (member (codes "model") model no_members));
  query = [];
  request_id = none;
}

unfoldable pub list_running_models : (token : Text) → (id : Text) → FetchOptions
list_running_models token id = record {
  path = codes "/providers/" ++ (id ++ codes "/ps");
  method = none;
  token = some token;
  body = none;
  query = [];
  request_id = none;
}

unfoldable pub test_provider : (token : Text) → (body : Json) → FetchOptions
test_provider token body = record {
  path = codes "/providers/test";
  method = some (codes "POST");
  token = some token;
  body = some body;
  query = [];
  request_id = none;
}

unfoldable pub get_preferences : (token : Text) → FetchOptions
get_preferences token = record {
  path = codes "/me/preferences";
  method = none;
  token = some token;
  body = none;
  query = [];
  request_id = none;
}

unfoldable pub update_preferences : (token : Text) → (body : Json) → FetchOptions
update_preferences token body = record {
  path = codes "/me/preferences";
  method = some (codes "PUT");
  token = some token;
  body = some body;
  query = [];
  request_id = none;
}
