-- ===== src/Web/Api/Calls/Providers.antt =====
-- The namespace `providers` of websites/src/lib/api/browser/index.ts, less its streams.
use rag_chat_cli.Prelude.{◌++◌, Option, none, some}
use rag_chat_cli.Text.{Text, codes}
use rag_chat_cli.Web.Api.{Json, null, string, object, no_members, member}
use rag_chat_cli.Web.Api.Browser.{BffRequest}

-- A text, or null.
abbrev pub nullable : Option Text → Json
nullable none = null
nullable (some t) = string t

pub data Call : Type 0 where
  list : Call
  create : (body : Json) → Call
  update : (provider_id : Text) → (body : Json) → Call
  remove : (provider_id : Text) → Call
  test : (body : Json) → Call
  list_models : (provider_id : Text) → Call
  delete_model : (provider_id : Text) → (model : Text) → Call
  upsert_model_meta : (provider_id : Text) → (model : Text) → (description : Option Text) → Call
  show_model : (provider_id : Text) → (model : Text) → Call
  list_running_models : (provider_id : Text) → Call

unfoldable pub request : Call → BffRequest
request list = record { method = none; path = codes "/api/providers"; query = none; body = none }
request (create body) = record {
  method = some (codes "POST");
  path = codes "/api/providers";
  query = none;
  body = some body;
}
request (update provider_id body) = record {
  method = some (codes "PATCH");
  path = codes "/api/providers/" ++ provider_id;
  query = none;
  body = some body;
}
request (remove provider_id) = record {
  method = some (codes "DELETE");
  path = codes "/api/providers/" ++ provider_id;
  query = none;
  body = none;
}
request (test body) = record {
  method = some (codes "POST");
  path = codes "/api/providers/test";
  query = none;
  body = some body;
}
request (list_models provider_id) = record {
  method = none;
  path = codes "/api/providers/" ++ (provider_id ++ codes "/models");
  query = none;
  body = none;
}
request (delete_model provider_id model) = record {
  method = some (codes "POST");
  path = codes "/api/providers/" ++ (provider_id ++ codes "/models/delete");
  query = none;
  body = some (object (member (codes "model") (string model) no_members));
}
request (upsert_model_meta provider_id model description) = record {
  method = some (codes "POST");
  path = codes "/api/providers/" ++ (provider_id ++ codes "/models/meta");
  query = none;
  body = some (
      object (
        member (codes "model") (string model)
          (member (codes "description") (nullable description) no_members)));
}
request (show_model provider_id model) = record {
  method = some (codes "POST");
  path = codes "/api/providers/" ++ (provider_id ++ codes "/models/show");
  query = none;
  body = some (object (member (codes "model") (string model) no_members));
}
request (list_running_models provider_id) = record {
  method = none;
  path = codes "/api/providers/" ++ (provider_id ++ codes "/ps");
  query = none;
  body = none;
}
