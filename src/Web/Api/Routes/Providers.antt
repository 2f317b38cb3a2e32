-- ===== src/Web/Api/Routes/Providers.antt =====
-- The routes below websites/src/app/api/providers, less those of streams.
use rag_chat_cli.Prelude.{List, [], ◌∷◌, if◌then◌else◌}
use rag_chat_cli.Text.{Text, codes, same}
use rag_chat_cli.Web.Api.{Json, null, string, object, no_members, member}
use rag_chat_cli.Web.Api.Upstreams.Providers
use rag_chat_cli.Web.Api.Router.{
  Answer, passes_on, acknowledges, not_allowed, fixed, dynamic, Route, given_or,
}

-- providers/route.ts
unfoldable pub at_root : (method : Text) (params : List Text) (body : Json) → Answer
unfolding Providers.list_providers Providers.create_provider
at_root method [] body =
    if same method (codes "GET")
    then passes_on (λ token. Providers.list_providers token)
    else if same method (codes "POST")
    then passes_on (λ token. Providers.create_provider token body)
    else not_allowed
at_root method _ body = not_allowed

-- providers/test/route.ts
unfoldable pub at_test : (method : Text) (params : List Text) (body : Json) → Answer
unfolding Providers.test_provider
at_test method [] body =
    if same method (codes "POST")
    then passes_on (λ token. Providers.test_provider token body)
    else not_allowed
at_test method _ body = not_allowed

-- providers/[providerId]/route.ts
unfoldable pub at_provider_id : (method : Text) (params : List Text) (body : Json) → Answer
unfolding Providers.update_provider Providers.delete_provider
at_provider_id method (provider_id ∷ []) body =
    if same method (codes "PATCH")
    then passes_on (λ token. Providers.update_provider token provider_id body)
    else if same method (codes "DELETE")
    then acknowledges (λ token. Providers.delete_provider token provider_id)
    else not_allowed
at_provider_id method _ body = not_allowed

-- providers/[providerId]/models/route.ts
unfoldable pub at_provider_id_models : (method : Text) (params : List Text) (body : Json) → Answer
unfolding Providers.list_provider_models
at_provider_id_models method (provider_id ∷ []) body =
    if same method (codes "GET")
    then passes_on (λ token. Providers.list_provider_models token provider_id)
    else not_allowed
at_provider_id_models method _ body = not_allowed

-- providers/[providerId]/models/delete/route.ts
unfoldable pub at_provider_id_models_delete :
    (method : Text) (params : List Text) (body : Json) → Answer
unfolding Providers.delete_provider_model
at_provider_id_models_delete method (provider_id ∷ []) body =
    if same method (codes "POST")
    then passes_on (λ token.
      Providers.delete_provider_model token provider_id (given_or (codes "model") body (string [])))
    else not_allowed
at_provider_id_models_delete method _ body = not_allowed

-- providers/[providerId]/models/meta/route.ts
unfoldable pub at_provider_id_models_meta :
    (method : Text) (params : List Text) (body : Json) → Answer
unfolding Providers.upsert_model_meta
at_provider_id_models_meta method (provider_id ∷ []) body =
    if same method (codes "POST")
    then passes_on (λ token. Providers.upsert_model_meta token provider_id (
        object (
          member (codes "model") (given_or (codes "model") body (string []))
            (member (codes "description") (given_or (codes "description") body null) no_members))))
    else not_allowed
at_provider_id_models_meta method _ body = not_allowed

-- providers/[providerId]/models/show/route.ts
unfoldable pub at_provider_id_models_show :
    (method : Text) (params : List Text) (body : Json) → Answer
unfolding Providers.show_provider_model
at_provider_id_models_show method (provider_id ∷ []) body =
    if same method (codes "POST")
    then passes_on (λ token.
      Providers.show_provider_model token provider_id (given_or (codes "model") body (string [])))
    else not_allowed
at_provider_id_models_show method _ body = not_allowed

-- providers/[providerId]/ps/route.ts
unfoldable pub at_provider_id_ps : (method : Text) (params : List Text) (body : Json) → Answer
unfolding Providers.list_running_models
at_provider_id_ps method (provider_id ∷ []) body =
    if same method (codes "GET")
    then passes_on (λ token. Providers.list_running_models token provider_id)
    else not_allowed
at_provider_id_ps method _ body = not_allowed

unfoldable pub routes : List Route
unfolding at_root at_test at_provider_id at_provider_id_models at_provider_id_models_delete
    at_provider_id_models_meta at_provider_id_models_show at_provider_id_ps
routes =
    record { pattern = []; handler = at_root }
    ∷ record { pattern = fixed (codes "test") ∷ []; handler = at_test }
    ∷ record { pattern = dynamic ∷ []; handler = at_provider_id }
    ∷ record { pattern = dynamic ∷ fixed (codes "models") ∷ []; handler = at_provider_id_models }
    ∷ record {
      pattern = dynamic ∷ fixed (codes "models") ∷ fixed (codes "delete") ∷ [];
      handler = at_provider_id_models_delete;
    }
    ∷ record {
      pattern = dynamic ∷ fixed (codes "models") ∷ fixed (codes "meta") ∷ [];
      handler = at_provider_id_models_meta;
    }
    ∷ record {
      pattern = dynamic ∷ fixed (codes "models") ∷ fixed (codes "show") ∷ [];
      handler = at_provider_id_models_show;
    }
    ∷ record { pattern = dynamic ∷ fixed (codes "ps") ∷ []; handler = at_provider_id_ps }
    ∷ []
