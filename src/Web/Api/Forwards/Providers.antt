-- ===== src/Web/Api/Forwards/Providers.antt =====
-- The calls of the namespace `providers`.
use rag_chat_cli.Prelude.{true, false, [], none, some, ◌≡◌, refl}
use rag_chat_cli.Text.{Text, codes, same, split, consed}
use rag_chat_cli.Web.Api.Calls.Providers.{
  Call, request, list, create, update, remove, test, list_models, delete_model, upsert_model_meta,
  show_model, list_running_models,
}
use rag_chat_cli.Web.Api.Routes.{routed}
use rag_chat_cli.Web.Api.Router.{Treatment, as_ok, as_it_is, asked, find_route, nullish}
use rag_chat_cli.Web.Api.Forwards.{
  is_segment, plain, nonempty, split-unbroken, split-segment, forwarded,
}

-- The ids in a path are segments, and none is taken for a folder of the routes.
unfoldable pub IsSound : Call → Type 0
IsSound list = Unit
IsSound (create body) = Unit
IsSound (update provider_id body) =
    (is_segment provider_id ≡ true) × (same (codes "test") provider_id ≡ false)
IsSound (remove provider_id) =
    (is_segment provider_id ≡ true) × (same (codes "test") provider_id ≡ false)
IsSound (test body) = Unit
IsSound (list_models provider_id) = (is_segment provider_id ≡ true)
IsSound (delete_model provider_id model) = (is_segment provider_id ≡ true)
IsSound (upsert_model_meta provider_id model description) = (is_segment provider_id ≡ true)
IsSound (show_model provider_id model) = (is_segment provider_id ≡ true)
IsSound (list_running_models provider_id) = (is_segment provider_id ≡ true)

-- What the caller gets of the value that the backend returns.
unfoldable pub treatment : Call → Treatment
treatment (remove provider_id) = as_ok
treatment _ = as_it_is

pub forwards :
    (token : Text) (c : Call)
    → IsSound c
    → asked token (routed find_route (request c))
      ≡ some (forwarded [] (some token) (request c), treatment c)
unfolding treatment IsSound asked routed request split consed find_route same nullish
forwards access list h = refl
forwards access (create body) h = refl
forwards access (update provider_id body) h =
    rw (split-unbroken provider_id (plain provider_id h.0), nonempty provider_id h.0, h.1) refl
forwards access (remove provider_id) h =
    rw (split-unbroken provider_id (plain provider_id h.0), nonempty provider_id h.0, h.1) refl
forwards access (test body) h = refl
forwards access (list_models provider_id) h =
    rw (split-segment provider_id (codes "models") (plain provider_id h), nonempty provider_id h)
      refl
forwards access (delete_model provider_id model) h =
    rw
      (
        split-segment provider_id (codes "models/delete") (plain provider_id h),
        nonempty provider_id h,
      )
      refl
forwards access (upsert_model_meta provider_id model none) h =
    rw
      (
        split-segment provider_id (codes "models/meta") (plain provider_id h),
        nonempty provider_id h,
      )
      refl
forwards access (upsert_model_meta provider_id model (some description)) h =
    rw
      (
        split-segment provider_id (codes "models/meta") (plain provider_id h),
        nonempty provider_id h,
      )
      refl
forwards access (show_model provider_id model) h =
    rw
      (
        split-segment provider_id (codes "models/show") (plain provider_id h),
        nonempty provider_id h,
      )
      refl
forwards access (list_running_models provider_id) h =
    rw (split-segment provider_id (codes "ps") (plain provider_id h), nonempty provider_id h) refl
