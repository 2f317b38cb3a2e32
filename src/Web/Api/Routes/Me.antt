-- ===== src/Web/Api/Routes/Me.antt =====
-- The routes below websites/src/app/api/me.
use rag_chat_cli.Prelude.{List, [], ◌∷◌, if◌then◌else◌}
use rag_chat_cli.Text.{Text, codes, same}
use rag_chat_cli.Web.Api.{Json}
use rag_chat_cli.Web.Api.Upstreams.Providers
use rag_chat_cli.Web.Api.Router.{Answer, passes_on, not_allowed, fixed, Route}

-- me/preferences/route.ts
unfoldable pub at_preferences : (method : Text) (params : List Text) (body : Json) → Answer
unfolding Providers.get_preferences Providers.update_preferences
at_preferences method [] body =
    if same method (codes "GET")
    then passes_on (λ token. Providers.get_preferences token)
    else if same method (codes "PUT")
    then passes_on (λ token. Providers.update_preferences token body)
    else not_allowed
at_preferences method _ body = not_allowed

unfoldable pub routes : List Route
unfolding at_preferences
routes = record { pattern = fixed (codes "preferences") ∷ []; handler = at_preferences } ∷ []
