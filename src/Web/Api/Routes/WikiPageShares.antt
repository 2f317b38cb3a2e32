-- ===== src/Web/Api/Routes/WikiPageShares.antt =====
-- The routes below websites/src/app/api/wiki-page-shares.
use rag_chat_cli.Prelude.{List, [], ◌∷◌, if◌then◌else◌}
use rag_chat_cli.Text.{Text, codes, same}
use rag_chat_cli.Web.Api.{Json}
use rag_chat_cli.Web.Api.Upstreams.Wiki
use rag_chat_cli.Web.Api.Router.{Answer, acknowledges, open_to_all, not_allowed, dynamic, Route}

-- wiki-page-shares/[token]/route.ts
unfoldable pub at_token : (method : Text) (params : List Text) (body : Json) → Answer
unfolding Wiki.fetch_page_share_public Wiki.revoke_page_share
at_token method (share_token ∷ []) body =
    if same method (codes "GET")
    then open_to_all (Wiki.fetch_page_share_public share_token)
    else if same method (codes "DELETE")
    then acknowledges (λ token. Wiki.revoke_page_share token share_token)
    else not_allowed
at_token method _ body = not_allowed

unfoldable pub routes : List Route
unfolding at_token
routes = record { pattern = dynamic ∷ []; handler = at_token } ∷ []
