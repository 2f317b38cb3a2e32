-- ===== src/Web/Api/Routes/Shares.antt =====
-- The routes below websites/src/app/api/shares.
use rag_chat_cli.Prelude.{List, [], ◌∷◌, if◌then◌else◌}
use rag_chat_cli.Text.{Text, codes, same}
use rag_chat_cli.Web.Api.{Json}
use rag_chat_cli.Web.Api.Upstreams.Shares
use rag_chat_cli.Web.Api.Router.{
  Answer, passes_on, acknowledges, open_to_all, not_allowed, dynamic, Route,
}

-- shares/route.ts
unfoldable pub at_root : (method : Text) (params : List Text) (body : Json) → Answer
unfolding Shares.list_my_shares Shares.create_share
at_root method [] body =
    if same method (codes "GET")
    then passes_on (λ token. Shares.list_my_shares token)
    else if same method (codes "POST")
    then passes_on (λ token. Shares.create_share token body)
    else not_allowed
at_root method _ body = not_allowed

-- shares/[token]/route.ts
unfoldable pub at_token : (method : Text) (params : List Text) (body : Json) → Answer
unfolding Shares.fetch_share_public Shares.revoke_share
at_token method (share_token ∷ []) body =
    if same method (codes "GET")
    then open_to_all (Shares.fetch_share_public share_token)
    else if same method (codes "DELETE")
    then acknowledges (λ token. Shares.revoke_share token share_token)
    else not_allowed
at_token method _ body = not_allowed

unfoldable pub routes : List Route
unfolding at_root at_token
routes =
    record { pattern = []; handler = at_root }
    ∷ record { pattern = dynamic ∷ []; handler = at_token }
    ∷ []
