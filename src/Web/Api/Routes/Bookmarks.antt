-- ===== src/Web/Api/Routes/Bookmarks.antt =====
-- The routes below websites/src/app/api/bookmarks.
use rag_chat_cli.Prelude.{List, [], ◌∷◌, if◌then◌else◌}
use rag_chat_cli.Text.{Text, codes, same}
use rag_chat_cli.Web.Api.{Json}
use rag_chat_cli.Web.Api.Upstreams.Bookmarks
use rag_chat_cli.Web.Api.Router.{
  Answer, passes_on, acknowledges, not_allowed, fixed, dynamic, Route,
}

-- bookmarks/route.ts
unfoldable pub at_root : (method : Text) (params : List Text) (body : Json) → Answer
unfolding Bookmarks.list_bookmarks Bookmarks.create_bookmark
at_root method [] body =
    if same method (codes "GET")
    then passes_on (λ token. Bookmarks.list_bookmarks token)
    else if same method (codes "POST")
    then passes_on (λ token. Bookmarks.create_bookmark token body)
    else not_allowed
at_root method _ body = not_allowed

-- bookmarks/full/route.ts
unfoldable pub at_full : (method : Text) (params : List Text) (body : Json) → Answer
unfolding Bookmarks.list_bookmarks_full
at_full method [] body =
    if same method (codes "GET")
    then passes_on (λ token. Bookmarks.list_bookmarks_full token)
    else not_allowed
at_full method _ body = not_allowed

-- bookmarks/[id]/route.ts
unfoldable pub at_id : (method : Text) (params : List Text) (body : Json) → Answer
unfolding Bookmarks.delete_bookmark
at_id method (id ∷ []) body =
    if same method (codes "DELETE")
    then acknowledges (λ token. Bookmarks.delete_bookmark token id)
    else not_allowed
at_id method _ body = not_allowed

unfoldable pub routes : List Route
unfolding at_root at_full at_id
routes =
    record { pattern = []; handler = at_root }
    ∷ record { pattern = fixed (codes "full") ∷ []; handler = at_full }
    ∷ record { pattern = dynamic ∷ []; handler = at_id }
    ∷ []
