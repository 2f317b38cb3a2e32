-- ===== src/Web/Api/Routes/WikiPages.antt =====
-- The routes below websites/src/app/api/wiki-pages.
use rag_chat_cli.Prelude.{List, [], ◌∷◌, if◌then◌else◌}
use rag_chat_cli.Text.{Text, codes, same}
use rag_chat_cli.Web.Api.{Json}
use rag_chat_cli.Web.Api.Upstreams.Wiki
use rag_chat_cli.Web.Api.Router.{
  Answer, passes_on, acknowledges, not_allowed, fixed, dynamic, Route,
}

-- wiki-pages/[pageId]/route.ts
unfoldable pub at_page_id : (method : Text) (params : List Text) (body : Json) → Answer
unfolding Wiki.get_page Wiki.update_page Wiki.delete_page
at_page_id method (page_id ∷ []) body =
    if same method (codes "GET")
    then passes_on (λ token. Wiki.get_page token page_id)
    else if same method (codes "PATCH")
    then passes_on (λ token. Wiki.update_page token page_id body)
    else if same method (codes "DELETE")
    then acknowledges (λ token. Wiki.delete_page token page_id)
    else not_allowed
at_page_id method _ body = not_allowed

-- wiki-pages/[pageId]/duplicate/route.ts
unfoldable pub at_page_id_duplicate : (method : Text) (params : List Text) (body : Json) → Answer
unfolding Wiki.duplicate_page
at_page_id_duplicate method (page_id ∷ []) body =
    if same method (codes "POST")
    then passes_on (λ token. Wiki.duplicate_page token page_id)
    else not_allowed
at_page_id_duplicate method _ body = not_allowed

-- wiki-pages/[pageId]/move/route.ts
unfoldable pub at_page_id_move : (method : Text) (params : List Text) (body : Json) → Answer
unfolding Wiki.move_page
at_page_id_move method (page_id ∷ []) body =
    if same method (codes "POST")
    then passes_on (λ token. Wiki.move_page token page_id body)
    else not_allowed
at_page_id_move method _ body = not_allowed

-- wiki-pages/[pageId]/share/route.ts
unfoldable pub at_page_id_share : (method : Text) (params : List Text) (body : Json) → Answer
unfolding Wiki.create_page_share Wiki.get_page_share
at_page_id_share method (page_id ∷ []) body =
    if same method (codes "POST")
    then passes_on (λ token. Wiki.create_page_share token page_id)
    else if same method (codes "GET")
    then passes_on (λ token. Wiki.get_page_share token page_id)
    else not_allowed
at_page_id_share method _ body = not_allowed

unfoldable pub routes : List Route
unfolding at_page_id at_page_id_duplicate at_page_id_move at_page_id_share
routes =
    record { pattern = dynamic ∷ []; handler = at_page_id }
    ∷ record { pattern = dynamic ∷ fixed (codes "duplicate") ∷ []; handler = at_page_id_duplicate }
    ∷ record { pattern = dynamic ∷ fixed (codes "move") ∷ []; handler = at_page_id_move }
    ∷ record { pattern = dynamic ∷ fixed (codes "share") ∷ []; handler = at_page_id_share }
    ∷ []
