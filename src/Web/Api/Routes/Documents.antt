-- ===== src/Web/Api/Routes/Documents.antt =====
-- The routes below websites/src/app/api/documents.
use rag_chat_cli.Prelude.{List, [], ◌∷◌, if◌then◌else◌}
use rag_chat_cli.Text.{Text, codes, same}
use rag_chat_cli.Web.Api.{Json}
use rag_chat_cli.Web.Api.Upstreams.Knowledge
use rag_chat_cli.Web.Api.Router.{
  Answer, passes_on, unwraps, acknowledges, not_allowed, dynamic, Route,
}

-- documents/route.ts
unfoldable pub at_root : (method : Text) (params : List Text) (body : Json) → Answer
unfolding Knowledge.list_documents Knowledge.add_document
at_root method [] body =
    if same method (codes "GET")
    then unwraps (λ token. Knowledge.list_documents token)
    else if same method (codes "POST")
    then passes_on (λ token. Knowledge.add_document token body)
    else not_allowed
at_root method _ body = not_allowed

-- documents/[documentId]/route.ts
unfoldable pub at_document_id : (method : Text) (params : List Text) (body : Json) → Answer
unfolding Knowledge.get_document Knowledge.update_document Knowledge.delete_document
at_document_id method (document_id ∷ []) body =
    if same method (codes "GET")
    then passes_on (λ token. Knowledge.get_document token document_id)
    else if same method (codes "PATCH")
    then passes_on (λ token. Knowledge.update_document token document_id body)
    else if same method (codes "DELETE")
    then acknowledges (λ token. Knowledge.delete_document token document_id)
    else not_allowed
at_document_id method _ body = not_allowed

unfoldable pub routes : List Route
unfolding at_root at_document_id
routes =
    record { pattern = []; handler = at_root }
    ∷ record { pattern = dynamic ∷ []; handler = at_document_id }
    ∷ []
