-- ===== src/Web/Api/Routes/Wikis.antt =====
-- The routes below websites/src/app/api/wikis.
use rag_chat_cli.Prelude.{List, [], ◌∷◌, if◌then◌else◌}
use rag_chat_cli.Text.{Text, codes, same}
use rag_chat_cli.Web.Api.{Json}
use rag_chat_cli.Web.Api.Upstreams.Wiki
use rag_chat_cli.Web.Api.Router.{
  Answer, passes_on, acknowledges, not_allowed, fixed, dynamic, Route,
}

-- wikis/[wikiId]/route.ts
unfoldable pub at_wiki_id : (method : Text) (params : List Text) (body : Json) → Answer
unfolding Wiki.get_wiki Wiki.update_wiki Wiki.delete_wiki
at_wiki_id method (wiki_id ∷ []) body =
    if same method (codes "GET")
    then passes_on (λ token. Wiki.get_wiki token wiki_id)
    else if same method (codes "PATCH")
    then passes_on (λ token. Wiki.update_wiki token wiki_id body)
    else if same method (codes "DELETE")
    then acknowledges (λ token. Wiki.delete_wiki token wiki_id)
    else not_allowed
at_wiki_id method _ body = not_allowed

-- wikis/[wikiId]/members/route.ts
unfoldable pub at_wiki_id_members : (method : Text) (params : List Text) (body : Json) → Answer
unfolding Wiki.list_wiki_members Wiki.add_wiki_member
at_wiki_id_members method (wiki_id ∷ []) body =
    if same method (codes "GET")
    then passes_on (λ token. Wiki.list_wiki_members token wiki_id)
    else if same method (codes "POST")
    then passes_on (λ token. Wiki.add_wiki_member token wiki_id body)
    else not_allowed
at_wiki_id_members method _ body = not_allowed

-- wikis/[wikiId]/members/[userId]/route.ts
unfoldable pub at_wiki_id_members_user_id :
    (method : Text) (params : List Text) (body : Json) → Answer
unfolding Wiki.update_wiki_member Wiki.remove_wiki_member
at_wiki_id_members_user_id method (wiki_id ∷ user_id ∷ []) body =
    if same method (codes "PATCH")
    then passes_on (λ token. Wiki.update_wiki_member token wiki_id user_id body)
    else if same method (codes "DELETE")
    then acknowledges (λ token. Wiki.remove_wiki_member token wiki_id user_id)
    else not_allowed
at_wiki_id_members_user_id method _ body = not_allowed

-- wikis/[wikiId]/pages/route.ts
unfoldable pub at_wiki_id_pages : (method : Text) (params : List Text) (body : Json) → Answer
unfolding Wiki.list_pages Wiki.create_page
at_wiki_id_pages method (wiki_id ∷ []) body =
    if same method (codes "GET")
    then passes_on (λ token. Wiki.list_pages token wiki_id)
    else if same method (codes "POST")
    then passes_on (λ token. Wiki.create_page token wiki_id body)
    else not_allowed
at_wiki_id_pages method _ body = not_allowed

unfoldable pub routes : List Route
unfolding at_wiki_id at_wiki_id_members at_wiki_id_members_user_id at_wiki_id_pages
routes =
    record { pattern = dynamic ∷ []; handler = at_wiki_id }
    ∷ record { pattern = dynamic ∷ fixed (codes "members") ∷ []; handler = at_wiki_id_members }
    ∷ record {
      pattern = dynamic ∷ fixed (codes "members") ∷ dynamic ∷ [];
      handler = at_wiki_id_members_user_id;
    }
    ∷ record { pattern = dynamic ∷ fixed (codes "pages") ∷ []; handler = at_wiki_id_pages }
    ∷ []
