-- ===== src/Web/Api/Routes/Orgs.antt =====
-- The routes below websites/src/app/api/orgs.
use rag_chat_cli.Prelude.{List, [], ◌∷◌, if◌then◌else◌}
use rag_chat_cli.Text.{Text, codes, same}
use rag_chat_cli.Web.Api.{Json}
use rag_chat_cli.Web.Api.Upstreams.Orgs
use rag_chat_cli.Web.Api.Upstreams.Wiki
use rag_chat_cli.Web.Api.Router.{
  Answer, passes_on, acknowledges, not_allowed, fixed, dynamic, Route,
}

-- orgs/route.ts
unfoldable pub at_root : (method : Text) (params : List Text) (body : Json) → Answer
unfolding Orgs.list_orgs Orgs.create_org
at_root method [] body =
    if same method (codes "GET")
    then passes_on (λ token. Orgs.list_orgs token)
    else if same method (codes "POST")
    then passes_on (λ token. Orgs.create_org token body)
    else not_allowed
at_root method _ body = not_allowed

-- orgs/[orgId]/route.ts
unfoldable pub at_org_id : (method : Text) (params : List Text) (body : Json) → Answer
unfolding Orgs.get_org Orgs.update_org Orgs.delete_org
at_org_id method (org_id ∷ []) body =
    if same method (codes "GET")
    then passes_on (λ token. Orgs.get_org token org_id)
    else if same method (codes "PATCH")
    then passes_on (λ token. Orgs.update_org token org_id body)
    else if same method (codes "DELETE")
    then acknowledges (λ token. Orgs.delete_org token org_id)
    else not_allowed
at_org_id method _ body = not_allowed

-- orgs/[orgId]/members/route.ts
unfoldable pub at_org_id_members : (method : Text) (params : List Text) (body : Json) → Answer
unfolding Orgs.list_members Orgs.add_member
at_org_id_members method (org_id ∷ []) body =
    if same method (codes "GET")
    then passes_on (λ token. Orgs.list_members token org_id)
    else if same method (codes "POST")
    then passes_on (λ token. Orgs.add_member token org_id body)
    else not_allowed
at_org_id_members method _ body = not_allowed

-- orgs/[orgId]/members/[userId]/route.ts
unfoldable pub at_org_id_members_user_id :
    (method : Text) (params : List Text) (body : Json) → Answer
unfolding Orgs.update_member Orgs.remove_member
at_org_id_members_user_id method (org_id ∷ user_id ∷ []) body =
    if same method (codes "PATCH")
    then passes_on (λ token. Orgs.update_member token org_id user_id body)
    else if same method (codes "DELETE")
    then acknowledges (λ token. Orgs.remove_member token org_id user_id)
    else not_allowed
at_org_id_members_user_id method _ body = not_allowed

-- orgs/[orgId]/transfer/route.ts
unfoldable pub at_org_id_transfer : (method : Text) (params : List Text) (body : Json) → Answer
unfolding Orgs.transfer_ownership
at_org_id_transfer method (org_id ∷ []) body =
    if same method (codes "POST")
    then passes_on (λ token. Orgs.transfer_ownership token org_id body)
    else not_allowed
at_org_id_transfer method _ body = not_allowed

-- orgs/[orgId]/wikis/route.ts
unfoldable pub at_org_id_wikis : (method : Text) (params : List Text) (body : Json) → Answer
unfolding Wiki.list_wikis Wiki.create_wiki
at_org_id_wikis method (org_id ∷ []) body =
    if same method (codes "GET")
    then passes_on (λ token. Wiki.list_wikis token org_id)
    else if same method (codes "POST")
    then passes_on (λ token. Wiki.create_wiki token org_id body)
    else not_allowed
at_org_id_wikis method _ body = not_allowed

unfoldable pub routes : List Route
unfolding at_root at_org_id at_org_id_members at_org_id_members_user_id at_org_id_transfer
    at_org_id_wikis
routes =
    record { pattern = []; handler = at_root }
    ∷ record { pattern = dynamic ∷ []; handler = at_org_id }
    ∷ record { pattern = dynamic ∷ fixed (codes "members") ∷ []; handler = at_org_id_members }
    ∷ record {
      pattern = dynamic ∷ fixed (codes "members") ∷ dynamic ∷ [];
      handler = at_org_id_members_user_id;
    }
    ∷ record { pattern = dynamic ∷ fixed (codes "transfer") ∷ []; handler = at_org_id_transfer }
    ∷ record { pattern = dynamic ∷ fixed (codes "wikis") ∷ []; handler = at_org_id_wikis }
    ∷ []
