-- ===== src/Web/Api/Upstreams/Wiki.antt =====
-- The requests of websites/src/lib/api/server/wiki.ts. What they do with the answer is left out.
use rag_chat_cli.Prelude.{[], ◌++◌, none, some}
use rag_chat_cli.Text.{Text, codes}
use rag_chat_cli.Web.Api.{Json}
use rag_chat_cli.Web.Api.Server.{FetchOptions}

unfoldable pub list_wikis : (token : Text) → (org_id : Text) → FetchOptions
list_wikis token org_id = record {
  path = codes "/orgs/" ++ (org_id ++ codes "/wikis");
  method = none;
  token = some token;
  body = none;
  query = [];
  request_id = none;
}

unfoldable pub create_wiki : (token : Text) → (org_id : Text) → (body : Json) → FetchOptions
create_wiki token org_id body = record {
  path = codes "/orgs/" ++ (org_id ++ codes "/wikis");
  method = some (codes "POST");
  token = some token;
  body = some body;
  query = [];
  request_id = none;
}

unfoldable pub get_wiki : (token : Text) → (wiki_id : Text) → FetchOptions
get_wiki token wiki_id = record {
  path = codes "/wikis/" ++ wiki_id;
  method = none;
  token = some token;
  body = none;
  query = [];
  request_id = none;
}

unfoldable pub update_wiki : (token : Text) → (wiki_id : Text) → (body : Json) → FetchOptions
update_wiki token wiki_id body = record {
  path = codes "/wikis/" ++ wiki_id;
  method = some (codes "PATCH");
  token = some token;
  body = some body;
  query = [];
  request_id = none;
}

unfoldable pub delete_wiki : (token : Text) → (wiki_id : Text) → FetchOptions
delete_wiki token wiki_id = record {
  path = codes "/wikis/" ++ wiki_id;
  method = some (codes "DELETE");
  token = some token;
  body = none;
  query = [];
  request_id = none;
}

unfoldable pub list_wiki_members : (token : Text) → (wiki_id : Text) → FetchOptions
list_wiki_members token wiki_id = record {
  path = codes "/wikis/" ++ (wiki_id ++ codes "/members");
  method = none;
  token = some token;
  body = none;
  query = [];
  request_id = none;
}

unfoldable pub add_wiki_member : (token : Text) → (wiki_id : Text) → (body : Json) → FetchOptions
add_wiki_member token wiki_id body = record {
  path = codes "/wikis/" ++ (wiki_id ++ codes "/members");
  method = some (codes "POST");
  token = some token;
  body = some body;
  query = [];
  request_id = none;
}

unfoldable pub update_wiki_member :
    (token : Text) → (wiki_id : Text) → (user_id : Text) → (body : Json) → FetchOptions
update_wiki_member token wiki_id user_id body = record {
  path = codes "/wikis/" ++ (wiki_id ++ (codes "/members/" ++ user_id));
  method = some (codes "PATCH");
  token = some token;
  body = some body;
  query = [];
  request_id = none;
}

unfoldable pub remove_wiki_member :
    (token : Text) → (wiki_id : Text) → (user_id : Text) → FetchOptions
remove_wiki_member token wiki_id user_id = record {
  path = codes "/wikis/" ++ (wiki_id ++ (codes "/members/" ++ user_id));
  method = some (codes "DELETE");
  token = some token;
  body = none;
  query = [];
  request_id = none;
}

unfoldable pub list_pages : (token : Text) → (wiki_id : Text) → FetchOptions
list_pages token wiki_id = record {
  path = codes "/wikis/" ++ (wiki_id ++ codes "/pages");
  method = none;
  token = some token;
  body = none;
  query = [];
  request_id = none;
}

unfoldable pub create_page : (token : Text) → (wiki_id : Text) → (body : Json) → FetchOptions
create_page token wiki_id body = record {
  path = codes "/wikis/" ++ (wiki_id ++ codes "/pages");
  method = some (codes "POST");
  token = some token;
  body = some body;
  query = [];
  request_id = none;
}

unfoldable pub get_page : (token : Text) → (page_id : Text) → FetchOptions
get_page token page_id = record {
  path = codes "/wiki-pages/" ++ page_id;
  method = none;
  token = some token;
  body = none;
  query = [];
  request_id = none;
}

unfoldable pub update_page : (token : Text) → (page_id : Text) → (body : Json) → FetchOptions
update_page token page_id body = record {
  path = codes "/wiki-pages/" ++ page_id;
  method = some (codes "PATCH");
  token = some token;
  body = some body;
  query = [];
  request_id = none;
}

unfoldable pub delete_page : (token : Text) → (page_id : Text) → FetchOptions
delete_page token page_id = record {
  path = codes "/wiki-pages/" ++ page_id;
  method = some (codes "DELETE");
  token = some token;
  body = none;
  query = [];
  request_id = none;
}

unfoldable pub duplicate_page : (token : Text) → (page_id : Text) → FetchOptions
duplicate_page token page_id = record {
  path = codes "/wiki-pages/" ++ (page_id ++ codes "/duplicate");
  method = some (codes "POST");
  token = some token;
  body = none;
  query = [];
  request_id = none;
}

unfoldable pub move_page : (token : Text) → (page_id : Text) → (body : Json) → FetchOptions
move_page token page_id body = record {
  path = codes "/wiki-pages/" ++ (page_id ++ codes "/move");
  method = some (codes "POST");
  token = some token;
  body = some body;
  query = [];
  request_id = none;
}

unfoldable pub create_page_share : (token : Text) → (page_id : Text) → FetchOptions
create_page_share token page_id = record {
  path = codes "/wiki-pages/" ++ (page_id ++ codes "/share");
  method = some (codes "POST");
  token = some token;
  body = none;
  query = [];
  request_id = none;
}

unfoldable pub get_page_share : (token : Text) → (page_id : Text) → FetchOptions
get_page_share token page_id = record {
  path = codes "/wiki-pages/" ++ (page_id ++ codes "/share");
  method = none;
  token = some token;
  body = none;
  query = [];
  request_id = none;
}

unfoldable pub revoke_page_share : (token : Text) → (share_token : Text) → FetchOptions
revoke_page_share token share_token = record {
  path = codes "/wiki-page-shares/" ++ share_token;
  method = some (codes "DELETE");
  token = some token;
  body = none;
  query = [];
  request_id = none;
}

unfoldable pub fetch_page_share_public : (share_token : Text) → FetchOptions
fetch_page_share_public share_token = record {
  path = codes "/wiki-page-shares/" ++ share_token;
  method = none;
  token = none;
  body = none;
  query = [];
  request_id = none;
}
