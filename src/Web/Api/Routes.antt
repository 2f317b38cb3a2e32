-- ===== src/Web/Api/Routes.antt =====
-- The routes of the BFF, websites/src/app/api, that pass a call on to the backend. The
-- framework's lookup of a route among the files of a folder is a parameter.
pub mod Chat
pub mod Providers
pub mod Me
pub mod Orgs
pub mod Wikis
pub mod WikiPages
pub mod Bookmarks
pub mod WikiPageShares
pub mod Shares
pub mod Documents
use rag_chat_cli.Prelude.{List, [], ◌∷◌, Option, none, some, get_or, if◌then◌else◌}
use rag_chat_cli.Text.{Text, codes, same, split}
use rag_chat_cli.Web.Api.{Json}
use rag_chat_cli.Web.Api.Browser.{BffRequest}
use rag_chat_cli.Web.Api.Router.{Answer, Route, read_json}

-- The folders below websites/src/app/api.
unfoldable pub folder : Text → List Route
unfolding Chat.routes Providers.routes Me.routes Orgs.routes Wikis.routes WikiPages.routes
    Bookmarks.routes WikiPageShares.routes Shares.routes Documents.routes
folder s =
    if same s (codes "chat")
    then Chat.routes
    else if same s (codes "providers")
    then Providers.routes
    else if same s (codes "me")
    then Me.routes
    else if same s (codes "orgs")
    then Orgs.routes
    else if same s (codes "wikis")
    then Wikis.routes
    else if same s (codes "wiki-pages")
    then WikiPages.routes
    else if same s (codes "bookmarks")
    then Bookmarks.routes
    else if same s (codes "wiki-page-shares")
    then WikiPageShares.routes
    else if same s (codes "shares")
    then Shares.routes
    else if same s (codes "documents")
    then Documents.routes
    else []

module _ (lookup : List Route → (method : Text) (body : Json) → List Text → Option Answer) where
  -- The route of a path's segments; the path begins with `/`.
  unfoldable pub route_of : (method : Text) (body : Json) → List Text → Option Answer
  unfolding folder
  route_of method body ([] ∷ api ∷ name ∷ rest) =
      let answer = lookup (folder name) method body rest in
      if same api (codes "api") then answer else none
  route_of method body _ = none

  unfoldable pub routed : BffRequest → Option Answer
  unfolding route_of
  routed r = route_of (get_or r.method (codes "GET")) (read_json r.body) (split b'/' r.path)
