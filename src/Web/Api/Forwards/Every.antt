-- ===== src/Web/Api/Forwards/Every.antt =====
-- The calls of the browser that Web.Api.Calls has, at the backend.
use rag_chat_cli.Prelude.{List, [], ◌∷◌, Option, some, ◌≡◌, refl, ap, ◌∙◌}
use rag_chat_cli.Text.{Text, codes, split}
use rag_chat_cli.Web.Api.{Json}
use rag_chat_cli.Web.Api.Calls.{
  ApiCall, request_of, chat, providers, me, orgs, wikis, wiki_pages, bookmarks, wiki_page_shares,
  shares, documents,
}
use rag_chat_cli.Web.Api.Router.{Answer, Treatment, Route, asked, find_route}
use rag_chat_cli.Web.Api.Routes.{folder, route_of, routed}
use rag_chat_cli.Web.Api.Forwards.{forwarded}
use rag_chat_cli.Web.Api.Forwards.Chat
use rag_chat_cli.Web.Api.Forwards.Providers
use rag_chat_cli.Web.Api.Forwards.Me
use rag_chat_cli.Web.Api.Forwards.Orgs
use rag_chat_cli.Web.Api.Forwards.Wikis
use rag_chat_cli.Web.Api.Forwards.WikiPages
use rag_chat_cli.Web.Api.Forwards.Bookmarks
use rag_chat_cli.Web.Api.Forwards.WikiPageShares
use rag_chat_cli.Web.Api.Forwards.Shares
use rag_chat_cli.Web.Api.Forwards.Documents

-- The ids of a call are segments of a path, and none is the name of a folder beside it.
unfoldable pub IsSound : ApiCall → Type 0
unfolding Chat.IsSound Providers.IsSound Me.IsSound Orgs.IsSound Wikis.IsSound WikiPages.IsSound
    Bookmarks.IsSound WikiPageShares.IsSound Shares.IsSound Documents.IsSound
IsSound (chat c) = Chat.IsSound c
IsSound (providers c) = Providers.IsSound c
IsSound (me c) = Me.IsSound c
IsSound (orgs c) = Orgs.IsSound c
IsSound (wikis c) = Wikis.IsSound c
IsSound (wiki_pages c) = WikiPages.IsSound c
IsSound (bookmarks c) = Bookmarks.IsSound c
IsSound (wiki_page_shares c) = WikiPageShares.IsSound c
IsSound (shares c) = Shares.IsSound c
IsSound (documents c) = Documents.IsSound c

-- Documents stand below another path at the backend.
unfoldable pub root : ApiCall → Text
root (documents c) = codes "/knowledge"
root c = []

-- A public share is read without a token.
unfoldable pub credential : Text → ApiCall → Option Text
unfolding WikiPageShares.credential Shares.credential
credential token (chat c) = some token
credential token (providers c) = some token
credential token (me c) = some token
credential token (orgs c) = some token
credential token (wikis c) = some token
credential token (wiki_pages c) = some token
credential token (bookmarks c) = some token
credential token (wiki_page_shares c) = WikiPageShares.credential token c
credential token (shares c) = Shares.credential token c
credential token (documents c) = some token

-- What the caller gets of the value that the backend returns: of a list that can be a page its items,
-- and of most removals `{ ok: true }`.
unfoldable pub treatment : ApiCall → Treatment
unfolding Chat.treatment Providers.treatment Me.treatment Orgs.treatment Wikis.treatment
    WikiPages.treatment Bookmarks.treatment WikiPageShares.treatment Shares.treatment
    Documents.treatment
treatment (chat c) = Chat.treatment c
treatment (providers c) = Providers.treatment c
treatment (me c) = Me.treatment c
treatment (orgs c) = Orgs.treatment c
treatment (wikis c) = Wikis.treatment c
treatment (wiki_pages c) = WikiPages.treatment c
treatment (bookmarks c) = Bookmarks.treatment c
treatment (wiki_page_shares c) = WikiPageShares.treatment c
treatment (shares c) = Shares.treatment c
treatment (documents c) = Documents.treatment c

forwards :
    (token : Text) (c : ApiCall)
    → IsSound c
    → asked token (routed find_route (request_of c))
      ≡ some (forwarded (root c) (credential token c) (request_of c), treatment c)
unfolding IsSound request_of root credential treatment
forwards token (chat c) h = Chat.forwards token c h
forwards token (providers c) h = Providers.forwards token c h
forwards token (me c) h = Me.forwards token c h
forwards token (orgs c) h = Orgs.forwards token c h
forwards token (wikis c) h = Wikis.forwards token c h
forwards token (wiki_pages c) h = WikiPages.forwards token c h
forwards token (bookmarks c) h = Bookmarks.forwards token c h
forwards token (wiki_page_shares c) h = WikiPageShares.forwards token c h
forwards token (shares c) h = Shares.forwards token c h
forwards token (documents c) h = Documents.forwards token c h

module _ (lookup : List Route → Text → Json → List Text → Option Answer)
    (documented : (rs : List Route) (method : Text) (body : Json) (ss : List Text)
      → lookup rs method body ss ≡ find_route rs method body ss) where
  route_of-documented :
      (method : Text) (body : Json) (ss : List Text)
      → route_of lookup method body ss ≡ route_of find_route method body ss
  unfolding route_of
  route_of-documented method body [] = refl
  route_of-documented method body ((c ∷ s) ∷ ss) = refl
  route_of-documented method body ([] ∷ []) = refl
  route_of-documented method body ([] ∷ api ∷ []) = refl
  route_of-documented method body ([] ∷ api ∷ name ∷ rest) =
      rw (documented (folder name) method body rest) refl

  -- Where the framework looks routes up as documented, every call of the methods modelled, those that
  -- ask for JSON in the namespaces chat, providers, me, orgs, wikis, wikiPages, wikiPageShares,
  -- bookmarks, shares and documents, with ids of ASCII letters, digits, `-` and `_` that are not names of
  -- folders beside them, and with a title where it creates a session, meets a route that makes the same
  -- request of the backend, below the backend's path for it, with the same method and body, and with the
  -- access token, but for public shares; the route takes the items of the lists that can be a page, and
  -- answers `{ ok: true }` to most removals.
  pub asked-routed :
      (token : Text) (c : ApiCall)
      → IsSound c
      → asked token (routed lookup (request_of c))
        ≡ some (forwarded (root c) (credential token c) (request_of c), treatment c)
  unfolding routed
  asked-routed token c h =
      ap (asked token) (route_of-documented _ _ (split 47 (request_of c).path)) ∙ forwards token c h
