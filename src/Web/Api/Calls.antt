-- ===== src/Web/Api/Calls.antt =====
-- The methods of `api` of websites/src/lib/api/browser/index.ts, as the requests that they make. Streams,
-- files, logout and the active organisation are left out.
pub mod Chat
pub mod Providers
pub mod Me
pub mod Orgs
pub mod Wikis
pub mod WikiPages
pub mod Bookmarks
pub mod WikiPageShares
pub mod Shares
pub mod Documents
use rag_chat_cli.Web.Api.Browser.{BffRequest}

-- `api`, a method with its arguments.
pub data ApiCall : Type 0 where
  chat : Chat.Call → ApiCall
  providers : Providers.Call → ApiCall
  me : Me.Call → ApiCall
  orgs : Orgs.Call → ApiCall
  wikis : Wikis.Call → ApiCall
  wiki_pages : WikiPages.Call → ApiCall
  bookmarks : Bookmarks.Call → ApiCall
  wiki_page_shares : WikiPageShares.Call → ApiCall
  shares : Shares.Call → ApiCall
  documents : Documents.Call → ApiCall

unfoldable pub request_of : ApiCall → BffRequest
unfolding Chat.request Providers.request Me.request Orgs.request Wikis.request WikiPages.request
    Bookmarks.request WikiPageShares.request Shares.request Documents.request
request_of (chat c) = Chat.request c
request_of (providers c) = Providers.request c
request_of (me c) = Me.request c
request_of (orgs c) = Orgs.request c
request_of (wikis c) = Wikis.request c
request_of (wiki_pages c) = WikiPages.request c
request_of (bookmarks c) = Bookmarks.request c
request_of (wiki_page_shares c) = WikiPageShares.request c
request_of (shares c) = Shares.request c
request_of (documents c) = Documents.request c
