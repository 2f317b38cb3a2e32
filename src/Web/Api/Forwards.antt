-- ===== src/Web/Api/Forwards.antt =====
-- What the browser's calls come to at the backend.
pub mod Chat
pub mod Providers
pub mod Me
pub mod Orgs
pub mod Wikis
pub mod WikiPages
pub mod Bookmarks
pub mod WikiPageShares
pub mod Shares
pub mod Documents
pub mod Every
use rag_chat_cli.Prelude.{
  ℕ, Bool, true, false, not, ◌&&◌, ◌||◌, List, [], ◌∷◌, ◌++◌, Option, none, some, all, drop, leb,
  ◌==◌, ◌≡◌, refl, ap, ◌∙◌, arith, if◌then◌else◌, if_rec,
}
use rag_chat_cli.Text.{Text, is_empty, split, consed}
use rag_chat_cli.Web.Api.Browser.{BffRequest}
use rag_chat_cli.Web.Api.Server.{FetchOptions}

-- A text that stands for itself as a segment of a path: not empty, of ASCII letters, digits, `-` and `_`.
abbrev pub is_plain : ℕ → Bool
is_plain c =
    (leb b'0' c && leb c b'9')
    || (leb b'A' c && leb c b'Z')
    || (leb b'a' c && leb c b'z')
    || c == b'-'
    || c == b'_'

abbrev pub is_segment : Text → Bool
is_segment t = not (is_empty t) && all is_plain t

unbroken : (c : ℕ) (t : Text) → all is_plain (c ∷ t) ≡ true → (c == b'/') ≡ false
unbroken c t h = ground (arith, h)

later_plain : (c : ℕ) (t : Text) → all is_plain (c ∷ t) ≡ true → all is_plain t ≡ true
later_plain c t h = ground (arith, h)

pub plain : (t : Text) → is_segment t ≡ true → all is_plain t ≡ true
plain t h = ground (arith, h)

pub nonempty : (t : Text) → is_segment t ≡ true → is_empty t ≡ false
nonempty t h = ground (arith, h)

pub split-unbroken : (t : Text) → all is_plain t ≡ true → split b'/' t ≡ t ∷ []
unfolding split consed
split-unbroken [] h = refl
split-unbroken (c ∷ t) h = rw (unbroken c t h, split-unbroken t (later_plain c t h)) refl

pub split-segment :
    (t rest : Text) → all is_plain t ≡ true → split b'/' (t ++ (b'/' ∷ rest)) ≡ t ∷ split b'/' rest
unfolding split consed
split-segment [] rest h = refl
split-segment (c ∷ t) rest h = rw (unbroken c t h, split-segment t rest (later_plain c t h)) refl

-- The request of the backend that a call is to become: the same, below `root` in place of `/api`, for
-- the session's access token.
abbrev pub forwarded : (root : Text) (token : Option Text) → BffRequest → FetchOptions
forwarded root token r = record {
  path = root ++ drop 4 r.path;
  method = r.method;
  token = token;
  body = r.body;
  query = [];
  request_id = none;
}
