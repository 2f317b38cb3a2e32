-- ===== src/Web/Api.antt =====
-- Requests of the web client on their way through the BFF: websites/src/lib/api/browser/client.ts calls
-- websites/src/app/api/_bff.ts, which calls websites/src/lib/api/server/client.ts. A JSON text is read
-- and written by the platform, and both are parameters. Of the debug data only the request id is kept.
pub mod Browser
pub mod Bff
pub mod Server
pub mod Router
pub mod Upstreams
pub mod Calls
pub mod Routes
pub mod Forwards
pub mod Served
use rag_chat_cli.Prelude.{
  ℕ, Bool, true, false, ◌&&◌, ◌++◌, List, Option, none, some, is_some, leb, if◌then◌else◌,
}
use rag_chat_cli.Text.{Text, codes, same, index_of}
use rag_chat_cli.Text.Decimal.{decimal}

mutual
  pub data Json : Type 0 where
    null : Json
    boolean : Bool → Json
    number : Text → Json
    string : Text → Json
    array : Items → Json
    object : Members → Json

  pub data Items : Type 0 where
    no_items : Items
    item : Json → Items → Items

  pub data Members : Type 0 where
    no_members : Members
    member : Text → Json → Members → Members

-- The value of a member, `none` for `undefined`.
abbrev pub member_of : Text → Members → Option Json
member_of key no_members = none
member_of key (member k v rest) = if same k key then some v else member_of key rest

-- `(payload && typeof payload === "object" ? payload : {})[key]`; an array has no such key.
abbrev pub field_of : Text → Option Json → Option Json
field_of key (some (object ms)) = member_of key ms
field_of key _ = none

-- `typeof value === "string"`
abbrev pub as_string : Option Json → Option Text
as_string (some (string t)) = some t
as_string _ = none

pub record HttpResponse : Type 0 where
  pub status : ℕ
  pub status_text : Text
  pub content_type : Option Text
  pub request_id : Option Text
  pub body : Text

-- `res.ok`
abbrev pub is_ok : ℕ → Bool
is_ok status = leb 200 status && leb status 299

-- `ct.includes("application/json")`
abbrev pub is_json : Option Text → Bool
is_json none = false
is_json (some ct) = is_some (index_of ct (codes "application/json"))

pub record ApiError : Type 0 where
  pub status : ℕ
  pub code : Text
  pub message : Text
  pub details : Option Json
  pub request_id : Option Text

-- What a call returns or throws: an `ApiError`, or another error with its message.
pub data Outcome (A : Type 0) : Type 0 where
  returns : A → Outcome A
  api_error : ApiError → Outcome A
  throws : (message : Text) → Outcome A

-- `HTTP_${status}`
abbrev pub http_code : ℕ → Text
http_code status = codes "HTTP_" ++ decimal status
