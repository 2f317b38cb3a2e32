-- ===== src/Web/Auth/Cookies.antt =====
-- The cookies of a session and their envelopes. An envelope is a JSON object in base64url; encoding
-- and decoding it belong to the platform and are parameters where they are used, `none` where
-- decoding throws. Times are epoch seconds.
use rag_chat_cli.Prelude.{ℕ, ◌-◌, Option, none, some, ltb, if◌then◌else◌}
use rag_chat_cli.Text.{Text, codes}

-- A decoded envelope: the fields that a reader asks for, `none` where one is missing or not of the
-- type that the reader wants.
pub record Envelope : Type 0 where
  pub access_token : Option Text
  pub refresh_token : Option Text
  pub access_exp : Option ℕ
  pub refresh_exp : Option ℕ
  pub exp : Option ℕ
  pub access_expires_at : Option ℕ
  pub refresh_expires_at : Option ℕ

abbrev pub no_fields : Envelope
no_fields = record {
  access_token = none;
  refresh_token = none;
  access_exp = none;
  refresh_exp = none;
  exp = none;
  access_expires_at = none;
  refresh_expires_at = none;
}

-- `TokenPair` of the backend, its dates in epoch seconds.
pub record TokenPair : Type 0 where
  pub access_token : Text
  pub refresh_token : Text
  pub access_expires_at : ℕ
  pub refresh_expires_at : ℕ

pub data SameSite : Type 0 where
  lax strict : SameSite

pub record Cookie : Type 0 where
  pub value : Text
  pub path : Text
  pub same_site : SameSite
  pub max_age : ℕ

-- The three cookies, as a browser keeps them or as a request shows them.
pub record Jar : Type 0 where
  pub access : Option Cookie
  pub refresh : Option Cookie
  pub legacy : Option Cookie

abbrev pub empty_jar : Jar
empty_jar = record { access = none; refresh = none; legacy = none }

-- The cookies on a page request: the path of the refresh cookie, `/api`, keeps it out.
abbrev pub on_page : Jar → Jar
on_page jar = record jar { refresh = none }

-- A cookie that is set with no age left is deleted by the browser.
abbrev pub kept : Cookie → Option Cookie
kept c = if ltb 0 c.max_age then some c else none

-- The envelopes of `setSession`.
abbrev pub access_envelope : TokenPair → Envelope
access_envelope pair = record no_fields {
  access_token = some pair.access_token;
  access_exp = some pair.access_expires_at;
  refresh_exp = some pair.refresh_expires_at;
}

abbrev pub refresh_envelope : TokenPair → Envelope
refresh_envelope pair = record no_fields {
  refresh_token = some pair.refresh_token;
  exp = some pair.refresh_expires_at;
}

module _ (encode : Envelope → Text) where
  -- `setSession`: both cookies live as long as the refresh window, and the legacy one is dropped.
  unfoldable pub set_session : (now : ℕ) → TokenPair → Jar → Jar
  set_session now pair jar =
      let age = pair.refresh_expires_at - now in
      record {
        access = kept (record {
          value = encode (access_envelope pair);
          path = codes "/";
          same_site = lax;
          max_age = age;
        });
        refresh = kept (record {
          value = encode (refresh_envelope pair);
          path = codes "/api";
          same_site = strict;
          max_age = age;
        });
        legacy = none;
      }

-- `clearSession`: each cookie is set with no age, at its own path.
unfoldable pub clear_session : Jar → Jar
clear_session jar = empty_jar
