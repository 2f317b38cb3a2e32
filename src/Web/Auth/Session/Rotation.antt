-- ===== src/Web/Auth/Session/Rotation.antt =====
-- A session that `setSession` wrote, read and rotated later, websites/src/lib/auth/session.server.ts.
use rag_chat_cli.Prelude.{
  ℕ, ◌+◌, ◌-◌, ◌<◌, true, false, Option, none, some, ltb, ◌≡◌, refl, ap, ◌∙◌, arith, if◌then◌else◌,
  lt→ltb, Bool-cases, inl, inr,
}
use rag_chat_cli.Text.{Text, codes, is_empty}
use rag_chat_cli.Web.Auth.Cookies.{
  Envelope, TokenPair, Cookie, Jar, empty_jar, on_page, lax, strict, access_envelope,
  refresh_envelope, set_session, clear_session,
}
use rag_chat_cli.Web.Auth.Session.{
  Session, valid, needs_refresh, anonymous, is_current, is_recoverable, decoded, get_session,
  classify_session, get_access_token_with_refresh, classified, with_refresh, rotate, rotate_with,
  clock_skew,
}

-- What the platform's base64url and JSON do: an envelope is read back, and its text is not empty.
pub record IsCodec (encode : Envelope → Text) (decode : Text → Option Envelope) : Type 0 where
  pub reads_back : (e : Envelope) → decode (encode e) ≡ some e
  pub not_empty : (e : Envelope) → is_empty (encode e) ≡ false

-- A pair that a browser keeps at `now`, and that can be read.
pub record IsIssued (now : ℕ) (pair : TokenPair) : Type 0 where
  pub in_future : now < pair.refresh_expires_at
  pub access_given : is_empty pair.access_token ≡ false
  pub refresh_given : is_empty pair.refresh_token ≡ false

module _ (encode : Envelope → Text) (decode : Text → Option Envelope)
    (codec : IsCodec encode decode) where
  abbrev pub written : ℕ → TokenPair → Jar → Jar
  written now pair jar = set_session encode now pair jar

  abbrev access_cookie : ℕ → TokenPair → Cookie
  access_cookie now pair = record {
    value = encode (access_envelope pair);
    path = codes "/";
    same_site = lax;
    max_age = pair.refresh_expires_at - now;
  }

  abbrev refresh_cookie : ℕ → TokenPair → Cookie
  refresh_cookie now pair = record {
    value = encode (refresh_envelope pair);
    path = codes "/api";
    same_site = strict;
    max_age = pair.refresh_expires_at - now;
  }

  pub written_lem :
      (now : ℕ) (pair : TokenPair) (jar : Jar)
      → now < pair.refresh_expires_at
      → written now pair jar ≡ record {
        access = some (access_cookie now pair);
        refresh = some (refresh_cookie now pair);
        legacy = none;
      }
  unfolding set_session
  written_lem now pair jar h = rw (lt→ltb 0 (pair.refresh_expires_at - now) (omega arith))

  decoded_lem : (e : Envelope) (c : Cookie) → c.value ≡ encode e → decoded decode (some c) ≡ some e
  unfolding decoded
  decoded_lem e c h = rw (h, codec.not_empty e) (codec.reads_back e)

  abbrev pub session_of : Option Text → TokenPair → Session
  session_of refresh pair = record {
    access_token = pair.access_token;
    refresh_token = refresh;
    access_expires_at = pair.access_expires_at;
    refresh_expires_at = pair.refresh_expires_at;
  }

  -- A session that was written before its refresh window ended, with tokens that are not empty, is
  -- read back: with its refresh token on a path below `/api`, and
  -- without it on a page.
  pub get_session-set_session :
      (now : ℕ) (pair : TokenPair) (jar : Jar)
      → IsIssued now pair
      → (get_session decode (written now pair jar)
          ≡ some (session_of (some pair.refresh_token) pair))
        × (get_session decode (on_page (written now pair jar)) ≡ some (session_of none pair))
  unfolding get_session
  get_session-set_session now pair jar h = rw (written_lem now pair jar h.in_future) (
    rw (
      decoded_lem (access_envelope pair) (access_cookie now pair) refl,
      decoded_lem (refresh_envelope pair) (refresh_cookie now pair) refl,
      get_session,
    ),
    rw (decoded_lem (access_envelope pair) (access_cookie now pair) refl, get_session),
  )

  -- A page finds a session that was written (before its refresh window ended, with tokens that are
  -- not empty) valid while more than the clock skew is left of the access token, then in need of a
  -- refresh until the refresh window ends, and anonymous behind it.
  pub classify_session-set_session :
      (now0 now : ℕ) (pair : TokenPair) (jar : Jar)
      → IsIssued now0 pair
      → classify_session decode now (on_page (written now0 pair jar)) ≡ (
          if ltb (now + clock_skew) pair.access_expires_at
          then valid pair.access_token
          else if ltb now pair.refresh_expires_at
          then needs_refresh
          else anonymous)
  unfolding classify_session classified
  classify_session-set_session now0 now pair jar h =
      ap (classified decode now) (get_session-set_session now0 pair jar h).1

  with_refresh-current :
      (backend : Text → Option TokenPair) (now : ℕ) (jar : Jar) (s : Session)
      → is_current now s ≡ true
      → with_refresh decode encode backend now jar (some s) ≡ (some s.access_token, jar)
  unfolding with_refresh
  with_refresh-current backend now jar s e = rw e refl

  with_refresh-late :
      (backend : Text → Option TokenPair) (now : ℕ) (jar : Jar) (s : Session)
      → is_current now s ≡ false
      → is_recoverable now s ≡ false
      → with_refresh decode encode backend now jar (some s) ≡ (none, empty_jar)
  unfolding with_refresh clear_session
  with_refresh-late backend now jar s e f = rw (e, f) refl

  with_refresh-rotate :
      (backend : Text → Option TokenPair) (now : ℕ) (jar : Jar) (s : Session) (token : Text)
      → is_current now s ≡ false
      → is_recoverable now s ≡ true
      → s.refresh_token ≡ some token
      → is_empty token ≡ false
      → with_refresh decode encode backend now jar (some s)
        ≡ rotate decode encode backend now jar (backend token)
  unfolding with_refresh rotate_with
  with_refresh-rotate backend now jar s token e f g h = rw (e, f, g, h) refl

  -- The outcome of a refresh: the new access token and the cookies of the new pair where the backend
  -- gives one, and no session where it fails.
  abbrev pub rotated : ℕ → Option TokenPair → Jar → Option Text × Jar
  rotated now none jar = (none, empty_jar)
  rotated now (some pair) jar = (some pair.access_token, written now pair jar)

  rotate_lem :
      (backend : Text → Option TokenPair) (now : ℕ) (jar : Jar) (o : Option TokenPair)
      → rotate decode encode backend now jar o ≡ rotated now o jar
  unfolding rotate clear_session
  rotate_lem backend now jar none = refl
  rotate_lem backend now jar (some pair) = refl

  -- A session that was written (before its refresh window ended, with tokens that are not empty), asked for at `now` on a path below `/api`: while more than the skew
  -- is left of the access token it is given and nothing changes; then, in the refresh window, the
  -- backend is asked with the refresh token that was written, and its answer decides; behind the
  -- window the session is dropped, whatever the backend would answer.
  pub get_access_token_with_refresh-set_session :
      (backend : Text → Option TokenPair) (now0 now : ℕ) (pair : TokenPair) (jar : Jar)
      → IsIssued now0 pair
      → get_access_token_with_refresh decode encode backend now (written now0 pair jar) ≡ (
          if ltb (now + clock_skew) pair.access_expires_at
          then (some pair.access_token, written now0 pair jar)
          else if ltb now pair.refresh_expires_at
          then rotated now (backend pair.refresh_token) (written now0 pair jar)
          else (none, empty_jar))
  unfolding get_access_token_with_refresh
  get_access_token_with_refresh-set_session backend now0 now pair jar h =
      let s = session_of (some pair.refresh_token) pair in
      let read =
        ap (with_refresh decode encode backend now (written now0 pair jar))
          (get_session-set_session now0 pair jar h).0 in
      elim (Bool-cases (is_current now s)) [
        | inl e ↦ read ∙ with_refresh-current backend now _ s e ∙ rw e refl
        | inr e ↦ elim (Bool-cases (is_recoverable now s)) [
          | inl f ↦
              read
              ∙ with_refresh-rotate backend now _ s pair.refresh_token e f refl h.refresh_given
              ∙ rotate_lem backend now _ (backend pair.refresh_token)
              ∙ rw (e, f) refl
          | inr f ↦ read ∙ with_refresh-late backend now _ s e f ∙ rw (e, f) refl
        ]
      ]
