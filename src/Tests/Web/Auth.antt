-- ===== src/Tests/Web/Auth.antt =====
-- Sessions and the gate of the web client at concrete inputs.
use rag_chat_cli.Prelude.{
  ℕ, zero, suc, ap, ◌+◌, true, false, [], ◌∷◌, Option, none, some, ltb, ◌≡◌, refl, arith,
  if◌then◌else◌,
}
use rag_chat_cli.Text.{Text, codes, is_empty, same, starts_with}
use rag_chat_cli.Web.Auth.Cookies.{Envelope, TokenPair, Jar, empty_jar, on_page}
use rag_chat_cli.Web.Auth.Session.{
  valid, needs_refresh, anonymous, clock_skew, get_session, classify_session,
  get_access_token_with_refresh,
}
use rag_chat_cli.Web.Auth.Session.Rotation.{
  IsCodec, IsIssued, written, session_of, rotated, get_session-set_session,
  classify_session-set_session, get_access_token_with_refresh-set_session,
}
use rag_chat_cli.Web.Auth.Proxy.{
  next, to_login, access_at_root, proxy, is_open, is_public, is_safe_next, require_access_token,
  refresh_and_back, token, redirect,
}
use rag_chat_cli.Web.Auth.Proxy.Settles.{
  followed, cookies_after, page_jar, proxy_settles, proxy-set_session, refresh_journey,
}

-- A codec: the code units of a text, each one higher, up to a 0; a field that is missing is a 0.
put : Text → Text → Text
put [] rest = 0 ∷ rest
put (c ∷ t) rest = suc c ∷ put t rest

take_text : Text → Text × Text
take_text [] = ([], [])
take_text (zero ∷ rest) = ([], rest)
take_text (suc c ∷ s) = (c ∷ (take_text s).0, (take_text s).1)

take_text-put : (t rest : Text) → take_text (put t rest) ≡ (t, rest)
unfolding put take_text
take_text-put [] rest = refl
take_text-put (c ∷ t) rest = ap (λ r. (c ∷ r.0, r.1)) (take_text-put t rest)

put_text : Option Text → Text → Text
put_text none rest = 0 ∷ rest
put_text (some t) rest = 1 ∷ put t rest

get_text : Text → Option Text × Text
get_text [] = (none, [])
get_text (zero ∷ rest) = (none, rest)
get_text (suc n ∷ s) = (some (take_text s).0, (take_text s).1)

get_text-put_text : (o : Option Text) (rest : Text) → get_text (put_text o rest) ≡ (o, rest)
unfolding put_text get_text
get_text-put_text none rest = refl
get_text-put_text (some t) rest = ap (λ r. (some r.0, r.1)) (take_text-put t rest)

put_number : Option ℕ → Text → Text
put_number none rest = 0 ∷ rest
put_number (some n) rest = suc n ∷ rest

get_number : Text → Option ℕ × Text
get_number [] = (none, [])
get_number (zero ∷ rest) = (none, rest)
get_number (suc n ∷ rest) = (some n, rest)

get_number-put_number : (o : Option ℕ) (rest : Text) → get_number (put_number o rest) ≡ (o, rest)
unfolding put_number get_number
get_number-put_number none rest = refl
get_number-put_number (some n) rest = refl

abbrev write_numbers : Envelope → Text
write_numbers e = put_number e.access_exp (
    put_number e.refresh_exp
      (put_number e.exp (put_number e.access_expires_at (put_number e.refresh_expires_at []))))

abbrev write : Envelope → Text
write e = put_text e.access_token (put_text e.refresh_token (write_numbers e))

abbrev read_numbers : Option Text → Option Text → Text → Envelope
read_numbers access refresh s =
    let a = get_number s in
    let b = get_number a.1 in
    let c = get_number b.1 in
    let d = get_number c.1 in
    record {
      access_token = access;
      refresh_token = refresh;
      access_exp = a.0;
      refresh_exp = b.0;
      exp = c.0;
      access_expires_at = d.0;
      refresh_expires_at = (get_number d.1).0;
    }

abbrev read : Text → Option Envelope
read s = some (read_numbers (get_text s).0 (get_text (get_text s).1).0 (get_text (get_text s).1).1)

put_text-filled : (o : Option Text) (rest : Text) → is_empty (put_text o rest) ≡ false
unfolding put_text is_empty
put_text-filled none rest = refl
put_text-filled (some t) rest = refl

codec : IsCodec write read
codec = record {
  reads_back = λ e. simp (get_text-put_text, get_number-put_number) refl;
  not_empty = λ e. put_text-filled e.access_token _;
}

-- A pair that was issued at 1000, and the one that the backend gives for it at 2000.
abbrev first : TokenPair
first = record {
  access_token = codes "a1";
  refresh_token = codes "r1";
  access_expires_at = 1900;
  refresh_expires_at = 9000;
}

abbrev second : TokenPair
second = record {
  access_token = codes "a2";
  refresh_token = codes "r2";
  access_expires_at = 2900;
  refresh_expires_at = 9900;
}

abbrev backend : Text → Option TokenPair
backend t = some second

first-IsIssued : IsIssued 1000 first
unfolding is_empty
first-IsIssued = record { in_future = omega arith; access_given = refl; refresh_given = refl }

second-IsIssued : IsIssued 2000 second
unfolding is_empty
second-IsIssued = record { in_future = omega arith; access_given = refl; refresh_given = refl }

abbrev stored : Jar
stored = written write read codec 1000 first empty_jar

get_session-set_session_example :
    (get_session read stored ≡ some (session_of write read codec (some (codes "r1")) first))
    × (get_session read (on_page stored) ≡ some (session_of write read codec none first))
get_session-set_session_example =
    get_session-set_session write read codec 1000 first empty_jar first-IsIssued

classify_session-set_session_example : classify_session read 1500 (on_page stored) ≡ (
    if ltb (1500 + clock_skew) 1900
    then valid (codes "a1")
    else if ltb 1500 9000
    then needs_refresh
    else anonymous)
classify_session-set_session_example =
    classify_session-set_session write read codec 1000 1500 first empty_jar first-IsIssued

get_access_token_with_refresh-set_session_example :
    get_access_token_with_refresh read write backend 2000 stored ≡ (
      if ltb (2000 + clock_skew) 1900
      then (some (codes "a1"), stored)
      else if ltb 2000 9000
      then rotated write read codec 2000 (some second) stored
      else (none, empty_jar))
get_access_token_with_refresh-set_session_example =
    get_access_token_with_refresh-set_session write read codec backend 1000 2000 first empty_jar
      first-IsIssued

proxy_settles_example :
    proxy read 9500
      (followed (codes "/wiki") (proxy read 9500 (codes "/wiki") stored))
      (cookies_after (λ c. true) (proxy read 9500 (codes "/wiki") stored) stored)
    ≡ next
proxy_settles_example = proxy_settles read 9500 (λ c. true) (codes "/wiki") stored

wiki_is_protected :
    (is_open (codes "/wiki") ≡ false)
    × (is_public (codes "/wiki") ≡ false)
    × (same (codes "/wiki") (codes "/") ≡ false)
    × (is_safe_next (some (codes "/wiki")) ≡ true)
unfolding is_open is_public is_safe_next same starts_with
wiki_is_protected = (refl, refl, refl, refl)

proxy-set_session_example :
    proxy read 9500 (codes "/wiki") (page_jar read write codec 1000 first empty_jar)
    ≡ (if ltb 9500 9000 then next else to_login (codes "/wiki") (access_at_root ∷ []))
proxy-set_session_example =
    proxy-set_session read write codec 1000 9500 (codes "/wiki") first empty_jar first-IsIssued
      wiki_is_protected.0 wiki_is_protected.1 wiki_is_protected.2

refresh_journey_example :
    (require_access_token read 2000
        (some (codes "/wiki"))
        (page_jar read write codec 1000 first empty_jar)
      ≡ redirect
          (record { path = codes "/api/auth/refresh-and-back"; next = some (codes "/wiki") }))
    × (refresh_and_back read write backend 2000 (some (codes "/wiki")) stored ≡ (
      record { path = codes "/wiki"; next = none },
      written write read codec 2000 second stored,
    ))
    × (require_access_token read 2000
          (some (codes "/wiki"))
          (page_jar read write codec 2000 second stored)
        ≡ token (codes "a2"))
refresh_journey_example =
    refresh_journey read write codec backend 1000 2000 (codes "/wiki") first second empty_jar
      first-IsIssued (omega arith) (omega arith) wiki_is_protected.3 refl second-IsIssued
      (omega arith)
