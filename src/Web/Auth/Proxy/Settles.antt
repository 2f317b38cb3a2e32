-- ===== src/Web/Auth/Proxy/Settles.antt =====
-- The redirects of websites/src/proxy.ts, of `requireAccessToken` and of the routes behind it, one
-- after the other.
use rag_chat_cli.Prelude.{
  ℕ, ◌+◌, ◌≤◌, ◌<◌, Bool, true, false, ◌||◌, List, [], ◌∷◌, ◌++◌, Option, none, some, ltb, ◌≡◌,
  refl, sym, ap, ◌∙◌, subst, arith, if◌then◌else◌, if_rec, Bool-cases, inl, inr, is_some, lt→ltb,
  lt→ltb,
}
use rag_chat_cli.Text.{Text, codes, same, starts_with}
use rag_chat_cli.Web.Auth.Cookies.{Envelope, TokenPair, Jar, on_page, access_envelope}
use rag_chat_cli.Web.Auth.Session.{clock_skew}
use rag_chat_cli.Web.Auth.Session.Rotation.{
  IsCodec, IsIssued, written, written_lem, classify_session-set_session,
  get_access_token_with_refresh-set_session,
}
use rag_chat_cli.Web.Auth.Proxy.{
  Cleared, refresh_at_api, access_at_root, legacy_at_root, cleared_if, Decision, next, to_chat,
  to_login, has_valid_session, opened, refresh_exp_of, legacy_exp_of, proxy, is_open, is_public,
  token, redirect, is_safe_next, build_redirect_target, access_for, require_access_token,
  refresh_and_back,
}

-- What the browser does with the cookies that an answer deletes.
abbrev pub delete : Cleared → Jar → Jar
delete refresh_at_api jar = record jar { refresh = none }
delete access_at_root jar = record jar { access = none }
delete legacy_at_root jar = record jar { legacy = none }

-- The deletions that the browser honours: a cookie that was set for a domain is deleted only with
-- that domain.
abbrev pub delete_all : (Cleared → Bool) → List Cleared → Jar → Jar
delete_all honours [] jar = jar
delete_all honours (c ∷ cs) jar = delete_all honours cs (if honours c then delete c jar else jar)

-- The path and the cookies of the request that follows an answer.
abbrev pub followed : Text → Decision → Text
followed path next = path
followed path to_chat = codes "/chat"
followed path (to_login back cs) = codes "/login"

abbrev pub cookies_after : (Cleared → Bool) → Decision → Jar → Jar
cookies_after honours next jar = jar
cookies_after honours to_chat jar = jar
cookies_after honours (to_login back cs) jar = delete_all honours cs jar

module _ (decode : Text → Option Envelope) where
  abbrev cleared : Bool → Bool → Bool → List Cleared
  cleared r a l =
      cleared_if r refresh_at_api ++ (cleared_if a access_at_root ++ cleared_if l legacy_at_root)

  never_below_0 : (n : ℕ) → ltb n 0 ≡ false
  never_below_0 n = ground arith

  delete-invalid :
      (now : ℕ) (c : Cleared) (jar : Jar)
      → has_valid_session decode now jar ≡ false
      → has_valid_session decode now (delete c jar) ≡ false
  unfolding has_valid_session opened refresh_exp_of legacy_exp_of
  delete-invalid now refresh_at_api jar e = e
  delete-invalid now access_at_root jar e = rw (never_below_0 now) (ground arith)
  delete-invalid now legacy_at_root jar e = rw (never_below_0 now) (ground arith)

  delete_all-invalid :
      (now : ℕ) (honours : Cleared → Bool) (cs : List Cleared) (jar : Jar)
      → has_valid_session decode now jar ≡ false
      → has_valid_session decode now (delete_all honours cs jar) ≡ false
  delete_all-invalid now honours [] jar e = e
  delete_all-invalid now honours (c ∷ cs) jar e = delete_all-invalid now honours cs _ (
      if_rec (λ j. has_valid_session decode now j ≡ false) (honours c)
        (λ _. delete-invalid now c jar e) (λ _. e))

  login_settles :
      (now : ℕ) (jar : Jar)
      → has_valid_session decode now jar ≡ false
      → proxy decode now (codes "/login") jar ≡ next
  unfolding proxy is_open is_public starts_with same
  login_settles now jar e = rw e refl

  chat_settles :
      (now : ℕ) (jar : Jar)
      → has_valid_session decode now jar ≡ true
      → proxy decode now (codes "/chat") jar ≡ next
  unfolding proxy is_open is_public starts_with same
  chat_settles now jar e = rw e refl

  -- The request that follows an answer.
  abbrev Passes : ℕ → (Cleared → Bool) → Jar → Text → Decision → Type 0
  Passes now honours jar path d =
      proxy decode now (followed path d) (cookies_after honours d jar) ≡ next

  settles_by :
      (now : ℕ) (honours : Cleared → Bool) (path : Text) (jar : Jar) (d : Decision)
      → proxy decode now path jar ≡ d
      → Passes now honours jar path d
      → Passes now honours jar path (proxy decode now path jar)
  settles_by now honours path jar d e h = subst (λ x. Passes now honours jar path x) (sym e) h

  -- Whatever the request, the one that follows the gate's answer, at the path that it leads to and
  -- with the cookies that it leaves, passes the gate, whichever deletions the browser honours: no
  -- redirect leads to another.
  pub proxy_settles :
      (now : ℕ) (honours : Cleared → Bool) (path : Text) (jar : Jar)
      → proxy decode now
          (followed path (proxy decode now path jar))
          (cookies_after honours (proxy decode now path jar) jar)
        ≡ next
  unfolding proxy
  proxy_settles now honours path jar = elim (Bool-cases (is_open path)) [
    | inl o ↦ settles_by now honours path jar next (rw o refl) (rw o refl)
    | inr o ↦ elim (Bool-cases (is_public path)) [
      | inl p ↦ elim (Bool-cases (has_valid_session decode now jar)) [
        | inl v ↦
            settles_by now honours path jar to_chat (rw (o, p, v) refl) (chat_settles now jar v)
        | inr v ↦ settles_by now honours path jar next (rw (o, p, v) refl) (rw (o, p, v) refl)
      ]
      | inr p ↦ elim (Bool-cases (has_valid_session decode now jar)) [
        | inl v ↦ settles_by now honours path jar next (rw (o, p, v) refl) (rw (o, p, v) refl)
        | inr v ↦ elim (Bool-cases (same path (codes "/"))) [
          | inl r ↦
              settles_by now honours path jar next (rw (o, p, v, r) refl) (rw (o, p, v, r) refl)
          | inr r ↦
              let cs = cleared (is_some jar.refresh) (is_some jar.access) (is_some jar.legacy) in
              settles_by now honours path jar (to_login path cs) (rw (o, p, v, r) refl)
                (login_settles now _ (delete_all-invalid now honours cs jar v))
        ]
      ]
    ]
  ]

  or_false : (b : Bool) → (b || false) ≡ b
  or_false true = refl
  or_false false = refl

  module _ (encode : Envelope → Text) (codec : IsCodec encode decode) where
    abbrev pub page_jar : ℕ → TokenPair → Jar → Jar
    page_jar now0 pair jar = on_page (written encode decode codec now0 pair jar)

    has_valid_session-set_session :
        (now0 now : ℕ) (pair : TokenPair) (jar : Jar)
        → IsIssued now0 pair
        → has_valid_session decode now (page_jar now0 pair jar) ≡ ltb now pair.refresh_expires_at
    unfolding has_valid_session opened refresh_exp_of legacy_exp_of
    has_valid_session-set_session now0 now pair jar h =
        rw (written_lem encode decode codec now0 pair jar h.in_future) (
          rw
            (
              codec.not_empty (access_envelope pair),
              codec.reads_back (access_envelope pair),
              h.access_given,
              never_below_0 now,
            )
            (or_false _))

    -- A page that is neither open, public nor "/", requested with a session that was written: the gate
    -- lets it pass until the refresh window ends, and then sends it to the login page and has the
    -- access cookie deleted.
    pub proxy-set_session :
        (now0 now : ℕ) (path : Text) (pair : TokenPair) (jar : Jar)
        → IsIssued now0 pair
        → is_open path ≡ false
        → is_public path ≡ false
        → same path (codes "/") ≡ false
        → proxy decode now path (page_jar now0 pair jar)
          ≡ (if ltb now pair.refresh_expires_at then next else to_login path (access_at_root ∷ []))
    unfolding proxy
    proxy-set_session now0 now path pair jar h o p r =
        let v = has_valid_session-set_session now0 now pair jar h in
        elim (Bool-cases (ltb now pair.refresh_expires_at)) [
          | inl e ↦ rw (o, p, v, r, e) refl
          | inr e ↦
              rw (o, p, v, r, e)
                (rw (written_lem encode decode codec now0 pair jar h.in_future) refl)
        ]

    -- A page with a safe path that finds the access token of a written session run out, in the
    -- refresh window, sends the browser to the refresh route with its own path; where the backend
    -- gives a new pair that is in time and whose tokens are not empty, that route leads back to the
    -- path with the new pair in the cookies, and while more than the clock skew is left of its access
    -- token the page has it then.
    pub refresh_journey :
        (backend : Text → Option TokenPair) (now0 now : ℕ) (path : Text) (pair pair' : TokenPair)
        (jar : Jar)
        → IsIssued now0 pair
        → pair.access_expires_at ≤ now + clock_skew
        → now < pair.refresh_expires_at
        → is_safe_next (some path) ≡ true
        → backend pair.refresh_token ≡ some pair'
        → IsIssued now pair'
        → now + clock_skew < pair'.access_expires_at
        → (require_access_token decode now (some path) (page_jar now0 pair jar)
            ≡ redirect (record { path = codes "/api/auth/refresh-and-back"; next = some path }))
          × (refresh_and_back decode encode backend now
                (some path)
                (written encode decode codec now0 pair jar)
              ≡ (
                record { path = path; next = none },
                written encode decode codec now pair' (written encode decode codec now0 pair jar),
              ))
          × (require_access_token decode now
                (some path)
                (page_jar now pair' (written encode decode codec now0 pair jar))
              ≡ token pair'.access_token)
    unfolding require_access_token access_for build_redirect_target refresh_and_back
    refresh_journey backend now0 now path pair pair' jar h old window safe given h' new =
        let late : ltb (now + clock_skew) pair.access_expires_at ≡ false = ground arith in
        let early = lt→ltb now pair.refresh_expires_at window in
        let fresh = lt→ltb (now + clock_skew) pair'.access_expires_at new in
        (
          ap (access_for (some path))
                (classify_session-set_session encode decode codec now0 now pair jar h)
              ∙ rw (late, early, safe) refl,
          rw
              (
                get_access_token_with_refresh-set_session encode decode codec backend now0 now pair
                    jar h,
                late,
                early,
                given,
                h'.access_given,
                safe,
              )
              refl,
          ap (access_for (some path)) (
                classify_session-set_session encode decode codec now now pair'
                  (written encode decode codec now0 pair jar) h')
              ∙ rw fresh refl,
        )
