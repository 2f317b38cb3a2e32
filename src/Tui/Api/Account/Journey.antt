-- ===== src/Tui/Api/Account/Journey.antt =====
-- A login and a logout as a whole, through clients/tui/src/api/client.ts and
-- clients/tui/src/store/auth-store.ts.
use rag_chat_cli.Prelude.{
  ℕ, Bool, true, false, ◌&&◌, List, [], ◌∷◌, ◌++◌, Option, none, some, ◌==◌, ◌≡◌, refl, sym, ap,
  ◌∙◌, inl, inr, arith, append-nil, Bool-cases, if◌then◌else◌,
}
use rag_chat_cli.Text.{Text, codes, is_empty}
use rag_chat_cli.Wire.{UserOut}
use rag_chat_cli.Tui.Api.{
  TokenPair, StoredTokens, refresh_of, Init, Request, Reply, response, ErrorBody, Result, returns,
  World, stored, save_tokens, clear_tokens, is_ok, request_for, fetch, conclude, read_body,
  request_raw, request,
}
use rag_chat_cli.Tui.Api.Account.{
  AuthState, login_init, me_init, logout_init, me, logged_in, login, login_ended, user_from,
  logout_of, logout, store_login, store_logout,
}

-- What a logout sends.
abbrev pub farewell : Option StoredTokens → List Request
farewell none = []
farewell (some t) =
    if is_empty t.refresh_token
    then []
    else record {
      path = codes "/auth/logout";
      method = codes "POST";
      body = refresh_of t.refresh_token;
      bearer = none;
    }
      ∷ []

module _ {S Json : Type 0} (serve : Request → S → Reply × S) (json_parse : Text → Option Json)
    (pair_of : Json → TokenPair) (error_body_of : Json → ErrorBody) (user_of : Json → UserOut) where
  abbrev fetched : Request → World S → Reply × World S
  fetched r w = fetch serve json_parse pair_of error_body_of r w

  and_false : (b c : Bool) → (b && (false && c)) ≡ false
  and_false true c = refl
  and_false false c = refl

  -- A request with no token asks for no refresh.
  request_raw-open :
      (init : Init) (w : World S)
      → init.authed ≡ false
      → (request_raw serve json_parse pair_of error_body_of init w).1
        ≡ (fetched (request_for init w) w).1
  unfolding request_raw
  request_raw-open init w e = rw (e, and_false) refl

  pub record IsForgotten (before after : World S) : Type 0 where
    pub tokens : after.tokens ≡ none
    pub file : after.file ≡ (if before.removable then none else before.file)
    pub sent : after.sent ≡ before.sent ++ farewell before.tokens

  told-IsForgotten :
      (t : StoredTokens) (w : World S)
      → w.tokens ≡ some t
      → IsForgotten w (logout_of serve json_parse pair_of error_body_of user_of (some t) w)
  unfolding logout_of clear_tokens fetch
  told-IsForgotten t w e = elim (Bool-cases (is_empty t.refresh_token)) [
    | inl blank ↦
        rw blank
          (record { tokens = refl; file = refl; sent = rw (e, blank) (sym (append-nil w.sent)) })
    | inr given ↦
        let told = request_raw-open (logout_init t.refresh_token) (clear_tokens w) refl in
        rw given (record {
          tokens = ap (λ v. v.tokens) told;
          file = ap (λ v. v.file) told;
          sent = ap (λ v. v.sent) told ∙ rw (e, given) refl;
        })
  ]

  logout_of-IsForgotten :
      (o : Option StoredTokens) (w : World S)
      → w.tokens ≡ o
      → IsForgotten w (logout_of serve json_parse pair_of error_body_of user_of o w)
  unfolding logout_of clear_tokens
  logout_of-IsForgotten none w e = record {
    tokens = refl;
    file = refl;
    sent = rw e (sym (append-nil w.sent));
  }
  logout_of-IsForgotten (some t) w e = told-IsForgotten t w e

  -- Whatever the server answers, a logout leaves no user, no error, no tokens and no token file, unless
  -- the file cannot be removed, where it stays as it is, and it sends the refresh token that was kept to the server once, if there is one that is not empty,
  -- and nothing else.
  pub store_logout-IsForgotten :
      (s : AuthState) (w : World S)
      → let r = store_logout serve json_parse pair_of error_body_of user_of s w in
        (r.0.user ≡ none) × (r.0.login_error ≡ none) × IsForgotten w r.1
  unfolding store_logout logout
  store_logout-IsForgotten s w = (refl, refl, logout_of-IsForgotten w.tokens w refl)

  -- The request of a value, where the reply is one of success with a body that parses.
  request_value :
      (init : Init) (w : World S) (status : ℕ) (text body : Text) (server : S) (json : Json)
      → serve (request_for init w) w.server ≡ (response status text body, server)
      → is_ok status ≡ true
      → (status == 204) ≡ false
      → is_empty body ≡ false
      → json_parse body ≡ some json
      → request serve json_parse pair_of error_body_of init w ≡ (
        returns (some json),
        record w { sent = w.sent ++ (request_for init w ∷ []); server = server },
      )
  unfolding request request_raw fetch conclude read_body
  request_value init w status text body server json answer ok some_content filled parsed =
      let accepted : (status == 401) ≡ false = ground arith in
      rw (answer, accepted, ok) (rw (some_content, filled, parsed) refl)

  -- The reply is one of success whose body parses.
  pub record Gives (reply : Reply × S) (json : Json) (server : S) : Type 0 where
    pub status : ℕ
    pub text : Text
    pub body : Text
    pub answer : reply ≡ (response status text body, server)
    pub ok : is_ok status ≡ true
    pub some_content : (status == 204) ≡ false
    pub filled : is_empty body ≡ false
    pub parsed : json_parse body ≡ some json

  abbrev pub tokens_of : Json → Text → StoredTokens
  tokens_of json email = stored (pair_of json) (some email)

  -- The client behind the request of a login that is answered by a pair, and behind that of `/me`.
  abbrev pub let_in : (email password : Text) (pair : Json) (server : S) → World S → World S
  let_in email password pair server w = record {
    tokens = some (tokens_of pair email);
    file = some (tokens_of pair email);
    removable = w.removable;
    sent = w.sent ++ (request_for (login_init email password) w ∷ []);
    server = server;
  }

  -- A login that the server answers with a pair, and whose `/me`, asked with the access token of that
  -- pair, it answers with a user, signs that user in: no error is left, and the client and its token
  -- file have the pair with the email.
  pub store_login-signs_in :
      (email password : Text) (pair user : Json) (s1 s2 : S) (s : AuthState) (w : World S)
      → Gives (serve (request_for (login_init email password) w) w.server) pair s1
      → Gives (serve (request_for me_init (let_in email password pair s1 w)) s1) user s2
      → let r = store_login serve json_parse pair_of error_body_of user_of email password s w in
        (r.0 ≡ record s { user = some (user_of user); logging = false; login_error = none })
        × (r.1 ≡ true)
        × (r.2.tokens ≡ some (tokens_of pair email))
        × (r.2.file ≡ some (tokens_of pair email))
  unfolding store_login login logged_in save_tokens me
  store_login-signs_in email password pair user s1 s2 s w g h =
      let first =
        request_value (login_init email password) w g.status g.text g.body s1 pair g.answer g.ok
          g.some_content g.filled g.parsed in
      let second =
        request_value me_init (let_in email password pair s1 w) h.status h.text h.body s2 user
          h.answer h.ok h.some_content h.filled h.parsed in
      let signed_in =
        ap (λ r. logged_in serve json_parse pair_of error_body_of user_of email r.0 r.1) first
        ∙ ap {B = Result (Option UserOut) × World S}
            (λ r. (user_from serve json_parse pair_of error_body_of user_of r.0, r.1)) second in
      let all =
        ap {B = AuthState × Bool × World S}
          (λ r.
            let ended =
              login_ended serve json_parse pair_of error_body_of user_of r.0
                (record s { logging = true; login_error = none }) in
            (ended.0, ended.1, r.1))
          signed_in in
      (ap (λ r. r.0) all, ap (λ r. r.1) all, ap (λ r. r.2.tokens) all, ap (λ r. r.2.file) all)
