-- ===== src/Tests/Tui/Api.antt =====
-- The API client and the auth store of the terminal client at concrete inputs.
use rag_chat_cli.Prelude.{
  ℕ, ◌+◌, Bool, true, false, [], ◌∷◌, Option, none, some, length, ◌≡◌, refl, if◌then◌else◌,
}
use rag_chat_cli.Text.{Text, codes, same, is_empty}
use rag_chat_cli.Wire.{UserOut}
use rag_chat_cli.Tui.Api.{
  TokenPair, StoredTokens, Request, Reply, response, ErrorBody, World, stored, request_for,
  request_raw,
}
use rag_chat_cli.Tui.Api.Exchanges.{Exchange, request_raw-Exchange}
use rag_chat_cli.Tui.Api.Account.{initial, me_init, login_init, store_login, store_logout}
use rag_chat_cli.Tui.Api.Account.InStep
use rag_chat_cli.Tui.Api.Account.InStep.{IsInStep, Reach-IsInStep}
use rag_chat_cli.Tui.Api.Account.Journey.{
  IsForgotten, Gives, let_in, store_logout-IsForgotten, store_login-signs_in,
}

-- Any text but the empty one is its own value.
abbrev parse : Text → Option Text
parse [] = none
parse (c ∷ t) = some (c ∷ t)

abbrev pair_of : Text → TokenPair
pair_of t = record {
  access_token = t;
  refresh_token = t;
  access_expires_at = codes "2026";
  refresh_expires_at = codes "2027";
}

abbrev error_body_of : Text → ErrorBody
error_body_of t = record { detail = some t; message = none; code = none }

abbrev user_of : Text → UserOut
user_of t = record {
  id = t;
  email = codes "a@b";
  display_name = none;
  is_active = true;
  created_at = codes "2026";
}

abbrev is_bearer : Text → Option Text → Bool
is_bearer t none = false
is_bearer t (some b) = same b t

-- A server that counts its requests: it gives the token `t1` at a login and `t2` at a refresh, and
-- knows the user of `t2` only once it gave one.
abbrev serve : Request → ℕ → Reply × ℕ
serve r n =
    if same r.path (codes "/auth/login")
    then (response 200 (codes "OK") (codes "t1"), n + 1)
    else if same r.path (codes "/auth/refresh")
    then (response 200 (codes "OK") (codes "t2"), n + 1)
    else if is_bearer (codes "old") r.bearer
    then (response 401 [] [], n + 1)
    else (response 200 (codes "OK") (codes "u1"), n + 1)

abbrev held : StoredTokens
held = stored (pair_of (codes "old")) (some (codes "a@b"))

abbrev signed_in : World ℕ
signed_in = record { tokens = some held; file = some held; removable = true; sent = []; server = 0 }

abbrev signed_out : World ℕ
signed_out = record { tokens = none; file = none; removable = true; sent = []; server = 0 }

request_raw-Exchange_example :
    let r = request_raw serve parse pair_of error_body_of me_init signed_in in
    Exchange serve parse pair_of error_body_of me_init signed_in r.0 r.1
request_raw-Exchange_example =
    request_raw-Exchange serve parse pair_of error_body_of me_init signed_in

-- The request, the refresh and the retry.
request_raw_test :
    length (request_raw serve parse pair_of error_body_of me_init signed_in).1.sent ≡ 3
unfolding request_raw same
request_raw_test = refl

Reach-IsInStep_example :
    IsInStep (request_raw serve parse pair_of error_body_of me_init signed_in).1
Reach-IsInStep_example =
    Reach-IsInStep serve parse pair_of error_body_of user_of {u = signed_in} refl
      (InStep.Reach.next InStep.Reach.here (InStep.Step.requests me_init signed_in))

store_logout-IsForgotten_example :
    let r = store_logout serve parse pair_of error_body_of user_of initial signed_in in
    (r.0.user ≡ none)
    × (r.0.login_error ≡ none)
    × IsForgotten serve parse pair_of error_body_of user_of signed_in r.1
store_logout-IsForgotten_example =
    store_logout-IsForgotten serve parse pair_of error_body_of user_of initial signed_in

pair_given :
    Gives serve parse pair_of error_body_of user_of
      (serve (request_for (login_init (codes "a@b") (codes "pw")) signed_out) 0)
      (codes "t1")
      1
unfolding same is_empty
pair_given = record {
  status = 200;
  text = codes "OK";
  body = codes "t1";
  answer = refl;
  ok = refl;
  some_content = refl;
  filled = refl;
  parsed = refl;
}

abbrev behind_login : World ℕ
behind_login =
    let_in serve parse pair_of error_body_of user_of (codes "a@b") (codes "pw") (codes "t1") 1
      signed_out

user_given :
    Gives serve parse pair_of error_body_of user_of
      (serve (request_for me_init behind_login) 1)
      (codes "u1")
      2
unfolding same is_empty
user_given = record {
  status = 200;
  text = codes "OK";
  body = codes "u1";
  answer = refl;
  ok = refl;
  some_content = refl;
  filled = refl;
  parsed = refl;
}

store_login-signs_in_example :
    let r =
      store_login serve parse pair_of error_body_of user_of
        (codes "a@b")
        (codes "pw")
        initial
        signed_out in
    (r.0
      ≡ record initial { user = some (user_of (codes "u1")); logging = false; login_error = none })
    × (r.1 ≡ true)
    × (r.2.tokens ≡ some (stored (pair_of (codes "t1")) (some (codes "a@b"))))
    × (r.2.file ≡ some (stored (pair_of (codes "t1")) (some (codes "a@b"))))
store_login-signs_in_example =
    store_login-signs_in serve parse pair_of error_body_of user_of (codes "a@b") (codes "pw")
      (codes "t1") (codes "u1") 1 2 initial signed_out pair_given user_given
