-- ===== src/Tui/Providers.antt =====
-- The provider cache of the terminal client, clients/tui/src/store/provider-store.ts. Calls of
-- `ensureLoaded` share one fetch, the promise `inflight`, which is a number here.
pub mod Coalesce
use rag_chat_cli.Prelude.{
  ℕ, Bool, true, false, ◌&&◌, ◌-◌, List, [], ◌∷◌, Option, none, some, length, ltb, is_some,
  if◌then◌else◌,
}
use rag_chat_cli.Text.{Text}

pub record ProviderOut : Type 0 where
  pub id : Text
  pub name : Text
  pub type : Text
  pub base_url : Text
  pub has_api_key : Bool
  pub is_default : Bool
  pub enabled : Bool

pub record ProviderState : Type 0 where
  pub providers : List ProviderOut
  pub loading : Bool
  pub fetched_at : ℕ
  pub inflight : Option ℕ

abbrev pub initial : ProviderState
initial = record { providers = []; loading = false; fetched_at = 0; inflight = none }

-- What a call of `ensureLoaded` does: it awaits the promise of another, returns, or fetches.
pub data Call : Type 0 where
  awaits : (promise : ℕ) → Call
  returns : Call
  fetches : (promise : ℕ) → Call

-- `if (inflight) await inflight; return;`
abbrev pub coalesce : Option ℕ → Call
coalesce none = returns
coalesce (some p) = awaits p

-- The cache is not empty and not older than `ttl_ms`. The clock is not set back.
abbrev pub is_fresh : (now ttl_ms : ℕ) → ProviderState → Bool
is_fresh now ttl_ms s = ltb 0 (length s.providers) && ltb (now - s.fetched_at) ttl_ms

-- `ensureLoaded` up to its `await`, with the promise that it would make.
unfoldable pub ensure_loaded : (promise now ttl_ms : ℕ) → ProviderState → ProviderState × Call
ensure_loaded promise now ttl_ms s =
    if s.loading
    then (s, coalesce s.inflight)
    else if is_fresh now ttl_ms s
    then (s, returns)
    else (record s { loading = true; inflight = some promise }, fetches promise)

-- The promise ends: with an answer, or with a failure that is swallowed.
unfoldable pub fetch_done : List ProviderOut → (now : ℕ) → ProviderState → ProviderState
fetch_done answer now s = record s {
  providers = answer;
  fetched_at = now;
  loading = false;
  inflight = none;
}

unfoldable pub fetch_failed : ProviderState → ProviderState
fetch_failed s = record s { loading = false; inflight = none }

unfoldable pub invalidate : ProviderState → ProviderState
invalidate s = record s { fetched_at = 0 }

-- What `/logout` does to this store, clients/tui/src/commands/registry.ts.
unfoldable pub forget : ProviderState → ProviderState
unfolding invalidate
forget s = record (invalidate s) { providers = [] }
