-- ===== src/Tui/Providers/Coalesce.antt =====
-- The provider store of clients/tui/src/store/provider-store.ts beside the fetches that run.
use rag_chat_cli.Prelude.{
  ℕ, true, false, List, [], ◌∷◌, none, some, Bool-cases, ◌≡◌, refl, arith, ◌⊎◌, inl, inr,
}
use rag_chat_cli.Tui.Providers.{
  ProviderOut, ProviderState, initial, Call, fetches, is_fresh, ensure_loaded, fetch_done,
  fetch_failed, invalidate, forget,
}

-- The store beside the fetches that run: each by its promise.
pub record World : Type 0 where
  pub store : ProviderState
  pub running : List ℕ

-- A fetch that `ensureLoaded` starts runs from then on.
abbrev pub started : Call → List ℕ → List ℕ
started (fetches p) ps = p ∷ ps
started _ ps = ps

abbrev pub loads : (promise now ttl_ms : ℕ) → World → World
loads p now ttl w =
    let called = ensure_loaded p now ttl w.store in
    record { store = called.0; running = started called.1 w.running }

pub data Step : World → World → Type 0 where
  calls : (p now ttl : ℕ) (w : World) → Step w (loads p now ttl w)
  answers :
      (p now : ℕ) (ps : List ℕ) (list : List ProviderOut) (s : ProviderState)
      → Step
          (record { store = s; running = p ∷ ps })
          (record { store = fetch_done list now s; running = ps })
  fails :
      (p : ℕ) (ps : List ℕ) (s : ProviderState)
      → Step
          (record { store = s; running = p ∷ ps })
          (record { store = fetch_failed s; running = ps })
  invalidates : (w : World) → Step w (record w { store = invalidate w.store })
  logs_out : (w : World) → Step w (record w { store = forget w.store })

pub data Reach (w : World) : World → Type 0 where
  here : Reach w w
  next : {u v : World} → Reach w u → Step u v → Reach w v

-- `loading` tells that a fetch runs, and then it is the only one, and the promise to await.
abbrev pub IsCoalesced : World → Type 0
IsCoalesced w =
    ((w.store.loading ≡ false) × (w.running ≡ []) × (w.store.inflight ≡ none))
    ⊎ ((p : ℕ) × (w.store.loading ≡ true) × (w.running ≡ p ∷ []) × (w.store.inflight ≡ some p))

Step-IsCoalesced : {u v : World} → Step u v → IsCoalesced u → IsCoalesced v
unfolding ensure_loaded fetch_done fetch_failed invalidate forget
Step-IsCoalesced (calls p now ttl w) (inl (idle, none_runs, no_promise)) =
    elim (Bool-cases (is_fresh now ttl w.store)) [
      | inl fresh ↦ inl (ground arith, ground arith, ground arith)
      | inr stale ↦ inr (p, ground arith, ground arith, ground arith)
    ]
Step-IsCoalesced (calls p now ttl w) (inr (q, busy, one, kept)) =
    inr (q, ground arith, ground arith, ground arith)
Step-IsCoalesced (answers p now ps list s) (inl (_, none_runs, _)) = cc
Step-IsCoalesced (answers p now ps list s) (inr (q, busy, one, kept)) =
    inl (refl, ground arith, refl)
Step-IsCoalesced (fails p ps s) (inl (_, none_runs, _)) = cc
Step-IsCoalesced (fails p ps s) (inr (q, busy, one, kept)) = inl (refl, ground arith, refl)
Step-IsCoalesced (invalidates w) h = h
Step-IsCoalesced (logs_out w) h = h

-- However calls, answers, failures, invalidations and logouts interleave, at most one fetch runs;
-- `loading` is set exactly while it does, and then `inflight` is its promise.
pub Reach-IsCoalesced :
    {w : World} → Reach (record { store = initial; running = [] }) w → IsCoalesced w
Reach-IsCoalesced here = inl (refl, refl, refl)
Reach-IsCoalesced (next r st) = Step-IsCoalesced st (Reach-IsCoalesced r)
