-- ===== src/Tui/Sessions/Active.antt =====
-- The active session under the actions of clients/tui/src/store/session-store.ts.
use rag_chat_cli.Prelude.{
  ℕ, true, false, not, List, [], ◌∷◌, filter, any, Option, none, some, ◌≡◌, refl, inl, inr, arith,
  Bool-cases, if◌then◌else◌, ◌&&◌,
}
use rag_chat_cli.Text.{Text, same, is_empty}
use rag_chat_cli.Text.Laws.{same_iff, same_refl}
use rag_chat_cli.Wire.{SessionMeta}
use rag_chat_cli.Tui.Sessions.{
  SessionState, initial, has_id, first_id, sort, next_active, refresh_start, refresh_done,
  refresh_failed, select, create_done, is_active, remove_done, replace, rename_done, call_failed,
  upsert_local, reset,
}

-- `null`, or the id of a listed session.
abbrev pub IsListedId : Option Text → List SessionMeta → Type 0
IsListedId none ss = Unit
IsListedId (some id) ss = any (has_id id) ss ≡ true

abbrev pub HasActive : SessionState → Type 0
HasActive s = IsListedId s.active_id s.sessions

first_id-IsListedId : (ss : List SessionMeta) → IsListedId (first_id ss) ss
unfolding first_id
first_id-IsListedId [] = tt
first_id-IsListedId (s ∷ ss) = rw (same_refl s.id)

next_active-IsListedId :
    (o : Option Text) (ss : List SessionMeta) → IsListedId (next_active o ss) ss
unfolding next_active
next_active-IsListedId none ss = first_id-IsListedId ss
next_active-IsListedId (some id) ss = elim (Bool-cases (not (is_empty id) && any (has_id id) ss)) [
  | inl kept ↦ rw kept (ground arith)
  | inr gone ↦ rw gone (first_id-IsListedId ss)
]

any-filter :
    (a id : Text) (ss : List SessionMeta)
    → same a id ≡ false
    → any (has_id a) ss ≡ true
    → any (has_id a) (filter (λ x. not (has_id id x)) ss) ≡ true
any-filter a id [] ne h = cc
any-filter a id (s ∷ ss) ne h =
    ground (arith, any-filter a id ss ne, same_iff s.id a, same_iff s.id id, same_iff a id)

any-replace :
    (a id : Text) (x : SessionMeta) (ss : List SessionMeta)
    → x.id ≡ id
    → any (has_id a) ss ≡ true
    → any (has_id a) (replace id x ss) ≡ true
unfolding replace
any-replace a id x [] e h = cc
any-replace a id x (s ∷ ss) e h =
    ground (arith, any-replace a id x ss e, same_iff s.id a, same_iff s.id id, same_iff x.id a)

remove-IsListedId :
    (id : Text) (o : Option Text) (ss : List SessionMeta)
    → IsListedId o ss
    → let left = filter (λ x. not (has_id id x)) ss in
      IsListedId (if is_active id o then first_id left else o) left
remove-IsListedId id none ss h = tt
remove-IsListedId id (some a) ss h = elim (Bool-cases (same a id)) [
  | inl gone ↦ rw gone (first_id-IsListedId _)
  | inr kept ↦ rw kept (any-filter a id ss kept h)
]

keep-IsListedId :
    (o : Option Text) (ss ts : List SessionMeta)
    → ((a : Text) → any (has_id a) ss ≡ true → any (has_id a) ts ≡ true)
    → IsListedId o ss
    → IsListedId o ts
keep-IsListedId none ss ts keep h = tt
keep-IsListedId (some a) ss ts keep h = keep a h

upsert-keeps :
    (x : SessionMeta) (ss : List SessionMeta) (a : Text)
    → any (has_id a) ss ≡ true
    → any (has_id a) (if any (has_id x.id) ss then replace x.id x ss else x ∷ ss) ≡ true
upsert-keeps x ss a h = ground (arith, any-replace a x.id x ss refl h)

-- A transition of the store: `select` is called with the id of a listed session, and the answer to
-- `rename` has the id that was asked for.
pub data Step (date_parse : Text → ℕ) : SessionState → SessionState → Type 0 where
  starts_refresh : (s : SessionState) → Step date_parse s (refresh_start s)
  refreshes :
      (answer : List SessionMeta) (s : SessionState)
      → Step date_parse s (refresh_done date_parse answer s)
  fails_refresh : (m : Text) (s : SessionState) → Step date_parse s (refresh_failed m s)
  selects :
      (id : Text) (s : SessionState)
      → any (has_id id) s.sessions ≡ true
      → Step date_parse s (select id s)
  creates : (created : SessionMeta) (s : SessionState) → Step date_parse s (create_done created s)
  removes : (id : Text) (s : SessionState) → Step date_parse s (remove_done id s)
  renames :
      (id : Text) (updated : SessionMeta) (s : SessionState)
      → updated.id ≡ id
      → Step date_parse s (rename_done id updated s)
  fails : (m : Text) (s : SessionState) → Step date_parse s (call_failed m s)
  upserts : (x : SessionMeta) (s : SessionState) → Step date_parse s (upsert_local x s)
  resets : (s : SessionState) → Step date_parse s (reset s)

pub data Reach (date_parse : Text → ℕ) (s : SessionState) : SessionState → Type 0 where
  here : Reach date_parse s s
  next : {t u : SessionState} → Reach date_parse s t → Step date_parse t u → Reach date_parse s u

Step-HasActive :
    (date_parse : Text → ℕ) {s t : SessionState} → Step date_parse s t → HasActive s → HasActive t
unfolding refresh_start refresh_done refresh_failed select create_done remove_done rename_done
    call_failed upsert_local reset
Step-HasActive d (starts_refresh s) h = h
Step-HasActive d (refreshes answer s) h = next_active-IsListedId s.active_id (sort d answer)
Step-HasActive d (fails_refresh m s) h = h
Step-HasActive d (selects id s listed) h = listed
Step-HasActive d (creates created s) h = rw (same_refl created.id)
Step-HasActive d (removes id s) h = remove-IsListedId id s.active_id s.sessions h
Step-HasActive d (renames id updated s e) h =
    keep-IsListedId s.active_id s.sessions _ (λ a. any-replace a id updated s.sessions e) h
Step-HasActive d (fails m s) h = h
Step-HasActive d (upserts x s) h =
    keep-IsListedId s.active_id s.sessions _ (upsert-keeps x s.sessions) h
Step-HasActive d (resets s) h = tt

-- In every state that the store reaches the active session is `null` or a listed one, if `select`
-- is given listed ids and a renamed session keeps its id.
pub Reach-HasActive :
    (date_parse : Text → ℕ) {s : SessionState} → Reach date_parse initial s → HasActive s
Reach-HasActive d here = tt
Reach-HasActive d (next r st) = Step-HasActive d st (Reach-HasActive d r)
