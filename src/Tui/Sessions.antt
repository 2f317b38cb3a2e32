-- ===== src/Tui/Sessions.antt =====
-- The session list of the terminal client, clients/tui/src/store/session-store.ts. Each action that
-- awaits the API is its transition for an answer and for a failure. `Date.parse` is a parameter; the
-- dates are valid.
pub mod Order
pub mod Active
use rag_chat_cli.Prelude.{
  ℕ, Bool, true, false, not, ◌&&◌, ◌||◌, List, [], ◌∷◌, map, filter, any, Option, none, some,
  get_or, ltb, if◌then◌else◌,
}
use rag_chat_cli.Text.{Text, same, is_empty}
use rag_chat_cli.Wire.{SessionMeta}

pub record SessionState : Type 0 where
  pub sessions : List SessionMeta
  pub active_id : Option Text
  pub loading : Bool
  pub error : Option Text

abbrev pub initial : SessionState
initial = record { sessions = []; active_id = none; loading = false; error = none }

abbrev pub has_id : Text → SessionMeta → Bool
has_id id s = same s.id id

-- `sessions[0]?.id ?? null`
unfoldable pub first_id : List SessionMeta → Option Text
first_id [] = none
first_id (s ∷ ss) = some s.id

abbrev pub is_pinned : SessionMeta → Bool
is_pinned s = get_or s.pinned false

-- `const nextActive = stillThere ? active : sessions[0]?.id ?? null`
unfoldable pub next_active : Option Text → List SessionMeta → Option Text
unfolding first_id
next_active none ss = first_id ss
next_active (some id) ss = if not (is_empty id) && any (has_id id) ss then some id else first_id ss

module _ (date_parse : Text → ℕ) where
  -- `Date.parse(s.updated_at || s.created_at)`
  abbrev pub changed_at : SessionMeta → ℕ
  changed_at s = date_parse (if is_empty s.updated_at then s.created_at else s.updated_at)

  -- The comparison of `refresh` is positive: `a` stands behind `b`.
  unfoldable pub stands_behind : SessionMeta → SessionMeta → Bool
  stands_behind a b =
      if is_pinned a
      then is_pinned b && ltb (changed_at a) (changed_at b)
      else is_pinned b || ltb (changed_at a) (changed_at b)

  -- `Array.prototype.sort`, which keeps the order of equals.
  unfoldable pub place : SessionMeta → List SessionMeta → List SessionMeta
  place x [] = x ∷ []
  place x (y ∷ ys) = let later = y ∷ place x ys in if stands_behind x y then later else x ∷ y ∷ ys

  unfoldable pub sort : List SessionMeta → List SessionMeta
  unfolding place
  sort [] = []
  sort (x ∷ xs) = place x (sort xs)

  unfoldable pub refresh_done : List SessionMeta → SessionState → SessionState
  unfolding next_active sort
  refresh_done answer s =
      let sessions = sort answer in
      record s {
        sessions = sessions;
        active_id = next_active s.active_id sessions;
        loading = false;
      }

unfoldable pub refresh_start : SessionState → SessionState
refresh_start s = record s { loading = true; error = none }

unfoldable pub refresh_failed : Text → SessionState → SessionState
refresh_failed message s = record s { loading = false; error = some message }

unfoldable pub select : Text → SessionState → SessionState
select id s = record s { active_id = some id }

unfoldable pub create_done : SessionMeta → SessionState → SessionState
create_done created s = record s {
  sessions = created ∷ filter (λ x. not (has_id created.id x)) s.sessions;
  active_id = some created.id;
}

-- `state.activeId === id`
abbrev pub is_active : Text → Option Text → Bool
is_active id none = false
is_active id (some a) = same a id

unfoldable pub remove_done : Text → SessionState → SessionState
unfolding first_id
remove_done id s =
    let sessions = filter (λ x. not (has_id id x)) s.sessions in
    record s {
      sessions = sessions;
      active_id = if is_active id s.active_id then first_id sessions else s.active_id;
    }

unfoldable pub replace : Text → SessionMeta → List SessionMeta → List SessionMeta
replace id updated [] = []
replace id updated (x ∷ xs) = (if has_id id x then updated else x) ∷ replace id updated xs

unfoldable pub rename_done : Text → SessionMeta → SessionState → SessionState
unfolding replace
rename_done id updated s = record s { sessions = replace id updated s.sessions }

-- The failure of `create`, `remove` or `rename`.
unfoldable pub call_failed : Text → SessionState → SessionState
call_failed message s = record s { error = some message }

unfoldable pub upsert_local : SessionMeta → SessionState → SessionState
unfolding replace
upsert_local x s = record s {
  sessions = if any (has_id x.id) s.sessions then replace x.id x s.sessions else x ∷ s.sessions;
}

unfoldable pub reset : SessionState → SessionState
reset s = record s { sessions = []; active_id = none; error = none }
