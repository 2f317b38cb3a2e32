-- ===== src/Tests/Tui.antt =====
-- The stores of the terminal client at concrete inputs.
pub mod Api
pub mod Chat
pub mod Texts
pub mod Layouts
use mathlib.Core.List.{Perm}
use rag_chat_cli.Prelude.{
  ℕ, ◌+◌, ◌<◌, ◌≤◌, Bool, true, false, not, List, [], ◌∷◌, ◌++◌, Option, none, some, ◌≡◌, ◌≢◌, refl,
  arith, All,
}
use rag_chat_cli.Text.{Text, codes, is_empty, same}
use rag_chat_cli.Wire.{SessionMeta}
use rag_chat_cli.Tui.Sessions
use rag_chat_cli.Tui.Sessions.Order.{IsListed, refresh_done-IsListed}
use rag_chat_cli.Tui.Sessions.Active
use rag_chat_cli.Tui.Sessions.Active.{HasActive, Reach-HasActive}
use rag_chat_cli.Tui.Providers
use rag_chat_cli.Tui.Providers.{ProviderOut, returns, ensure_loaded, fetch_done, forget}
use rag_chat_cli.Tui.Providers.Coalesce
use rag_chat_cli.Tui.Providers.Coalesce.{IsCoalesced, Reach-IsCoalesced}
use rag_chat_cli.Tui.Ui.{
  UiState, Toast, sessions, transcript, composer, ok, error, forward, backward, cycle_pane,
  pane_index, pos, set_scroll_offset, push_toast, dismiss_toast,
}
use rag_chat_cli.Tui.Ui.Panes
use rag_chat_cli.Tui.Ui.Panes.{FollowsBottom, cycle_pane_laws, Step-FollowsBottom}
use rag_chat_cli.Tui.Ui.Toasts
use rag_chat_cli.Tui.Ui.Toasts.{HasDistinctIds, Reach-IsKept}

-- A date is the number of its code units.
abbrev date_parse : Text → ℕ
date_parse [] = 0
date_parse (c ∷ t) = date_parse t + 1

abbrev session : Text → Option Bool → Text → SessionMeta
session id pinned updated_at = record {
  id = id;
  title = none;
  provider_id = none;
  model = none;
  pinned = pinned;
  created_at = codes "1";
  updated_at = updated_at;
  message_count = none;
}

abbrev old : SessionMeta
old = session (codes "old") none []

abbrev new : SessionMeta
new = session (codes "new") none (codes "333")

abbrev pinned : SessionMeta
pinned = session (codes "pin") (some true) (codes "22")

abbrev listed : Sessions.SessionState
listed = Sessions.refresh_done date_parse (old ∷ new ∷ pinned ∷ []) Sessions.initial

refresh_done-IsListed_example :
    IsListed date_parse listed.sessions × Perm listed.sessions (old ∷ new ∷ pinned ∷ [])
refresh_done-IsListed_example =
    refresh_done-IsListed date_parse (old ∷ new ∷ pinned ∷ []) Sessions.initial

refresh_done_test :
    (listed.sessions ≡ pinned ∷ new ∷ old ∷ []) × (listed.active_id ≡ some (codes "pin"))
unfolding Sessions.refresh_done Sessions.stands_behind is_empty same
refresh_done_test = (refl, refl)

Reach-HasActive_example : HasActive (Sessions.remove_done (codes "pin") listed)
Reach-HasActive_example = Reach-HasActive date_parse (
    Active.Reach.next
      (Active.Reach.next Active.Reach.here
        (Active.Step.refreshes (old ∷ new ∷ pinned ∷ []) Sessions.initial))
      (Active.Step.removes (codes "pin") listed))

remove_done_test : (Sessions.remove_done (codes "pin") listed).active_id ≡ some (codes "new")
unfolding Sessions.remove_done Sessions.refresh_done Sessions.stands_behind is_empty same
remove_done_test = refl

abbrev provider : ProviderOut
provider = record {
  id = codes "p1";
  name = codes "local";
  type = codes "ollama";
  base_url = codes "http://localhost";
  has_api_key = false;
  is_default = true;
  enabled = true;
}

abbrev idle : Coalesce.World
idle = record { store = Providers.initial; running = [] }

abbrev twice : Coalesce.World
twice = Coalesce.loads 2 101 300 (Coalesce.loads 1 100 300 idle)

Reach-IsCoalesced_example : IsCoalesced twice
Reach-IsCoalesced_example = Reach-IsCoalesced (
    Coalesce.Reach.next
      (Coalesce.Reach.next Coalesce.Reach.here (Coalesce.Step.calls 1 100 300 idle))
      (Coalesce.Step.calls 2 101 300 (Coalesce.loads 1 100 300 idle)))

abbrev ui : UiState
ui = record {
  pane = composer;
  help_open = false;
  status = [];
  follow_bottom = true;
  scroll_offset = 0;
  toasts = [];
  command_palette_open = false;
  toast_seq = 0;
}

abbrev quiet : Toasts.World
quiet = record { store = ui; timers = [] }

abbrev shown : Toasts.World
shown = record {
  store = (push_toast ok (codes "saved") ui).0;
  timers = (push_toast ok (codes "saved") ui).1.0 ∷ [];
}

Reach-IsKept_example :
    HasDistinctIds shown.store.toasts × All (Toasts.IsTimed shown.timers) shown.store.toasts
Reach-IsKept_example =
    Reach-IsKept ui refl
      (Toasts.Reach.next Toasts.Reach.here (Toasts.Step.pushes ok (codes "saved") quiet))
