-- ===== src/Tui/Ui.antt =====
-- The interface state of the terminal client, clients/tui/src/store/ui-store.ts. The id `t<n>` of a
-- toast is its number.
pub mod Toasts
pub mod Panes
use rag_chat_cli.Prelude.{
  ℕ, zero, suc, ◌+◌, ◌-◌, ◌%◌, Bool, true, false, not, List, [], ◌∷◌, ◌++◌, filter, length,
  get_elem?, get_or, Option, none, some, ◌==◌, if◌then◌else◌,
}
use rag_chat_cli.Text.{Text}

pub data Pane : Type 0 where
  sessions transcript composer : Pane

pub data Level : Type 0 where
  info warn error ok : Level

pub record Toast : Type 0 where
  pub id : ℕ
  pub level : Level
  pub message : Text

pub record UiState : Type 0 where
  pub pane : Pane
  pub help_open : Bool
  pub status : Text
  pub follow_bottom : Bool
  pub scroll_offset : ℕ
  pub toasts : List Toast
  pub command_palette_open : Bool
  pub toast_seq : ℕ

abbrev pub pane_order : List Pane
pane_order = sessions ∷ transcript ∷ composer ∷ []

-- `PANE_ORDER.indexOf(pane)`
unfoldable pub pane_index : Pane → ℕ
pane_index sessions = 0
pane_index transcript = 1
pane_index composer = 2

pub data Direction : Type 0 where
  forward backward : Direction

-- `idx + direction + len`
unfoldable pub moved : ℕ → Direction → ℕ → ℕ
moved idx forward len = idx + 1 + len
moved idx backward len = idx + len - 1

unfoldable pub cycle_pane : Direction → UiState → UiState
unfolding pane_index moved
cycle_pane direction s =
    let len = length pane_order in
    let next = moved (pane_index s.pane) direction len % len in
    record s { pane = get_or (get_elem? pane_order next) s.pane }

unfoldable pub set_pane : Pane → UiState → UiState
set_pane pane s = record s { pane = pane }

unfoldable pub set_overlay : Bool → UiState → UiState
set_overlay help s = record s { help_open = help }

unfoldable pub set_status : Text → UiState → UiState
set_status status s = record s { status = status }

unfoldable pub set_follow_bottom : Bool → UiState → UiState
set_follow_bottom true s = record s { follow_bottom = true; scroll_offset = 0 }
set_follow_bottom false s = record s { follow_bottom = false }

-- An integer: `negsuc n` is -(n + 1).
pub data ℤ : Type 0 where
  pos negsuc : ℕ → ℤ

-- `Math.max(0, value)`
unfoldable pub max_zero : ℤ → ℕ
max_zero (pos n) = n
max_zero (negsuc n) = 0

unfoldable pub set_scroll_offset : ℤ → UiState → UiState
unfolding max_zero
set_scroll_offset value s =
    let next = max_zero value in record s { scroll_offset = next; follow_bottom = next == 0 }

unfoldable pub set_command_palette_open : Bool → UiState → UiState
set_command_palette_open value s = record s { command_palette_open = value }

-- The time after which a toast goes, in milliseconds.
abbrev pub lifetime : Level → ℕ
lifetime error = 6000
lifetime _ = 3500

-- `pushToast`: the new state, and the timer that it sets, for the toast of that id.
unfoldable pub push_toast : Level → Text → UiState → UiState × (ℕ × ℕ)
push_toast level message s =
    let id = s.toast_seq + 1 in
    (
      record s {
        toasts = s.toasts ++ (record { id = id; level = level; message = message } ∷ []);
        toast_seq = id;
      },
      (id, lifetime level),
    )

-- `dismissToast`, and what the timer of a toast does.
unfoldable pub dismiss_toast : ℕ → UiState → UiState
dismiss_toast id s = record s { toasts = filter (λ t. not (t.id == id)) s.toasts }
