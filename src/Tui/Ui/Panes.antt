-- ===== src/Tui/Ui/Panes.antt =====
-- Moving between panes and scrolling, clients/tui/src/store/ui-store.ts.
use rag_chat_cli.Prelude.{ℕ, Bool, true, false, ◌≡◌, ◌≢◌, refl, sym, ◌∙◌, arith}
use rag_chat_cli.Text.{Text}
use rag_chat_cli.Tui.Ui.{
  Pane, sessions, transcript, composer, Level, UiState, pane_index, Direction, forward, backward,
  cycle_pane, ℤ, set_follow_bottom, set_scroll_offset, set_pane, set_overlay, set_status,
  set_command_palette_open, push_toast, dismiss_toast,
}

abbrev pub opposite : Direction → Direction
opposite forward = backward
opposite backward = forward

-- The pane behind and the pane before, as a table.
abbrev turned : Direction → Pane → Pane
turned forward sessions = transcript
turned forward transcript = composer
turned forward composer = sessions
turned backward sessions = composer
turned backward transcript = sessions
turned backward composer = transcript

cycle_pane-turned_at :
    (p : Pane) (d : Direction) (s : UiState) → s.pane ≡ p → (cycle_pane d s).pane ≡ turned d p
unfolding cycle_pane
cycle_pane-turned_at sessions forward s e = rw (e, pane_index) refl
cycle_pane-turned_at transcript forward s e = rw (e, pane_index) refl
cycle_pane-turned_at composer forward s e = rw (e, pane_index) refl
cycle_pane-turned_at sessions backward s e = rw (e, pane_index) refl
cycle_pane-turned_at transcript backward s e = rw (e, pane_index) refl
cycle_pane-turned_at composer backward s e = rw (e, pane_index) refl

cycle_pane-turned : (d : Direction) (s : UiState) → (cycle_pane d s).pane ≡ turned d s.pane
cycle_pane-turned d s = cycle_pane-turned_at s.pane d s refl

turned_laws :
    (d : Direction) (p : Pane)
    → (turned (opposite d) (turned d p) ≡ p)
      × (turned d (turned d (turned d p)) ≡ p)
      × (turned d p ≢ p)
turned_laws forward sessions = (refl, refl, λ e. cc)
turned_laws forward transcript = (refl, refl, λ e. cc)
turned_laws forward composer = (refl, refl, λ e. cc)
turned_laws backward sessions = (refl, refl, λ e. cc)
turned_laws backward transcript = (refl, refl, λ e. cc)
turned_laws backward composer = (refl, refl, λ e. cc)

-- Tab and shift-tab undo each other, three steps one way come round, and one step never stays.
pub cycle_pane_laws :
    (d : Direction) (s : UiState)
    → ((cycle_pane (opposite d) (cycle_pane d s)).pane ≡ s.pane)
      × ((cycle_pane d (cycle_pane d (cycle_pane d s))).pane ≡ s.pane)
      × ((cycle_pane d s).pane ≢ s.pane)
cycle_pane_laws d s =
    let (back, round, moves) = turned_laws d s.pane in
    (
      simp cycle_pane-turned back,
      simp cycle_pane-turned round,
      λ e. moves (sym (cycle_pane-turned d s) ∙ e),
    )

-- The transcript follows its end only where nothing is scrolled.
abbrev pub FollowsBottom : UiState → Type 0
FollowsBottom s = s.follow_bottom ≡ true → s.scroll_offset ≡ 0

pub data Step : UiState → UiState → Type 0 where
  sets_pane : (p : Pane) (s : UiState) → Step s (set_pane p s)
  cycles : (d : Direction) (s : UiState) → Step s (cycle_pane d s)
  sets_overlay : (b : Bool) (s : UiState) → Step s (set_overlay b s)
  sets_status : (t : Text) (s : UiState) → Step s (set_status t s)
  follows : (b : Bool) (s : UiState) → Step s (set_follow_bottom b s)
  scrolls : (v : ℤ) (s : UiState) → Step s (set_scroll_offset v s)
  sets_palette : (b : Bool) (s : UiState) → Step s (set_command_palette_open b s)
  pushes : (l : Level) (m : Text) (s : UiState) → Step s (push_toast l m s).0
  dismisses : (id : ℕ) (s : UiState) → Step s (dismiss_toast id s)

-- Every action keeps this: where the transcript follows its end, nothing is scrolled.
pub Step-FollowsBottom : {s t : UiState} → Step s t → FollowsBottom s → FollowsBottom t
unfolding set_pane cycle_pane set_overlay set_status set_follow_bottom set_scroll_offset
    set_command_palette_open push_toast dismiss_toast
Step-FollowsBottom (follows true s) h = λ e. refl
Step-FollowsBottom (follows false s) h = λ e. cc
Step-FollowsBottom (scrolls v s) h = λ e. ground arith
Step-FollowsBottom (sets_pane p s) h = h
Step-FollowsBottom (cycles d s) h = h
Step-FollowsBottom (sets_overlay b s) h = h
Step-FollowsBottom (sets_status t s) h = h
Step-FollowsBottom (sets_palette b s) h = h
Step-FollowsBottom (pushes l m s) h = h
Step-FollowsBottom (dismisses id s) h = h
