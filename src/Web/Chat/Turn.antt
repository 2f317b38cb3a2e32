-- ===== src/Web/Chat/Turn.antt =====
-- A whole turn of the web client: `send` and `regenerate` with their stream and the refetch behind it.
pub mod Ended
use rag_chat_cli.Prelude.{
  ℕ, Bool, true, false, not, ◌&&◌, ◌||◌, any, List, [], ◌∷◌, ◌++◌, Option, none, some, is_some,
  get_or, if_rec, ◌≡◌, ◌≢◌, refl, sym, ap, subst, ◌∙◌, inl, inr, arith, append_assoc, Bool-cases,
  if◌then◌else◌, All, All-append,
}
use rag_chat_cli.Text.{Text, same, is_empty, trim}
use rag_chat_cli.Text.Laws.{same_iff, same_refl}
use rag_chat_cli.Wire.{MessageOut, StreamEvent}
use rag_chat_cli.Web.Chat.Message.{
  Role, user, assistant, UiMessage, bare_message, is_given, apply_stream_events,
}
use rag_chat_cli.Web.Chat.Store.{
  ChatStore, is_session, without_reply, send_start, regenerate_start, placeholder, streaming_with,
  is_refused,
}
use rag_chat_cli.Web.Chat.Stream.{Action, act, change_message, Tick, Outcome, returned, run_stream}
use rag_chat_cli.Web.Chat.Flushes.{events_of, IsQuiet, run_stream-returned}
use rag_chat_cli.Web.Chat.Refetch.{is_persisted, is_user, refetched, adopt}
use rag_chat_cli.Web.Chat.Adopt.{Pairs, Adopts, Pairs-refl, adopt-Pairs}

-- `isFirstTurn`: no reply is persisted yet.
unfoldable pub is_first_turn : List UiMessage → Bool
is_first_turn ms = not (any (λ m. not (is_user m.role) && is_persisted m) ms)

-- What a turn leaves: the store, and the argument of `onTurnEnd`, if it is called.
pub record Turn : Type 0 where
  pub store : ChatStore
  pub turn_end : Option Bool

-- The actions that happen while the refetch runs.
unfoldable pub act_all : List Action → ChatStore → ChatStore
act_all [] s = s
act_all (a ∷ rest) s = act_all rest (act a s)

-- What follows the refetch, `none` if it threw: nothing, where another session is shown by then.
unfoldable pub finish : Text → Bool → Option (List MessageOut) → ChatStore → Turn
unfolding refetched
finish sid first none s = record { store = s; turn_end = some first }
finish sid first (some persisted) s = record {
  store = refetched sid (some persisted) s;
  turn_end = if is_session sid s.session_id then some first else none;
}

-- `runStream`, from the store with the placeholder; `answer` is what the refetch returns.
unfoldable pub run_turn :
    Text → Text → List Tick → Outcome → List Action → Option (List MessageOut) → ChatStore → Turn
unfolding run_stream finish is_first_turn act_all
run_turn sid pid ticks o waits answer s =
    let ended = run_stream sid pid ticks o s in
    if ended.1
    then finish sid (is_first_turn s.messages) answer (act_all waits ended.0)
    else record { store = ended.0; turn_end = none }

-- What a turn takes from the platform: a controller and two random ids.
pub record Fresh : Type 0 where
  pub controller : ℕ
  pub user_id : Text
  pub assistant_id : Text

unfoldable pub send :
    Fresh → Text → List Tick → Outcome → List Action → Option (List MessageOut) → ChatStore → Turn
unfolding send_start run_turn
send f content ticks o waits answer s =
    let started = send_start f.controller f.user_id f.assistant_id content s in
    let turn = run_turn (get_or s.session_id []) f.assistant_id ticks o waits answer started.0 in
    if is_some started.1 then turn else record { store = s; turn_end = none }

unfoldable pub regenerate :
    Fresh → List Tick → Outcome → List Action → Option (List MessageOut) → ChatStore → Turn
unfolding regenerate_start run_turn
regenerate f ticks o waits answer s =
    let started = regenerate_start f.controller f.assistant_id s in
    let turn = run_turn (get_or s.session_id []) f.assistant_id ticks o waits answer started.0 in
    if started.1 then turn else record { store = s; turn_end = none }
