-- ===== src/Tui/Chat/Stream.antt =====
-- A streamed reply: `consumeStream` and `handleStreamError`, with what other actions do to the store
-- between two events.
use rag_chat_cli.Prelude.{
  Bool, false, List, [], ◌∷◌, any, find, Option, none, some, is_some, if◌then◌else◌,
}
use rag_chat_cli.Text.{Text, codes, same}
use rag_chat_cli.Text.Objects.{map_values}
use rag_chat_cli.Wire.{ThinkMode, MessageOut, ErrorPayload, StreamEvent}
use rag_chat_cli.Tui.Chat.Message.{UiMessage, apply_event}
use rag_chat_cli.Tui.Chat.Store.{
  ChatState, set_use_rag, set_think, load_start, load_done, load_failed, clear_local, stop, reset,
  Fresh, assistant_id, send_start, regenerate_start,
}

abbrev pub has_id : Text → UiMessage → Bool
has_id id m = same m.id id

-- `list.map((m) => (m.id === id ? change(m) : m))`
unfoldable pub change_message : Text → (UiMessage → UiMessage) → List UiMessage → List UiMessage
change_message id change [] = []
change_message id change (m ∷ ms) =
    (if has_id id m then change m else m) ∷ change_message id change ms

-- The same, in a list of the cache, which is kept as it is where no message has the id.
unfoldable pub change_cached : Text → (UiMessage → UiMessage) → List UiMessage → List UiMessage
change_cached id change ms = if any (has_id id) ms then change_message id change ms else ms

abbrev pub change_everywhere : Text → (UiMessage → UiMessage) → ChatState → ChatState
change_everywhere id change s = record s {
  messages = change_message id change s.messages;
  cache = map_values (change_cached id change) s.cache;
}

-- One round of the loop of `consumeStream`, with its cursor `messageId`.
unfoldable pub on_event : Text → StreamEvent → ChatState → Text × ChatState
on_event id event s = elim (find (has_id id) s.messages) [
  | none ↦ (id, s)
  | some previous ↦
      let updated = apply_event previous event in
      (if same updated.id id then id else updated.id, change_everywhere id (λ m. updated) s)
]

-- The `finally` of `consumeStream`.
unfoldable pub on_end : ChatState → ChatState
on_end s = record s { streaming = false; abort_controller = none }

-- An error that the stream throws: an `AbortError`, another `Error`, or a value that is none.
pub data Thrown : Type 0 where
  abort_error : Thrown
  an_error : (message : Text) → Thrown
  not_error : Thrown

abbrev pub thrown_message : Thrown → Text
thrown_message abort_error = codes "aborted"
thrown_message (an_error message) = message
thrown_message not_error = codes "stream failed"

abbrev pub thrown_payload : Thrown → Option ErrorPayload
thrown_payload abort_error = none
thrown_payload t = some (record {
  code = codes "transport_error";
  message = thrown_message t;
  upstream_status = none;
  upstream_url = none;
  retry_after = none;
})

abbrev pub error_after : Thrown → Option Text → Option Text
error_after abort_error old = old
error_after t old = some (thrown_message t)

abbrev pub fail_message : Thrown → UiMessage → UiMessage
fail_message t m = record m { streaming = false; error = thrown_payload t }

-- `handleStreamError`
unfoldable pub on_error : Text → Thrown → ChatState → ChatState
on_error id t s = record (change_everywhere id (fail_message t) s) {
  streaming = false;
  abort_controller = none;
  error = error_after t s.error;
}

-- What else may happen to the store while a reply streams.
pub data Action : Type 0 where
  sets_use_rag : Bool → Action
  sets_think : ThinkMode → Action
  starts_load : Action
  ends_load : Text → List MessageOut → Action
  fails_load : Text → Action
  clears_local : Text → Action
  sends : Fresh → Text → Text → Action
  regenerates : Fresh → Text → Action
  stops : Action
  resets : Action

unfoldable pub act : Action → ChatState → ChatState
act (sets_use_rag value) s = set_use_rag value s
act (sets_think value) s = set_think value s
act starts_load s = load_start s
act (ends_load sid raw) s = load_done sid raw s
act (fails_load message) s = load_failed message s
act (clears_local sid) s = clear_local sid s
act (sends f sid content) s = (send_start f sid content s).0
act (regenerates f sid) s = (regenerate_start f sid s).0
act stops s = stop s
act resets s = reset s

-- A schedule: the events that the loop receives, and the actions between them.
pub data Tick : Type 0 where
  event : StreamEvent → Tick
  action : Action → Tick

unfoldable pub consume : Text → List Tick → ChatState → Text × ChatState
consume id [] s = (id, s)
consume id (event e ∷ ts) s = let next = on_event id e s in consume next.0 ts next.1
consume id (action a ∷ ts) s = consume id ts (act a s)

-- How a stream ends: its loop is over, or something throws, before the first event or behind one.
pub data Outcome : Type 0 where
  returned : Outcome
  refused : Thrown → Outcome
  threw : Thrown → Outcome

-- The `catch` of `send` and `regenerate` still has the id that the placeholder was made with.
unfoldable pub settle : Text → Outcome → ChatState → ChatState
settle id returned s = on_end s
settle id (refused t) s = on_error id t s
settle id (threw t) s = on_error id t (on_end s)

unfoldable pub run_stream : Text → List Tick → Outcome → ChatState → ChatState
unfolding settle consume
run_stream id ticks outcome s = settle id outcome (consume id ticks s).1

-- The whole of `send`, over the schedule of its stream.
unfoldable pub send : Fresh → Text → Text → List Tick → Outcome → ChatState → ChatState
unfolding send_start run_stream
send f session_id content ticks outcome s =
    let started = send_start f session_id content s in
    if is_some started.1 then run_stream (assistant_id f) ticks outcome started.0 else s

unfoldable pub regenerate : Fresh → Text → List Tick → Outcome → ChatState → ChatState
unfolding regenerate_start run_stream
regenerate f session_id ticks outcome s =
    let started = regenerate_start f session_id s in
    if is_some started.1 then run_stream (assistant_id f) ticks outcome started.0 else s
