-- ===== src/Web/Chat/Stream.antt =====
-- `runStream` of the web client: events wait in a queue that a timer, or the last event, flushes.
use rag_chat_cli.Prelude.{
  Bool, true, false, not, ◌&&◌, ◌||◌, List, [], ◌∷◌, ◌++◌, Option, none, some, if◌then◌else◌,
}
use rag_chat_cli.Text.{Text, codes, same}
use rag_chat_cli.Wire.{ThinkMode, ErrorPayload, StreamEvent, done, error}
use rag_chat_cli.Web.Chat.Message.{UiMessage, apply_stream_events}
use rag_chat_cli.Web.Chat.Store.{
  ChatStore, is_session, InitSessionInput, init_session, set_use_rag, set_think,
  set_model_selection, abort,
}

-- `messages.map((m) => (m.id === id ? change(m) : m))`
unfoldable pub change_message : Text → (UiMessage → UiMessage) → List UiMessage → List UiMessage
change_message id change [] = []
change_message id change (m ∷ ms) =
    (if same m.id id then change m else m) ∷ change_message id change ms

-- The variables of a stream.
pub record Task : Type 0 where
  pub pending : List StreamEvent
  pub timer : Bool
  pub saw_error : Bool

abbrev pub new_task : Task
new_task = record { pending = []; timer = false; saw_error = false }

pub record Running : Type 0 where
  pub task : Task
  pub store : ChatStore

abbrev pub is_nil : List StreamEvent → Bool
is_nil [] = true
is_nil (e ∷ es) = false

-- `event.type === "error"`, and `"done"` or `"error"`
abbrev pub is_error : StreamEvent → Bool
is_error (error p) = true
is_error _ = false

abbrev pub is_last : StreamEvent → Bool
is_last (done d) = true
is_last (error p) = true
is_last _ = false

-- What else happens to the store while the reply streams.
pub data Action : Type 0 where
  sets_use_rag : Bool → Action
  sets_think : ThinkMode → Action
  selects_model : Option Text → Option Text → Action
  aborts : Action
  opens : InitSessionInput → Action

unfoldable pub act : Action → ChatStore → ChatStore
act (sets_use_rag b) s = set_use_rag b s
act (sets_think t) s = set_think t s
act (selects_model p m) s = set_model_selection p m s
act aborts s = abort s
act (opens i) s = init_session i s

pub data Tick : Type 0 where
  event : StreamEvent → Tick
  timer_fires : Tick
  action : Action → Tick

-- An error that is thrown: an `AbortError`, an `ApiError` with its code, another one.
pub data Thrown : Type 0 where
  abort_error : Thrown
  api_error : (code message : Text) → Thrown
  an_error : (message : Text) → Thrown

pub data Outcome : Type 0 where
  returned : Outcome
  threw : Thrown → Outcome

abbrev payload_of : Text → Text → ErrorPayload
payload_of code message = record {
  code = code;
  message = message;
  upstream_status = none;
  upstream_url = none;
  retry_after = none;
}

-- What the `catch` does to the placeholder.
unfoldable pub fail_message : Thrown → UiMessage → UiMessage
fail_message abort_error m = record m { streaming = some false }
fail_message (api_error code message) m = record m {
  streaming = some false;
  error = some (payload_of code message);
}
fail_message (an_error message) m = record m {
  streaming = some false;
  error = some (payload_of (codes "transport_error") message);
}

module _ (sid pid : Text) where
  -- `flushPending`
  unfoldable pub flush : Running → Running
  flush r =
      let task = record (r.task) { timer = false } in
      if is_nil r.task.pending || not (is_session sid r.store.session_id)
      then record { task = task; store = r.store }
      else record {
        task = record task { pending = [] };
        store = record (r.store) {
          messages =
              change_message pid (λ m. apply_stream_events m r.task.pending) r.store.messages;
        };
      }

  -- One event, in the session of the stream.
  unfoldable pub receive : StreamEvent → Running → Running
  unfolding flush
  receive e r =
      let queued = record (r.task) {
        saw_error = is_error e || r.task.saw_error;
        pending = r.task.pending ++ (e ∷ []);
      } in
      if is_last e
      then flush (record { task = queued; store = r.store })
      else record { task = record queued { timer = true }; store = r.store }

  unfoldable pub fire : Running → Running
  unfolding flush
  fire r = if r.task.timer then flush r else r

  -- The loop, and whether it left because the store shows another session.
  unfoldable pub consume : List Tick → Running → Running × Bool
  consume [] r = (r, false)
  consume (event e ∷ ts) r =
      let rest = consume ts (receive e r) in
      if not (is_session sid r.store.session_id) then (r, true) else rest
  consume (timer_fires ∷ ts) r = consume ts (fire r)
  consume (action a ∷ ts) r = consume ts (record r { store = act a r.store })

  -- The `finally`.
  unfoldable pub release : Running → Running
  release r =
      let task = record (r.task) { timer = false } in
      if is_session sid r.store.session_id
      then record {
        task = task;
        store = record (r.store) { streaming = false; abort_controller = none };
      }
      else record { task = task; store = r.store }

  unfoldable pub catch_error : Thrown → Running → Running
  unfolding fail_message
  catch_error t r =
      if is_session sid r.store.session_id
      then record r {
        store = record (r.store) {
          messages = change_message pid (fail_message t) r.store.messages;
        };
      }
      else r

  -- The end of a stream, and whether it was read to its end.
  unfoldable pub settle : Outcome → Running × Bool → Running × Bool
  unfolding release flush catch_error
  settle o (r, true) = (release r, false)
  settle returned (r, false) = (release (flush r), true)
  settle (threw t) (r, false) = (release (catch_error t (flush r)), false)

  -- `runStream` up to the refetch of the persisted messages, from the store that `send` or
  -- `regenerate` left, and whether that refetch follows.
  unfoldable pub run_stream : List Tick → Outcome → ChatStore → ChatStore × Bool
  unfolding consume settle
  run_stream ticks o s =
      let ended = settle o (consume ticks (record { task = new_task; store = s })) in
      (
        ended.0.store,
        ended.1 && (not ended.0.task.saw_error && is_session sid ended.0.store.session_id),
      )
