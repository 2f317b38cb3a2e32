-- ===== src/Tui/Chat/Store.antt =====
-- The state of the chat store and the actions that wait for nothing. An abort controller is a number;
-- the controllers whose `abort` was called are a field of the state. Of the actions that await the
-- API, `loadSession` is three transitions: its start, and what follows an answer or a failure.
use rag_chat_cli.Prelude.{
  ℕ, Bool, true, false, List, [], ◌∷◌, ◌++◌, map, Option, none, some, if◌then◌else◌,
}
use rag_chat_cli.Text.{Text, codes}
use rag_chat_cli.Text.Objects.{insert, delete}
use rag_chat_cli.Wire.{ThinkMode, switched, MessageOut, MessageRole}
use rag_chat_cli.Tui.Chat.Message.{UiMessage, new_message, hydrate}

pub record ChatState : Type 0 where
  pub messages : List UiMessage
  pub cache : List (Text × List UiMessage)
  pub loading : Bool
  pub streaming : Bool
  pub use_rag : Bool
  pub think_mode : ThinkMode
  pub abort_controller : Option ℕ
  pub error : Option Text
  pub aborted : List ℕ

abbrev pub initial : ChatState
initial = record {
  messages = [];
  cache = [];
  loading = false;
  streaming = false;
  use_rag = false;
  think_mode = switched false;
  abort_controller = none;
  error = none;
  aborted = [];
}

unfoldable pub set_use_rag : Bool → ChatState → ChatState
set_use_rag value s = record s { use_rag = value }

unfoldable pub set_think : ThinkMode → ChatState → ChatState
set_think value s = record s { think_mode = value }

unfoldable pub load_start : ChatState → ChatState
load_start s = record s { loading = true; error = none }

unfoldable pub load_done : Text → List MessageOut → ChatState → ChatState
load_done session_id raw s =
    let messages = map hydrate raw in
    record s { loading = false; messages = messages; cache = insert session_id messages s.cache }

unfoldable pub load_failed : Text → ChatState → ChatState
load_failed message s = record s { loading = false; error = some message; messages = [] }

unfoldable pub clear_local : Text → ChatState → ChatState
clear_local session_id s = record s { cache = delete session_id s.cache; messages = [] }

-- `get().abortController?.abort()`
abort_current : Option ℕ → List ℕ → List ℕ
abort_current none aborted = aborted
abort_current (some c) aborted = c ∷ aborted

unfoldable pub stop : ChatState → ChatState
unfolding abort_current
stop s = record s { aborted = abort_current s.abort_controller s.aborted }

unfoldable pub reset : ChatState → ChatState
unfolding abort_current
reset s = record s {
  aborted = abort_current s.abort_controller s.aborted;
  messages = [];
  cache = [];
  streaming = false;
  abort_controller = none;
  error = none;
}

-- `appendMessages`
unfoldable pub append_messages : List UiMessage → Text → ChatState → ChatState
append_messages to_append session_id s =
    let merged = s.messages ++ to_append in
    record s { messages = merged; cache = insert session_id merged s.cache }

-- What an action reads from the clock, `Date.now()` and `toISOString()` for each message, and the
-- controller that it makes.
pub record Fresh : Type 0 where
  pub user_stamp : Text
  pub user_iso : Text
  pub assistant_stamp : Text
  pub assistant_iso : Text
  pub controller : ℕ

abbrev pub user_message : Fresh → Text → UiMessage
user_message f content =
    new_message (codes "temp-user-" ++ f.user_stamp) MessageRole.user content f.user_iso false

abbrev pub assistant_id : Fresh → Text
assistant_id f = codes "temp-asst-" ++ f.assistant_stamp

abbrev pub assistant_message : Fresh → UiMessage
assistant_message f = new_message (assistant_id f) MessageRole.assistant [] f.assistant_iso true

-- `set({streaming: true, abortController: controller, error: null})`
abbrev pub streaming_with : ℕ → ChatState → ChatState
streaming_with controller s = record s {
  streaming = true;
  abort_controller = some controller;
  error = none;
}

-- The request that `send` and `regenerate` hand to the API once the messages are shown.
pub record StreamRequest : Type 0 where
  pub session_id : Text
  pub content : Option Text
  pub use_rag : Bool
  pub think : ThinkMode

-- `send` up to its `await`: nothing while a reply streams.
unfoldable pub send_start : Fresh → Text → Text → ChatState → ChatState × Option StreamRequest
unfolding append_messages
send_start f session_id content s = if s.streaming then (s, none) else (
  streaming_with f.controller
      (append_messages (user_message f content ∷ assistant_message f ∷ []) session_id s),
  some (record {
    session_id = session_id;
    content = some content;
    use_rag = s.use_rag;
    think = s.think_mode;
  }),
)

unfoldable pub regenerate_start : Fresh → Text → ChatState → ChatState × Option StreamRequest
unfolding append_messages
regenerate_start f session_id s = if s.streaming then (s, none) else (
  streaming_with f.controller (append_messages (assistant_message f ∷ []) session_id s),
  some (record {
    session_id = session_id;
    content = none;
    use_rag = s.use_rag;
    think = s.think_mode;
  }),
)
