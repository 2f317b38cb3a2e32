-- ===== src/Web/Chat/Store.antt =====
-- The state of the web chat store and the actions that await nothing. An abort controller is a number;
-- the controllers whose `abort` was called are a field of the state.
use rag_chat_cli.Prelude.{
  ℕ, Bool, true, false, not, ◌||◌, List, [], ◌∷◌, ◌++◌, reverse, Option, none, some, get_or,
  if◌then◌else◌,
}
use rag_chat_cli.Text.{Text, same, is_empty, trim}
use rag_chat_cli.Wire.{ThinkMode, switched, MessageOut}
use rag_chat_cli.Web.Chat.Message.{
  user, assistant, UiMessage, bare_message, is_given, hydrate_messages,
}

pub record ChatStore : Type 0 where
  pub session_id : Option Text
  pub messages : List UiMessage
  pub streaming : Bool
  pub abort_controller : Option ℕ
  pub use_rag : Bool
  pub think : ThinkMode
  pub provider_id : Option Text
  pub model : Option Text
  pub aborted : List ℕ

abbrev pub initial : ChatStore
initial = record {
  session_id = none;
  messages = [];
  streaming = false;
  abort_controller = none;
  use_rag = true;
  think = switched true;
  provider_id = none;
  model = none;
  aborted = [];
}

-- `get().sessionId === sessionId`
abbrev pub is_session : Text → Option Text → Bool
is_session sid none = false
is_session sid (some s) = same s sid

unfoldable pub aborting : Option ℕ → List ℕ → List ℕ
aborting none cs = cs
aborting (some c) cs = c ∷ cs

unfoldable pub abort : ChatStore → ChatStore
unfolding aborting
abort s = record s { aborted = aborting s.abort_controller s.aborted }

pub record InitSessionInput : Type 0 where
  pub session_id : Text
  pub initial_messages : List MessageOut
  pub session_model : Option Text
  pub session_provider : Option Text
  pub provider_id : Option Text
  pub model : Option Text
  pub default_use_rag : Option Bool

-- The same session keeps its transcript and its stream; another one aborts the stream.
unfoldable pub init_session : InitSessionInput → ChatStore → ChatStore
unfolding abort
init_session i s =
    if is_session i.session_id s.session_id
    then record s {
      provider_id = i.provider_id;
      model = i.model;
      use_rag = get_or i.default_use_rag s.use_rag;
    }
    else record (abort s) {
      session_id = some i.session_id;
      messages = hydrate_messages i.initial_messages i.session_model i.session_provider;
      streaming = false;
      abort_controller = none;
      provider_id = i.provider_id;
      model = i.model;
      use_rag = get_or i.default_use_rag false;
    }

unfoldable pub set_use_rag : Bool → ChatStore → ChatStore
set_use_rag enabled s = record s { use_rag = enabled }

unfoldable pub set_think : ThinkMode → ChatStore → ChatStore
set_think next s = record s { think = next }

unfoldable pub set_model_selection : Option Text → Option Text → ChatStore → ChatStore
set_model_selection provider_id model s = record s { provider_id = provider_id; model = model }

-- The placeholder that a stream fills.
abbrev pub placeholder : Text → UiMessage
placeholder id = record (bare_message id assistant []) { streaming = some true }

-- `set({ streaming: true, abortController: controller })`
abbrev pub streaming_with : ℕ → ChatStore → ChatStore
streaming_with controller s = record s { streaming = true; abort_controller = some controller }

-- `!sessionId || !trimmed || state.streaming`
abbrev pub is_refused : Text → ChatStore → Bool
is_refused trimmed s = not (is_given s.session_id) || (is_empty trimmed || s.streaming)

-- `send` up to its stream: the text that is asked, or `none` where it returns at once.
unfoldable pub send_start :
    (controller : ℕ) → (user_id assistant_id content : Text) → ChatStore → ChatStore × Option Text
send_start controller user_id assistant_id content s =
    let trimmed = trim content in
    if is_refused trimmed s then (s, none) else (
      streaming_with controller (record s {
        messages =
            s.messages ++ (bare_message user_id user trimmed ∷ placeholder assistant_id ∷ []);
      }),
      some trimmed,
    )

-- The last message is taken off, if it is an assistant's; the list is newest first.
without_reply_from : List UiMessage → List UiMessage
without_reply_from [] = []
without_reply_from (m ∷ ms) = elim m.role [ assistant ↦ ms | user ↦ m ∷ ms ]

unfoldable pub without_reply : List UiMessage → List UiMessage
unfolding without_reply_from
without_reply ms = reverse (without_reply_from (reverse ms))

unfoldable pub regenerate_start :
    (controller : ℕ) → (placeholder_id : Text) → ChatStore → ChatStore × Bool
unfolding without_reply
regenerate_start controller placeholder_id s =
    if not (is_given s.session_id) || s.streaming then (s, false) else (
      streaming_with controller
          (record s { messages = without_reply s.messages ++ (placeholder placeholder_id ∷ []) }),
      true,
    )
