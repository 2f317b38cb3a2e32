-- ===== src/Tui/Chat/Message.antt =====
-- Messages of the transcript: `UIMessage`, `hydrate` and `applyEvent`.
use rag_chat_cli.Prelude.{
  ℕ, Bool, false, List, [], ◌∷◌, ◌++◌, Option, none, some, get_or, or_else, if◌then◌else◌,
}
use rag_chat_cli.Text.{Text, is_empty}
use rag_chat_cli.Wire.{
  MessageRole, ToolCallOut, ToolCallData, AnswerSource, KnowledgeHit, MessageOut, ErrorPayload,
  ToolOutput, StreamEvent, retrieval, token, thought, tool_call, tool_result, done, error, other,
}

pub record ToolResult : Type 0 where
  pub id : Text
  pub name : Text
  pub output : Text
  pub error : Option Text

pub record UiMessage : Type 0 where
  pub id : Text
  pub role : MessageRole
  pub content : Text
  pub created_at : Text
  pub streaming : Bool
  pub thoughts : List Text
  pub tool_calls : List ToolCallOut
  pub tool_results : List ToolResult
  pub retrieval : Option (List KnowledgeHit)
  pub sources : Option (List AnswerSource)
  pub usage : Option (List (Text × ℕ))
  pub duration_ms : Option ℕ
  pub model : Option Text
  pub provider : Option Text
  pub error : Option ErrorPayload

-- The literals of `send` and `regenerate`: a message with nothing in it but these four.
abbrev pub new_message : Text → MessageRole → Text → Text → Bool → UiMessage
new_message id role content created_at streaming = record {
  id = id;
  role = role;
  content = content;
  created_at = created_at;
  streaming = streaming;
  thoughts = [];
  tool_calls = [];
  tool_results = [];
  retrieval = none;
  sources = none;
  usage = none;
  duration_ms = none;
  model = none;
  provider = none;
  error = none;
}

unfoldable pub hydrate : MessageOut → UiMessage
hydrate m = record (new_message m.id m.role m.content m.created_at false) {
  tool_calls = get_or m.tool_calls [];
  sources = m.sources;
}

unfoldable pub call_of : ToolCallData → ToolCallOut
call_of t = record { id = t.tool_call_id; name = t.tool_name; arguments = t.arguments }

unfoldable pub result_of : ToolOutput → ToolResult
result_of t = record {
  id = t.tool_call_id;
  name = t.tool_name;
  output = t.content;
  error = if get_or t.is_error false then some t.content else none;
}

-- `if (!event.data.text) return message`
pub add_thought : UiMessage → Text → UiMessage
add_thought m text = if is_empty text then m else record m { thoughts = m.thoughts ++ (text ∷ []) }

unfoldable pub apply_event : UiMessage → StreamEvent → UiMessage
unfolding add_thought call_of result_of
apply_event m (retrieval hits) = record m { retrieval = some hits }
apply_event m (token delta) = record m { content = m.content ++ get_or delta [] }
apply_event m (thought text) = add_thought m (get_or text [])
apply_event m (tool_call call) = record m { tool_calls = m.tool_calls ++ (call_of call ∷ []) }
apply_event m (tool_result t) = record m { tool_results = m.tool_results ++ (result_of t ∷ []) }
apply_event m (done d) = record m {
  streaming = false;
  id = get_or d.message_id m.id;
  usage = d.usage;
  duration_ms = d.duration_ms;
  sources = or_else d.sources m.sources;
  model = d.model;
  provider = d.provider_name;
}
apply_event m (error payload) = record m { streaming = false; error = some payload }
apply_event m (other type) = m
