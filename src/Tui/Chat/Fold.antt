-- ===== src/Tui/Chat/Fold.antt =====
-- `applyEvent` of clients/tui/src/store/chat-store.ts over all events of a stream.
use rag_chat_cli.Prelude.{
  Bool, true, false, ◌&&◌, List, [], ◌∷◌, ◌++◌, Option, none, some, get_or, or_else, ◌≡◌, refl, sym,
  arith, append-nil, append_assoc, if◌then◌else◌,
}
use rag_chat_cli.Text.{Text, is_empty}
use rag_chat_cli.Wire.{
  ToolCallOut, ToolCallData, ToolOutput, KnowledgeHit, ErrorPayload, StreamEvent, retrieval, token,
  thought, tool_call, tool_result, done, error,
}
use rag_chat_cli.Tui.Chat.Message.{
  UiMessage, ToolResult, call_of, result_of, add_thought, apply_event,
}

-- Each event in its turn.
abbrev pub apply_events : UiMessage → List StreamEvent → UiMessage
apply_events m [] = m
apply_events m (e ∷ es) = apply_events (apply_event m e) es

-- The text that the tokens of a stream spell.
abbrev pub spelled : List StreamEvent → Text
spelled [] = []
spelled (token delta ∷ es) = get_or delta [] ++ spelled es
spelled (_ ∷ es) = spelled es

abbrev thought_of : Text → List Text
thought_of text = if is_empty text then [] else text ∷ []

abbrev pub thoughts_in : List StreamEvent → List Text
thoughts_in [] = []
thoughts_in (thought text ∷ es) = thought_of (get_or text []) ++ thoughts_in es
thoughts_in (_ ∷ es) = thoughts_in es

-- The call of an event, by its id, its tool and its arguments.
abbrev pub carried_call : ToolCallData → ToolCallOut
carried_call t = record { id = t.tool_call_id; name = t.tool_name; arguments = t.arguments }

-- The result of an event, whose content is an error where it says so.
abbrev pub carried_result : ToolOutput → ToolResult
carried_result t = record {
  id = t.tool_call_id;
  name = t.tool_name;
  output = t.content;
  error = if get_or t.is_error false then some t.content else none;
}

abbrev pub calls_in : List StreamEvent → List ToolCallOut
calls_in [] = []
calls_in (tool_call call ∷ es) = carried_call call ∷ calls_in es
calls_in (_ ∷ es) = calls_in es

abbrev pub results_in : List StreamEvent → List ToolResult
results_in [] = []
results_in (tool_result t ∷ es) = carried_result t ∷ results_in es
results_in (_ ∷ es) = results_in es

abbrev pub goes_on : List StreamEvent → Bool
goes_on [] = true
goes_on (done d ∷ es) = false
goes_on (error e ∷ es) = false
goes_on (_ ∷ es) = goes_on es

abbrev pub last_hits : List StreamEvent → Option (List KnowledgeHit)
last_hits [] = none
last_hits (retrieval hits ∷ es) = or_else (last_hits es) (some hits)
last_hits (_ ∷ es) = last_hits es

abbrev pub last_error : List StreamEvent → Option ErrorPayload
last_error [] = none
last_error (error e ∷ es) = or_else (last_error es) (some e)
last_error (_ ∷ es) = last_error es

-- The message `m'` is `m` with what the events `es` carry.
pub record Carries (m : UiMessage) (es : List StreamEvent) (m' : UiMessage) : Type 0 where
  pub content : m'.content ≡ m.content ++ spelled es
  pub thoughts : m'.thoughts ≡ m.thoughts ++ thoughts_in es
  pub tool_calls : m'.tool_calls ≡ m.tool_calls ++ calls_in es
  pub tool_results : m'.tool_results ≡ m.tool_results ++ results_in es
  pub streaming : m'.streaming ≡ (m.streaming && goes_on es)
  pub retrieval : m'.retrieval ≡ or_else (last_hits es) m.retrieval
  pub error : m'.error ≡ or_else (last_error es) m.error

-- The message that a stream leaves holds the text of its tokens, its thoughts that are not empty,
-- its tool calls by id, name and arguments, and its tool results, all in their order behind what the
-- message held; its last retrieval
-- and error, or else the message's own; and it streams still only if it did and no `done` or
-- `error` event came.
pub apply_events-Carries :
    (m : UiMessage) (es : List StreamEvent) → Carries m es (apply_events m es)
unfolding apply_event call_of result_of
apply_events-Carries m [] = record {
  content = sym (append-nil _);
  thoughts = sym (append-nil _);
  tool_calls = sym (append-nil _);
  tool_results = sym (append-nil _);
  streaming = ground arith;
  retrieval = refl;
  error = refl;
}
apply_events-Carries m (thought text ∷ es) = ground (
  arith,
  append_assoc m.thoughts (thought_of (get_or text [])) (thoughts_in es),
  append_assoc m.thoughts [] (thoughts_in es),
  apply_events-Carries (add_thought m (get_or text [])) es,
)
apply_events-Carries m (token delta ∷ es) = ground (
  arith,
  append_assoc m.content (get_or delta []) (spelled es),
  apply_events-Carries (record m { content = m.content ++ get_or delta [] }) es,
)
apply_events-Carries m (tool_call call ∷ es) = ground (
  arith,
  append_assoc m.tool_calls (carried_call call ∷ []) (calls_in es),
  apply_events-Carries (record m { tool_calls = m.tool_calls ++ (carried_call call ∷ []) }) es,
)
apply_events-Carries m (tool_result t ∷ es) = ground (
  arith,
  append_assoc m.tool_results (carried_result t ∷ []) (results_in es),
  apply_events-Carries (record m { tool_results = m.tool_results ++ (carried_result t ∷ []) }) es,
)
apply_events-Carries m (e ∷ es) = ground (arith, apply_events-Carries (apply_event m e) es)
