-- ===== src/Web/Chat/Message.antt =====
-- Messages of the web transcript: `UIMessage` (features/chat/components/types.ts), `hydrateMessages`
-- and `applyStreamEvents`. A field that may be missing is an `Option`.
use rag_chat_cli.Prelude.{
  ℕ, Bool, true, false, not, ◌&&◌, List, [], ◌∷◌, ◌++◌, map, filter, length, reverse, Option, none,
  some, get_or, or_else, if◌then◌else◌, ltb,
}
use rag_chat_cli.Text.{Text, codes, is_empty}
use rag_chat_cli.Text.Decimal.{decimal}
use rag_chat_cli.Wire.{
  MessageRole, ToolCallOut, ToolCallData, SourceType, document, AnswerSource, KnowledgeHit,
  MessageOut, ErrorPayload, ToolOutput, StreamEvent, retrieval, token, thought, tool_call,
  tool_result, done, error, other,
}

pub record ToolResult : Type 0 where
  pub id : Text
  pub name : Text
  pub output : Text
  pub error : Option Text

pub data Role : Type 0 where
  user assistant : Role

pub record UiMessage : Type 0 where
  pub id : Text
  pub role : Role
  pub content : Text
  pub thoughts : Option (List Text)
  pub tool_calls : Option (List ToolCallOut)
  pub tool_results : Option (List ToolResult)
  pub retrieval : Option (List KnowledgeHit)
  pub sources : Option (List AnswerSource)
  pub streaming : Option Bool
  pub error : Option ErrorPayload
  pub model : Option Text
  pub provider : Option Text
  pub usage : Option (List (Text × ℕ))
  pub duration_ms : Option ℕ
  pub persisted : Option Bool

-- A literal with an id, a role and a content.
abbrev pub bare_message : Text → Role → Text → UiMessage
bare_message id role content = record {
  id = id;
  role = role;
  content = content;
  thoughts = none;
  tool_calls = none;
  tool_results = none;
  retrieval = none;
  sources = none;
  streaming = none;
  error = none;
  model = none;
  provider = none;
  usage = none;
  duration_ms = none;
  persisted = none;
}

abbrev pub is_document : SourceType → Bool
is_document document = true
is_document _ = false

-- Truthiness of a text that may be missing.
abbrev pub is_given : Option Text → Bool
is_given none = false
is_given (some t) = not (is_empty t)

-- The hit that a document source stands for.
pub hit_of : AnswerSource → KnowledgeHit
hit_of s =
    let doc = get_or s.document_id [] in
    record {
      document_id = doc;
      chunk_id = get_or s.chunk_id (doc ++ (codes "-" ++ decimal s.rank));
      score = get_or s.score (codes "0");
      content = get_or s.quote [];
      title = s.title;
      source = s.source;
    }

abbrev pub hits_of : Option (List AnswerSource) → Option (List KnowledgeHit)
hits_of none = none
hits_of (some ss) =
    some (map hit_of (filter (λ s. is_document s.source_type && is_given s.document_id) ss))

-- The newest assistant message takes the result; `out` has its newest message at the head.
unfoldable pub attach_result : ToolResult → List UiMessage → List UiMessage
attach_result r [] = []
attach_result r (m ∷ out) =
    let older = m ∷ attach_result r out in
    elim m.role [
      | assistant ↦ record m { tool_results = some (get_or m.tool_results [] ++ (r ∷ [])) } ∷ out
      | user ↦ older
    ]

-- One round of the loop of `hydrateMessages`.
unfoldable pub hydrate_one :
    Option Text → Option Text → MessageOut → MessageRole → List UiMessage → List UiMessage
unfolding attach_result hit_of
hydrate_one model provider m MessageRole.user out =
    record (bare_message m.id user m.content) { persisted = some true } ∷ out
hydrate_one model provider m MessageRole.assistant out =
    record (bare_message m.id assistant m.content) {
      tool_calls = m.tool_calls;
      sources = m.sources;
      retrieval = hits_of m.sources;
      model = model;
      provider = provider;
      persisted = some true;
    }
    ∷ out
hydrate_one model provider m MessageRole.tool out =
    attach_result
      (record {
        id = get_or m.tool_call_id m.id;
        name = codes "tool";
        output = m.content;
        error = none;
      })
      out
hydrate_one model provider m MessageRole.system out = out

unfoldable pub hydrate_from :
    Option Text → Option Text → List UiMessage → List MessageOut → List UiMessage
hydrate_from model provider out [] = reverse out
hydrate_from model provider out (m ∷ ms) =
    hydrate_from model provider (hydrate_one model provider m m.role out) ms

unfoldable pub hydrate_messages : List MessageOut → Option Text → Option Text → List UiMessage
unfolding hydrate_from hydrate_one
hydrate_messages items model provider = hydrate_from model provider [] items

-- The variables of `applyStreamEvents`.
pub record Batch : Type 0 where
  pub next : UiMessage
  pub content_delta : Text
  pub thoughts : List Text

unfoldable pub call_of : ToolCallData → ToolCallOut
call_of t = record { id = t.tool_call_id; name = t.tool_name; arguments = t.arguments }

pub result_of : ToolOutput → ToolResult
result_of t = record {
  id = t.tool_call_id;
  name = t.tool_name;
  output = t.content;
  error = if get_or t.is_error false then some t.content else none;
}

unfoldable pub add_thought : Text → Batch → Batch
add_thought text b = if is_empty text then b else record b { thoughts = b.thoughts ++ (text ∷ []) }

unfoldable pub apply_one : Batch → StreamEvent → Batch
unfolding call_of result_of add_thought
apply_one b (retrieval hits) = record b { next = record (b.next) { retrieval = some hits } }
apply_one b (token delta) = record b { content_delta = b.content_delta ++ get_or delta [] }
apply_one b (thought text) = add_thought (get_or text []) b
apply_one b (tool_call call) = record b {
  next = record (b.next) { tool_calls = some (get_or b.next.tool_calls [] ++ (call_of call ∷ [])) };
}
apply_one b (tool_result t) = record b {
  next = record (b.next) {
    tool_results = some (get_or b.next.tool_results [] ++ (result_of t ∷ []));
  };
}
apply_one b (done d) = record b {
  next = record (b.next) {
    streaming = some false;
    model = d.model;
    provider = d.provider_name;
    usage = d.usage;
    duration_ms = d.duration_ms;
    sources = or_else d.sources b.next.sources;
  };
}
apply_one b (error payload) = record b {
  next = record (b.next) { streaming = some false; error = some payload };
}
apply_one b (other type) = b

unfoldable pub apply_all : Batch → List StreamEvent → Batch
unfolding apply_one
apply_all b [] = b
apply_all b (e ∷ es) = apply_all (apply_one b e) es

unfoldable pub close_content : Text → UiMessage → UiMessage
close_content delta m = if is_empty delta then m else record m { content = m.content ++ delta }

unfoldable pub close_thoughts : List Text → UiMessage → UiMessage
close_thoughts ts m =
    if ltb 0 (length ts) then record m { thoughts = some (get_or m.thoughts [] ++ ts) } else m

unfoldable pub close_batch : Batch → UiMessage
unfolding close_content close_thoughts
close_batch b = close_thoughts b.thoughts (close_content b.content_delta b.next)

unfoldable pub apply_stream_events : UiMessage → List StreamEvent → UiMessage
unfolding apply_all close_batch
apply_stream_events m es =
    close_batch (apply_all (record { next = m; content_delta = []; thoughts = [] }) es)
