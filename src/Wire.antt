-- ===== src/Wire.antt =====
-- The wire types that both clients declare, clients/tui/src/api/types.ts and enums.ts and, with the
-- same fields, websites/src/lib/api/shared. What the clients only carry, JSON numbers that may have
-- a fraction and the arguments of a tool call, stands as its JSON text.
use rag_chat_cli.Prelude.{ℕ, Bool, List, Option}
use rag_chat_cli.Text.{Text}

pub data MessageRole : Type 0 where
  user assistant system tool : MessageRole

-- `boolean | 'low' | 'medium' | 'high'`
pub data ThinkMode : Type 0 where
  switched : Bool → ThinkMode
  low medium high : ThinkMode

pub record UserOut : Type 0 where
  pub id : Text
  pub email : Text
  pub display_name : Option Text
  pub is_active : Bool
  pub created_at : Text

pub record SessionMeta : Type 0 where
  pub id : Text
  pub title : Option Text
  pub provider_id : Option Text
  pub model : Option Text
  pub pinned : Option Bool
  pub created_at : Text
  pub updated_at : Text
  pub message_count : Option ℕ

pub record ToolCallOut : Type 0 where
  pub id : Text
  pub name : Text
  pub arguments : Text

pub data SourceType : Type 0 where
  document web image tool : SourceType

pub record AnswerSource : Type 0 where
  pub source_type : SourceType
  pub rank : ℕ
  pub title : Option Text
  pub quote : Option Text
  pub score : Option Text
  pub source : Option Text
  pub url : Option Text
  pub document_id : Option Text
  pub chunk_id : Option Text

pub record KnowledgeHit : Type 0 where
  pub document_id : Text
  pub chunk_id : Text
  pub score : Text
  pub content : Text
  pub title : Option Text
  pub source : Option Text

pub record MessageOut : Type 0 where
  pub id : Text
  pub session_id : Text
  pub role : MessageRole
  pub content : Text
  pub tool_call_id : Option Text
  pub tool_calls : Option (List ToolCallOut)
  pub sources : Option (List AnswerSource)
  pub created_at : Text

pub record ErrorPayload : Type 0 where
  pub code : Text
  pub message : Text
  pub upstream_status : Option ℕ
  pub upstream_url : Option Text
  pub retry_after : Option ℕ

-- The payload of a `done` event. `usage` is an object of numbers.
pub record DonePayload : Type 0 where
  pub message_id : Option Text
  pub usage : Option (List (Text × ℕ))
  pub duration_ms : Option ℕ
  pub sources : Option (List AnswerSource)
  pub model : Option Text
  pub provider_name : Option Text

-- The payload of a `tool_call` event.
pub record ToolCallData : Type 0 where
  pub tool_call_id : Text
  pub tool_name : Text
  pub arguments : Text

pub record ToolOutput : Type 0 where
  pub tool_call_id : Text
  pub tool_name : Text
  pub content : Text
  pub is_error : Option Bool

-- `delta` and `text` are `none` where the payload lacks them, which the clients allow for.
pub data StreamEvent : Type 0 where
  retrieval : List KnowledgeHit → StreamEvent
  token : (delta : Option Text) → StreamEvent
  thought : (text : Option Text) → StreamEvent
  tool_call : ToolCallData → StreamEvent
  tool_result : ToolOutput → StreamEvent
  done : DonePayload → StreamEvent
  error : ErrorPayload → StreamEvent
  other : (type : Text) → StreamEvent
