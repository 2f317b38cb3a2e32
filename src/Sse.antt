-- ===== src/Sse.antt =====
-- The readers of server-sent events, clients/tui/src/api/sse.ts and websites/src/lib/sse/client.ts,
-- which have the same code. A response body is the list of its decoded chunks and how it ends;
-- `JSON.parse` is a parameter, `none` where it throws.
pub mod Chunks
pub mod Frames
use rag_chat_cli.Prelude.{
  ℕ, zero, suc, ◌+◌, List, [], ◌∷◌, ◌++◌, Option, none, some, Bool, not, if◌then◌else◌, length,
  take, drop,
}
use rag_chat_cli.Text.{Text, codes, starts_with, trim, is_empty, split, join, index_of}

-- `data` of an event: what `JSON.parse` returned, or the payload that stands for its failure.
pub data Payload (Json : Type 0) : Type 0 where
  json : Json → Payload Json
  failure : (code message : Text) → Payload Json

pub record RawEvent (Json : Type 0) : Type 0 where
  pub type : Text
  pub payload : Payload Json

-- The variables of the loop in `parseFrame`.
pub record Fields : Type 0 where
  pub event : Text
  pub data_lines : List Text

abbrev pub no_fields : Fields
no_fields = record { event = codes "message"; data_lines = [] }

pub read_line : Fields → Text → Fields
read_line f line =
    if starts_with line (codes ":")
    then f
    else if starts_with line (codes "event:")
    then record f { event = trim (drop 6 line) }
    else if starts_with line (codes "data:")
    then record f { data_lines = f.data_lines ++ (trim (drop 5 line) ∷ []) }
    else f

pub read_lines : Fields → List Text → Fields
read_lines f [] = f
read_lines f (line ∷ lines) = read_lines (read_line f line) lines

-- How the response body ends: `done`, which an abort brings about too, or a read that throws.
pub data Ending : Type 0 where
  closed broken : Ending

pub record Body : Type 0 where
  pub chunks : List Text
  pub ending : Ending

module _ {Json : Type 0} (json_parse : Text → Option Json) where
  -- The `try` of `parseFrame`.
  event_of : Text → Text → RawEvent Json
  event_of event raw = elim (json_parse raw) [
    | some v ↦ record { type = event; payload = json v }
    | none ↦ record { type = codes "error"; payload = failure (codes "PARSE") raw }
  ]

  close_frame : Fields → Option (RawEvent Json)
  close_frame f = elim f.data_lines [
    | [] ↦ none
    | l ∷ ls ↦ some (event_of f.event (join (codes "\n") (l ∷ ls)))
  ]

  unfoldable pub parse_frame : Text → Option (RawEvent Json)
  unfolding event_of close_frame read_line read_lines
  parse_frame frame = close_frame (read_lines no_fields (split b'\n' frame))

  -- `if (parsed) yield parsed`
  pub yielded : Option (RawEvent Json) → List (RawEvent Json)
  yielded none = []
  yielded (some e) = e ∷ []

  -- The inner loop, on fuel: the events that it yields, and the buffer that it leaves.
  unfoldable pub drain : ℕ → Text → List (RawEvent Json) × Text
  unfolding yielded
  drain zero buffer = ([], buffer)
  drain (suc fuel) buffer = elim (index_of buffer (codes "\n\n")) [
    | none ↦ ([], buffer)
    | some i ↦
        let later = drain fuel (drop (i + 2) buffer) in
        (yielded (parse_frame (take i buffer)) ++ later.0, later.1)
  ]

  -- Each round drops two code units at least, so that this fuel is never used up.
  abbrev pub drain_all : Text → List (RawEvent Json) × Text
  drain_all buffer = drain (suc (length buffer)) buffer

  -- The outer loop.
  unfoldable pub read_chunks : Text → List Text → List (RawEvent Json) × Text
  read_chunks buffer [] = ([], buffer)
  read_chunks buffer (chunk ∷ chunks) =
      let now = drain_all (buffer ++ chunk) in
      let later = read_chunks now.1 chunks in (now.0 ++ later.0, later.1)

  -- What is left in the buffer is read as a last frame.
  pub flush : Text → List (RawEvent Json)
  flush buffer = if not (is_empty (trim buffer)) then yielded (parse_frame buffer) else []

  pub at_end : Ending → Text → List (RawEvent Json)
  at_end closed buffer = flush buffer
  at_end broken buffer = []

  -- The events that `readSse` yields, and whether it returns or throws then.
  unfoldable pub read_sse : Option Body → List (RawEvent Json) × Ending
  unfolding drain read_chunks flush at_end
  read_sse none = ([], closed)
  read_sse (some body) =
      let read = read_chunks [] body.chunks in (read.0 ++ at_end body.ending read.1, body.ending)
