-- ===== src/Sse/Frames.antt =====
-- The backend's frames, docs/backend/STREAM_PROTOCOL.md (`event: <type>\ndata: <payload>\n\n`), and
-- `parseFrame` and `readSse` of clients/tui/src/api/sse.ts.
use rag_chat_cli.Prelude.{
  ℕ, zero, suc, ◌<◌, List, [], ◌∷◌, ◌++◌, Option, some, ◌≡◌, refl, ap, ◌∙◌, arith, length,
  length-append, flatten, map, append-nil, append_assoc, take_of_length, drop_of_length, All-append,
}
use rag_chat_cli.Text.{Text, codes, trim, split, starts_with, join, is_empty, index_of}
use rag_chat_cli.Text.Lines.{IsLine, blank_line, index_of-two_lines, split-line, split-line-append}
use rag_chat_cli.Sse.{
  RawEvent, json, event_of, close_frame, no_fields, read_line, Ending, closed, broken, read_lines,
  parse_frame, yielded, drain, drain_all, flush, at_end, read_sse,
}
use rag_chat_cli.Sse.Chunks.{drain_found, read_chunks-flatten}

-- One event on the wire: its name and the text of its JSON payload.
pub record WireEvent : Type 0 where
  pub name : Text
  pub payload : Text

abbrev pub name_line : WireEvent → Text
name_line w = codes "event: " ++ w.name

abbrev pub payload_line : WireEvent → Text
payload_line w = codes "data: " ++ w.payload

abbrev pub frame : WireEvent → Text
frame w = name_line w ++ (b'\n' ∷ payload_line w)

abbrev pub encode : WireEvent → Text
encode w = frame w ++ blank_line

module _ {Json : Type 0} (json_parse : Text → Option Json) where
  -- The name and the payload are lines with no white space at their ends, and the payload is the
  -- JSON text of `value`.
  pub record IsWire (w : WireEvent) (value : Json) : Type 0 where
    pub name_line : IsLine w.name
    pub payload_line : IsLine w.payload
    pub name_trimmed : trim w.name ≡ w.name
    pub payload_trimmed : trim w.payload ≡ w.payload
    pub is_json : json_parse w.payload ≡ some value

  name_line-IsLine : (w : WireEvent) (v : Json) → IsWire w v → IsLine (name_line w)
  name_line-IsLine w v h = All-append _ (codes "event: ") w.name (omega arith) h.name_line

  payload_line-IsLine : (w : WireEvent) (v : Json) → IsWire w v → IsLine (payload_line w)
  payload_line-IsLine w v h = All-append _ (codes "data: ") w.payload (omega arith) h.payload_line

  split-frame :
      (w : WireEvent) (v : Json)
      → IsWire w v
      → split b'\n' (frame w) ≡ name_line w ∷ payload_line w ∷ []
  split-frame w v h =
      split-line-append (name_line w) (payload_line w) (name_line-IsLine w v h)
      ∙ ap (λ ls. name_line w ∷ ls) (split-line (payload_line w) (payload_line-IsLine w v h))

  read_lines-frame :
      (w : WireEvent) (v : Json)
      → IsWire w v
      → read_lines no_fields (name_line w ∷ payload_line w ∷ [])
        ≡ record { event = w.name; data_lines = w.payload ∷ [] }
  unfolding read_lines read_line starts_with trim
  read_lines-frame w v h =
      λ i. record { event = h.name_trimmed i; data_lines = h.payload_trimmed i ∷ [] }

  parse_frame-frame :
      (w : WireEvent) (v : Json)
      → IsWire w v
      → parse_frame json_parse (frame w) ≡ some (record { type = w.name; payload = json v })
  unfolding parse_frame join
  parse_frame-frame w v h =
      ap (λ ls. close_frame json_parse (read_lines no_fields ls)) (split-frame w v h)
      ∙ ap (close_frame json_parse) (read_lines-frame w v h)
      ∙ rw (event_of, close_frame, no_fields, read_line, h.is_json)

  drain-encode :
      (f : ℕ) (w : WireEvent) (v : Json) (rest : Text)
      → IsWire w v
      → drain json_parse (suc f) (encode w ++ rest) ≡ (
        record { type = w.name; payload = json v } ∷ (drain json_parse f rest).0,
        (drain json_parse f rest).1,
      )
  unfolding yielded
  drain-encode f w v rest h =
      let found =
        index_of-two_lines (name_line w) (payload_line w) rest (name_line-IsLine w v h)
          (payload_line-IsLine w v h) (cc) in
      rw append_assoc (
        drain_found json_parse f _ _ found
        ∙ rw (
          take_of_length (frame w) (blank_line ++ rest),
          drop_of_length (frame w) (blank_line ++ rest) 2,
          parse_frame-frame w v h,
        ))

  -- The events that the frames stand for, in their order.
  pub data AreWire : List WireEvent → List (RawEvent Json) → Type 0 where
    nil : AreWire [] []
    cons :
        {w : WireEvent} {v : Json} {ws : List WireEvent} {es : List (RawEvent Json)}
        → IsWire w v
        → AreWire ws es
        → AreWire (w ∷ ws) (record { type = w.name; payload = json v } ∷ es)

  drain-AreWire :
      (f : ℕ) {ws : List WireEvent} {es : List (RawEvent Json)}
      → AreWire ws es
      → length (flatten (map encode ws)) < f
      → drain json_parse f (flatten (map encode ws)) ≡ (es, [])
  unfolding flatten drain index_of
  drain-AreWire zero h p = absurd (omega arith)
  drain-AreWire (suc f) nil p = refl
  drain-AreWire (suc f) (cons {w} {v} {ws} {es} h hs) p =
      let ih =
        drain-AreWire f hs (omega (arith, length-append (encode w) (flatten (map encode ws)))) in
      drain-encode f w v (flatten (map encode ws)) h ∙ rw ih

  at_end-nil : (ending : Ending) → at_end json_parse ending [] ≡ []
  unfolding at_end flush trim is_empty
  at_end-nil closed = refl
  at_end-nil broken = refl

-- However the network cuts the frames of a list of events into chunks, and whether the stream is
-- closed or breaks behind them, the reader yields those events in their order.
pub read_sse-encode :
    {Json : Type 0} (json_parse : Text → Option Json) {ws : List WireEvent}
    {es : List (RawEvent Json)} (chunks : List Text) (ending : Ending)
    → AreWire json_parse ws es
    → flatten chunks ≡ flatten (map encode ws)
    → read_sse json_parse (some (record { chunks = chunks; ending = ending })) ≡ (es, ending)
unfolding read_sse index_of
read_sse-encode json_parse {ws} {es} chunks ending h e =
    let whole =
      read_chunks-flatten json_parse [] chunks refl ∙ ap (λ t. drain_all json_parse t) e in
    let all_read =
      whole ∙ drain-AreWire json_parse (suc (length (flatten (map encode ws)))) h (omega arith) in
    ap (λ r. (r.0 ++ at_end json_parse ending r.1, ending)) all_read
    ∙ ap (λ t. (es ++ t, ending)) (at_end-nil json_parse ending)
    ∙ ap (λ t. (t, ending)) (append-nil es)
