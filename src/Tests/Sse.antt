-- ===== src/Tests/Sse.antt =====
-- The reader of server-sent events at concrete inputs.
use rag_chat_cli.Prelude.{List, [], ◌∷◌, Option, none, some, ◌≡◌, refl, arith, flatten}
use rag_chat_cli.Text.{Text, codes, trim, starts_with, split, join}
use rag_chat_cli.Sse.{json, failure, closed, broken, parse_frame, read_sse}
use rag_chat_cli.Sse.Chunks.{read_sse-flatten}
use rag_chat_cli.Sse.Frames.{WireEvent, IsWire, nil, cons, read_sse-encode}

-- A parser that takes any text but the empty one for its value.
abbrev parse : Text → Option Text
parse [] = none
parse (c ∷ t) = some (c ∷ t)

abbrev hello : WireEvent
hello = record { name = codes "token"; payload = codes "{1}" }

abbrev bye : WireEvent
bye = record { name = codes "done"; payload = codes "{}" }

hello-IsWire : IsWire parse hello (codes "{1}")
unfolding trim
hello-IsWire = record {
  name_line = omega arith;
  payload_line = omega arith;
  name_trimmed = refl;
  payload_trimmed = refl;
  is_json = refl;
}

bye-IsWire : IsWire parse bye (codes "{}")
unfolding trim
bye-IsWire = record {
  name_line = omega arith;
  payload_line = omega arith;
  name_trimmed = refl;
  payload_trimmed = refl;
  is_json = refl;
}

abbrev cut : List Text
cut = codes "event: tok" ∷ codes "en\ndata: {1}\n" ∷ codes "\nevent: done\ndata: {}\n\n" ∷ []

read_sse-encode_example : read_sse parse (some (record { chunks = cut; ending = broken })) ≡ (
  record { type = codes "token"; payload = json (codes "{1}") }
      ∷ record { type = codes "done"; payload = json (codes "{}") }
      ∷ [],
  broken,
)
unfolding flatten
read_sse-encode_example =
    read_sse-encode parse {ws = hello ∷ bye ∷ []} cut broken
      (cons hello-IsWire (cons bye-IsWire nil)) refl

read_sse-flatten_example :
    read_sse parse (some (record { chunks = cut; ending = closed }))
    ≡ read_sse parse (some (record { chunks = flatten cut ∷ []; ending = closed }))
read_sse-flatten_example = read_sse-flatten parse cut closed

-- A comment and an unknown field are skipped, and data lines are joined.
parse_frame_test :
    parse_frame parse (codes ": hi\nid: 4\ndata: a\ndata: b")
    ≡ some (record { type = codes "message"; payload = json (codes "a\nb") })
unfolding parse_frame split trim join starts_with
parse_frame_test = refl

-- A frame with no data is no event, and data that does not parse is an error event.
parse_frame_failure_test :
    (parse_frame parse (codes "event: ping") ≡ none)
    × (parse_frame parse (codes "event: a\ndata:")
        ≡ some (record { type = codes "error"; payload = failure (codes "PARSE") [] }))
unfolding parse_frame split trim join starts_with
parse_frame_failure_test = (refl, refl)
