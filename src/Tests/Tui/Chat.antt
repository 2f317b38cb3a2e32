-- ===== src/Tests/Tui/Chat.antt =====
-- The chat store of the terminal client at concrete inputs.
use rag_chat_cli.Prelude.{true, false, List, [], ◌∷◌, map, none, some, ◌≡◌, refl, arith}
use rag_chat_cli.Text.{codes, is_empty}
use rag_chat_cli.Text.Objects.{lookup}
use rag_chat_cli.Wire.{StreamEvent, DonePayload, token, thought, tool_call, tool_result, done}
use rag_chat_cli.Tui.Chat.Message.{apply_event}
use rag_chat_cli.Tui.Chat.Fold.{Carries, apply_events, apply_events-Carries}
use rag_chat_cli.Tui.Chat.Store.{
  ChatState, initial, Fresh, append_messages, user_message, assistant_message, assistant_id,
}
use rag_chat_cli.Tui.Chat.Stream.{
  event, action, ends_load, sends, resets, act, returned, consume, on_event, send,
}
use rag_chat_cli.Tui.Chat.Mirror.{Mirrors, append_messages-Mirrors, on_event-Mirrors}
use rag_chat_cli.Tui.Chat.Reply.{IsReady, send-reply}
use rag_chat_cli.Tui.Chat.Races
use rag_chat_cli.Tui.Chat.Races.{IsSteady, Reach-IsSteady, consume-load_done}

abbrev fresh : Fresh
fresh = record {
  user_stamp = codes "1";
  user_iso = codes "2026";
  assistant_stamp = codes "1";
  assistant_iso = codes "2026";
  controller = 5;
}

abbrev ended : DonePayload
ended = record {
  message_id = some (codes "m-9");
  usage = none;
  duration_ms = some 12;
  sources = none;
  model = none;
  provider_name = none;
}

abbrev events : List StreamEvent
events =
    thought (some (codes "hm"))
    ∷ token (some (codes "Hel"))
    ∷ token (some (codes "lo"))
    ∷ done ended
    ∷ []

-- A stream that calls a tool.
abbrev with_tool : List StreamEvent
with_tool =
    tool_call
      (record { tool_call_id = codes "c-1"; tool_name = codes "web"; arguments = codes "{}" })
    ∷ tool_result (record {
      tool_call_id = codes "c-1";
      tool_name = codes "web";
      content = codes "none";
      is_error = some true;
    })
    ∷ events

apply_events-Carries_example :
    Carries (assistant_message fresh) with_tool (apply_events (assistant_message fresh) with_tool)
apply_events-Carries_example = apply_events-Carries (assistant_message fresh) with_tool

ready : IsReady fresh (codes "hi") events initial
ready = record {
  idle = refl;
  new_id = tt;
  new_ids = (tt, (tt, (tt, (((λ e. ground arith), tt), tt))));
}

send-reply_example :
    let s' = send fresh (codes "s") (codes "hi") (map event events) returned initial in
    (s'.messages
      ≡ user_message fresh (codes "hi") ∷ apply_events (assistant_message fresh) events ∷ [])
    × (lookup (codes "s") s'.cache ≡ some s'.messages)
    × (s'.streaming ≡ false)
    × (s'.abort_controller ≡ none)
send-reply_example = send-reply fresh (codes "s") (codes "hi") events initial ready

-- The reply has the server's id, its text and its thought.
apply_events_test :
    let m = apply_events (assistant_message fresh) events in
    (m.id ≡ codes "m-9")
    × (m.content ≡ codes "Hello")
    × (m.thoughts ≡ codes "hm" ∷ [])
    × (m.streaming ≡ false)
unfolding apply_event is_empty
apply_events_test = (refl, refl, refl, refl)

abbrev one_shown : ChatState
one_shown = append_messages (assistant_message fresh ∷ []) (codes "s") initial

on_event-Mirrors_example :
    Mirrors (codes "s") (on_event (assistant_id fresh) (token (some (codes "x"))) one_shown).1
on_event-Mirrors_example =
    on_event-Mirrors (codes "s") (assistant_id fresh) (token (some (codes "x"))) one_shown
      (append_messages-Mirrors (assistant_message fresh ∷ []) (codes "s") initial)

Reach-IsSteady_example : IsSteady (act resets (act (sends fresh (codes "s") (codes "hi")) initial))
Reach-IsSteady_example = Reach-IsSteady (
    Races.Reach.next
      (Races.Reach.next Races.Reach.here
        (Races.Step.acts (sends fresh (codes "s") (codes "hi")) initial))
      (Races.Step.acts resets (act (sends fresh (codes "s") (codes "hi")) initial)))

consume-load_done_example :
    let s' =
      (consume
        (assistant_id fresh)
        (action (ends_load (codes "t") []) ∷ map event events)
        one_shown).1 in
    (s'.messages ≡ []) × (lookup (codes "s") s'.cache ≡ lookup (codes "s") one_shown.cache)
consume-load_done_example =
    consume-load_done (assistant_id fresh) (codes "s") (codes "t") [] events one_shown
      (λ e. ground arith) tt
