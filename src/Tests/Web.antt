-- ===== src/Tests/Web.antt =====
-- The web client at concrete inputs.
pub mod Auth
pub mod Codec
pub mod Texts
pub mod Api
use rag_chat_cli.Prelude.{
  ℕ, Bool, true, false, List, [], ◌∷◌, ◌++◌, Option, none, some, ◌≡◌, refl, arith, All,
}
use rag_chat_cli.Text.{Text, codes, same, is_empty, trim}
use rag_chat_cli.Text.Laws.{same_refl}
use rag_chat_cli.Wire.{MessageRole, MessageOut, StreamEvent, token, thought, done, DonePayload}
use rag_chat_cli.Web.Chat.Message.{UiMessage, user, assistant, bare_message, apply_stream_events}
use rag_chat_cli.Web.Chat.Batches.{
  one_by_one, apply_stream_events-one_by_one, apply_stream_events-append,
}
use rag_chat_cli.Web.Chat.Store.{ChatStore, initial, placeholder, streaming_with}
use rag_chat_cli.Web.Chat.Stream.{
  Tick, event, timer_fires, action, aborts, returned, change_message, run_stream,
}
use rag_chat_cli.Web.Chat.Flushes.{events_of, run_stream-returned}
use rag_chat_cli.Web.Chat.Refetch.{adopt}
use rag_chat_cli.Web.Chat.Turn.{Fresh, send}
use rag_chat_cli.Web.Chat.Turn.Ended.{IsEnded, IsReady, send-IsEnded}
use rag_chat_cli.Web.Chat.Adopt.{Pairs, Adopts, adopt-Pairs}

abbrev reply : UiMessage
reply = placeholder (codes "a-1")

abbrev tokens : List StreamEvent
tokens = token (some (codes "He")) ∷ thought (some (codes "hm")) ∷ []

abbrev more : List StreamEvent
more = token (some (codes "llo")) ∷ []

apply_stream_events-one_by_one_example : apply_stream_events reply tokens ≡ one_by_one reply tokens
apply_stream_events-one_by_one_example = apply_stream_events-one_by_one reply tokens

abbrev asked : ChatStore
asked = streaming_with 3 (record initial {
  session_id = some (codes "s");
  messages = bare_message (codes "u-1") user (codes "hi") ∷ reply ∷ [];
})

abbrev schedule : List Tick
schedule =
    event (token (some (codes "He")))
    ∷ timer_fires
    ∷ event (token (some (codes "llo")))
    ∷ action aborts
    ∷ []

run_stream-returned_example :
    let s' = (run_stream (codes "s") (codes "a-1") schedule returned asked).0 in
    (s'.messages
      ≡ change_message
          (codes "a-1")
          (λ m. apply_stream_events m (events_of schedule))
          asked.messages)
    × (s'.streaming ≡ false)
    × (s'.abort_controller ≡ none)
run_stream-returned_example =
    run_stream-returned (codes "s") (codes "a-1") schedule asked (same_refl (codes "s"))
      (tt, (tt, (tt, (tt, tt))))

abbrev persisted : Text → MessageRole → MessageOut
persisted id role = record {
  id = id;
  session_id = codes "s";
  role = role;
  content = codes "hi";
  tool_call_id = none;
  tool_calls = none;
  sources = none;
  created_at = codes "2026";
}

abbrev answer : List MessageOut
answer =
    persisted (codes "m-1") MessageRole.user ∷ persisted (codes "m-2") MessageRole.assistant ∷ []

adopt-Pairs_example : Pairs (Adopts asked.messages) asked.messages (adopt answer asked.messages)
adopt-Pairs_example = adopt-Pairs answer asked.messages

-- Both new ids are adopted.
adopt_test :
    adopt answer asked.messages
    ≡ record (bare_message (codes "m-1") user (codes "hi")) { persisted = some true }
      ∷ record reply { id = codes "m-2"; persisted = some true }
      ∷ []
unfolding adopt is_empty
adopt_test = refl

abbrev open_session : ChatStore
open_session = record initial { session_id = some (codes "s") }

abbrev fresh : Fresh
fresh = record { controller = 3; user_id = codes "u-1"; assistant_id = codes "a-1" }

ready : IsReady (codes "s") fresh open_session
unfolding is_empty
ready = record {
  opened = refl;
  named = refl;
  idle = refl;
  new_id = tt;
  two_ids = λ e. ground arith;
}

hi_filled : is_empty (trim (codes " hi ")) ≡ false
unfolding is_empty trim
hi_filled = refl

send-IsEnded_example :
    IsEnded
      (bare_message (codes "u-1") user (trim (codes " hi "))
        ∷ apply_stream_events reply (events_of schedule)
        ∷ [])
      (send fresh (codes " hi ") schedule returned [] (some answer) open_session).store
send-IsEnded_example =
    send-IsEnded (codes "s") fresh open_session ready (codes " hi ") schedule (some answer)
      hi_filled (tt, (tt, (tt, (tt, tt))))
