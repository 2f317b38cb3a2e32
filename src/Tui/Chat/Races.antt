-- ===== src/Tui/Chat/Races.antt =====
-- The actions of clients/tui/src/store/chat-store.ts and the events of several streams, interleaved.
use rag_chat_cli.Prelude.{
  List, [], ◌∷◌, ◌++◌, map, find, none, is_some, ◌≡◌, ◌≢◌, refl, ap, ◌∙◌, inl, inr, arith,
  Option-cases,
}
use rag_chat_cli.Text.{Text}
use rag_chat_cli.Text.Laws.{same_iff}
use rag_chat_cli.Text.Objects.{
  lookup, lookup-insert, HasDistinctKeys, insert-HasDistinctKeys, delete-HasDistinctKeys,
  map_values-HasDistinctKeys,
}
use rag_chat_cli.Wire.{StreamEvent, MessageOut}
use rag_chat_cli.Tui.Chat.Message.{UiMessage, hydrate}
use rag_chat_cli.Tui.Chat.Store.{
  ChatState, initial, set_use_rag, set_think, load_start, load_done, load_failed, clear_local, stop,
  reset, user_message, assistant_message, send_start, regenerate_start,
}
use rag_chat_cli.Tui.Chat.Stream.{
  has_id, on_event, on_end, on_error, Thrown, Action, ends_load, clears_local, sends, regenerates,
  resets, act, event, action, consume,
}
use rag_chat_cli.Tui.Chat.Mirror.{Others}

-- The flag `streaming` is set exactly while an abort controller is kept, and the list that stands for
-- the cache has each session once.
pub record IsSteady (s : ChatState) : Type 0 where
  pub controlled : s.streaming ≡ is_some s.abort_controller
  pub cached_once : HasDistinctKeys s.cache

-- One transition of the store: an action, or an event, the end or the error of some stream, which
-- need not be the one that the store took its controller from.
pub data Step : ChatState → ChatState → Type 0 where
  acts : (a : Action) (s : ChatState) → Step s (act a s)
  receives : (id : Text) (e : StreamEvent) (s : ChatState) → Step s (on_event id e s).1
  ends : (s : ChatState) → Step s (on_end s)
  fails : (id : Text) (t : Thrown) (s : ChatState) → Step s (on_error id t s)

pub data Reach (s : ChatState) : ChatState → Type 0 where
  here : Reach s s
  next : {t u : ChatState} → Reach s t → Step t u → Reach s u

act-IsSteady : (a : Action) (s : ChatState) → IsSteady s → IsSteady (act a s)
unfolding act set_use_rag set_think load_start load_done load_failed clear_local stop reset
    send_start regenerate_start
act-IsSteady (ends_load sid raw) s h = record {
  controlled = h.controlled;
  cached_once = insert-HasDistinctKeys sid (map hydrate raw) s.cache h.cached_once;
}
act-IsSteady (clears_local sid) s h = record {
  controlled = h.controlled;
  cached_once = delete-HasDistinctKeys sid s.cache h.cached_once;
}
act-IsSteady (sends f sid content) s h = ground (
  arith,
  insert-HasDistinctKeys sid (s.messages ++ (user_message f content ∷ assistant_message f ∷ []))
      s.cache,
)
act-IsSteady (regenerates f sid) s h =
    ground (arith, insert-HasDistinctKeys sid (s.messages ++ (assistant_message f ∷ [])) s.cache)
act-IsSteady resets s h = record { controlled = refl; cached_once = tt }
act-IsSteady _ s h = record { controlled = h.controlled; cached_once = h.cached_once }

on_event-IsSteady :
    (id : Text) (e : StreamEvent) (s : ChatState) → IsSteady s → IsSteady (on_event id e s).1
unfolding on_event
on_event-IsSteady id e s h = elim (Option-cases (find (has_id id) s.messages)) [
  | inl missing ↦ rw (missing, on_event) h
  | inr (m, found) ↦
      rw (found, on_event)
        (record {
          controlled = h.controlled;
          cached_once = map_values-HasDistinctKeys _ s.cache h.cached_once;
        })
]

Step-IsSteady : {s t : ChatState} → Step s t → IsSteady s → IsSteady t
unfolding on_end on_error
Step-IsSteady (acts a s) h = act-IsSteady a s h
Step-IsSteady (receives id e s) h = on_event-IsSteady id e s h
Step-IsSteady (ends s) h = record { controlled = refl; cached_once = h.cached_once }
Step-IsSteady (fails id t s) h = record {
  controlled = refl;
  cached_once = map_values-HasDistinctKeys _ s.cache h.cached_once;
}

Reach-IsSteady_from : {s t : ChatState} → IsSteady s → Reach s t → IsSteady t
Reach-IsSteady_from h here = h
Reach-IsSteady_from h (next r st) = Step-IsSteady st (Reach-IsSteady_from h r)

-- In every state that the store can reach, however the actions and the streams interleave, the flag
-- `streaming` is set exactly while an abort controller is kept, and the list that stands for the cache
-- has each session once.
pub Reach-IsSteady : {s : ChatState} → Reach initial s → IsSteady s
Reach-IsSteady r = Reach-IsSteady_from (record { controlled = refl; cached_once = tt }) r

find-Others : (id : Text) (ms : List UiMessage) → Others id ms → find (has_id id) ms ≡ none
find-Others id [] h = refl
find-Others id (m ∷ ms) (p, h) = ground (arith, same_iff m.id id, find-Others id ms h)

on_event-Others :
    (id : Text) (e : StreamEvent) (s : ChatState) → Others id s.messages → on_event id e s ≡ (id, s)
unfolding on_event
on_event-Others id e s h = rw (find-Others id s.messages h, on_event)

consume-Others :
    (id : Text) (es : List StreamEvent) (s : ChatState)
    → Others id s.messages
    → consume id (map event es) s ≡ (id, s)
unfolding consume
consume-Others id [] s h = refl
consume-Others id (e ∷ es) s h =
    ap (λ r. consume r.0 (map event es) r.1) (on_event-Others id e s h) ∙ consume-Others id es s h

-- Once another session is loaded, whose messages do not have the id of the streamed reply, the
-- further events of the reply are lost, also for the cached transcript of its own session.
pub consume-load_done :
    (id sid other : Text) (raw : List MessageOut) (es : List StreamEvent) (s : ChatState)
    → other ≢ sid
    → Others id (map hydrate raw)
    → let s' = (consume id (action (ends_load other raw) ∷ map event es) s).1 in
      (s'.messages ≡ map hydrate raw) × (lookup sid s'.cache ≡ lookup sid s.cache)
unfolding consume act load_done
consume-load_done id sid other raw es s ne h =
    let lost = consume-Others id es (load_done other raw s) h in
    (
      ap (λ r. r.1.messages) lost,
      ap (λ r. lookup sid r.1.cache) lost
          ∙ lookup-insert other sid _ s.cache
          ∙ ground (arith, same_iff other sid),
    )
