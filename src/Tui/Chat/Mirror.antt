-- ===== src/Tui/Chat/Mirror.antt =====
-- The transcript on screen and its copy in the cache, which `consumeStream` of
-- clients/tui/src/store/chat-store.ts changes.
use rag_chat_cli.Prelude.{
  false, List, [], ◌∷◌, ◌++◌, any, find, some, ◌≡◌, ◌≢◌, refl, sym, ap, ◌∙◌, inl, inr, arith,
  Bool-cases, Option-cases, All,
}
use rag_chat_cli.Text.{Text}
use rag_chat_cli.Text.Laws.{same_iff, same_refl}
use rag_chat_cli.Text.Objects.{lookup, lookup-insert, lookup-map_values}
use rag_chat_cli.Wire.{StreamEvent}
use rag_chat_cli.Tui.Chat.Message.{UiMessage, apply_event}
use rag_chat_cli.Tui.Chat.Store.{ChatState, append_messages}
use rag_chat_cli.Tui.Chat.Stream.{
  has_id, change_message, change_cached, change_everywhere, on_event,
}

-- No message of the list has this id.
abbrev pub Others : Text → List UiMessage → Type 0
Others id = All (λ m. m.id ≢ id)

module _ (id : Text) (change : UiMessage → UiMessage) where
  pub change_message-unfound :
      (ms : List UiMessage) → any (has_id id) ms ≡ false → change_message id change ms ≡ ms
  unfolding change_message
  change_message-unfound [] h = refl
  change_message-unfound (m ∷ ms) h = ground (arith, change_message-unfound ms)

  -- The test of the cache's branch only saves work.
  pub change_cached-eq :
      (ms : List UiMessage) → change_cached id change ms ≡ change_message id change ms
  unfolding change_cached
  change_cached-eq ms = elim (Bool-cases (any (has_id id) ms)) [
    | inl found ↦ rw found
    | inr missing ↦ rw missing (sym (change_message-unfound ms missing))
  ]

  pub any-Others : (ms : List UiMessage) → Others id ms → any (has_id id) ms ≡ false
  any-Others [] h = refl
  any-Others (m ∷ ms) (p, h) = ground (arith, same_iff m.id id, any-Others ms h)

  pub change_message-at :
      (pre post : List UiMessage) (m : UiMessage)
      → m.id ≡ id
      → Others id pre
      → Others id post
      → change_message id change (pre ++ (m ∷ post)) ≡ pre ++ (change m ∷ post)
  unfolding change_message
  change_message-at [] post m e h k =
      ground (arith, same_iff m.id id, change_message-unfound post (any-Others post k))
  change_message-at (x ∷ pre) post m e (p, h) k =
      ground (arith, same_iff x.id id, change_message-at pre post m e h k)

pub find-at :
    (id : Text) (pre post : List UiMessage) (m : UiMessage)
    → m.id ≡ id
    → Others id pre
    → find (has_id id) (pre ++ (m ∷ post)) ≡ some m
find-at id [] post m e h = ground (arith, same_iff m.id id)
find-at id (x ∷ pre) post m e (p, h) = ground (arith, same_iff x.id id, find-at id pre post m e h)

-- The cache holds, for the session, what is on screen.
abbrev pub Mirrors : Text → ChatState → Type 0
Mirrors sid s = lookup sid s.cache ≡ some s.messages

pub change_everywhere-Mirrors :
    (sid id : Text) (change : UiMessage → UiMessage) (s : ChatState)
    → Mirrors sid s
    → Mirrors sid (change_everywhere id change s)
change_everywhere-Mirrors sid id change s h =
    lookup-map_values sid (change_cached id change) s.cache
    ∙ rw h (ap some (change_cached-eq id change s.messages))

pub append_messages-Mirrors :
    (ms : List UiMessage) (sid : Text) (s : ChatState) → Mirrors sid (append_messages ms sid s)
unfolding append_messages
append_messages-Mirrors ms sid s = lookup-insert sid sid _ s.cache ∙ rw (same_refl sid)

-- Where the cache holds what is on screen for a session, it still does after any event for any
-- message.
pub on_event-Mirrors :
    (sid id : Text) (e : StreamEvent) (s : ChatState)
    → Mirrors sid s
    → Mirrors sid (on_event id e s).1
unfolding on_event
on_event-Mirrors sid id e s h = elim (Option-cases (find (has_id id) s.messages)) [
  | inl missing ↦ rw (missing, on_event) h
  | inr (m, found) ↦
      rw (found, on_event) (change_everywhere-Mirrors sid id (λ _. apply_event m e) s h)
]
