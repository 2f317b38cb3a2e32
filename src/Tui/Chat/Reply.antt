-- ===== src/Tui/Chat/Reply.antt =====
-- The whole of a reply: `send` of clients/tui/src/store/chat-store.ts over a stream that nothing
-- interrupts.
use rag_chat_cli.Prelude.{
  false, List, [], ◌∷◌, ◌++◌, map, find, Option, none, some, get_or, ◌≡◌, ◌≢◌, refl, sym, ap, subst,
  ◌∙◌, arith, All, All-append, if◌then◌else◌, append_assoc,
}
use rag_chat_cli.Text.{Text, same}
use rag_chat_cli.Text.Laws.{same_iff}
use rag_chat_cli.Text.Objects.{lookup}
use rag_chat_cli.Wire.{StreamEvent, thought, done}
use rag_chat_cli.Tui.Chat.Message.{UiMessage, apply_event}
use rag_chat_cli.Tui.Chat.Fold.{apply_events}
use rag_chat_cli.Tui.Chat.Store.{
  ChatState, Fresh, append_messages, streaming_with, user_message, assistant_message, assistant_id,
  send_start,
}
use rag_chat_cli.Tui.Chat.Stream.{
  has_id, change_everywhere, on_event, on_end, event, consume, Tick, Outcome, returned, run_stream,
  send,
}
use rag_chat_cli.Tui.Chat.Mirror.{
  Others, find-at, change_message-at, Mirrors, on_event-Mirrors, append_messages-Mirrors,
}

abbrev pub Renames : List UiMessage → Option Text → Type 0
Renames ms none = Unit
Renames ms (some id) = Others id ms

-- The id that an event gives to its message, if any, is none of the others'.
abbrev pub Untaken : List UiMessage → StreamEvent → Type 0
Untaken ms (done d) = Renames ms d.message_id
Untaken ms _ = Unit

get_or-Others :
    (o : Option Text) (id : Text) (ms : List UiMessage)
    → Others id ms
    → Renames ms o
    → Others (get_or o id) ms
get_or-Others none id ms h k = h
get_or-Others (some n) id ms h k = k

apply_event-thought :
    (m : UiMessage) (text : Option Text) → (apply_event m (thought text)).id ≡ m.id
unfolding apply_event
apply_event-thought m text = ground arith

apply_event-Others :
    (m : UiMessage) (e : StreamEvent) (ms : List UiMessage)
    → Others m.id ms
    → Untaken ms e
    → Others (apply_event m e).id ms
unfolding apply_event
apply_event-Others m (done d) ms h k = get_or-Others d.message_id m.id ms h k
apply_event-Others m (thought text) ms h k = rw (apply_event-thought m text) h
apply_event-Others m _ ms h k = h

-- A state whose transcript is `pre`, the message `m` and `post`, and whose cache holds it.
record Shows (sid : Text) (pre post : List UiMessage) (m : UiMessage) (s : ChatState) : Type 0 where
  shown : s.messages ≡ pre ++ (m ∷ post)
  before : Others m.id pre
  after : Others m.id post
  mirrored : Mirrors sid s

module _ (sid : Text) (pre post : List UiMessage) where
  found :
      {m : UiMessage} {s : ChatState}
      → Shows sid pre post m s
      → find (has_id m.id) s.messages ≡ some m
  found {m} h = rw h.shown (find-at m.id pre post m refl h.before)

  keep_cursor : (a b : Text) → (if same a b then b else a) ≡ a
  keep_cursor a b = ground (arith, same_iff a b)

  on_event-found :
      (m : UiMessage) (e : StreamEvent) (s : ChatState)
      → Shows sid pre post m s
      → on_event m.id e s ≡ ((apply_event m e).id, change_everywhere m.id (λ _. apply_event m e) s)
  unfolding on_event
  on_event-found m e s h = rw (found h, on_event) (rw keep_cursor)

  on_event-Shows :
      (m : UiMessage) (e : StreamEvent) (s : ChatState)
      → Shows sid pre post m s
      → Untaken pre e
      → Untaken post e
      → Shows sid pre post (apply_event m e) (on_event m.id e s).1
  on_event-Shows m e s h u v = record {
    shown =
        rw (on_event-found m e s h, h.shown)
          (change_message-at m.id (λ _. apply_event m e) pre post m refl h.before h.after);
    before = apply_event-Others m e pre h.before u;
    after = apply_event-Others m e post h.after v;
    mirrored = on_event-Mirrors sid m.id e s h.mirrored;
  }

  consume-Shows :
      (es : List StreamEvent) (m : UiMessage) (s : ChatState)
      → Shows sid pre post m s
      → All (Untaken pre) es
      → All (Untaken post) es
      → Shows sid pre post (apply_events m es) (consume m.id (map event es) s).1
  unfolding consume
  consume-Shows [] m s h u v = h
  consume-Shows (e ∷ es) m s h (u, us) (v, vs) =
      let next = on_event-Shows m e s h u v in
      subst
        (λ c.
          Shows sid pre post (apply_events m (e ∷ es))
            (consume c (map event es) (on_event m.id e s).1).1)
        (sym (ap (λ r. r.0) (on_event-found m e s h)))
        (consume-Shows es (apply_event m e) (on_event m.id e s).1 next us vs)

-- The premises of a reply: nothing streams, no message has the placeholder's id, and the id that
-- the stream gives to the reply is new.
pub record IsReady (f : Fresh) (content : Text) (es : List StreamEvent) (s : ChatState)
    : Type 0 where
  pub idle : s.streaming ≡ false
  pub new_id : Others (assistant_id f) s.messages
  pub new_ids : All (Untaken (s.messages ++ (user_message f content ∷ []))) es

module _ (f : Fresh) (sid content : Text) (s : ChatState) where
  abbrev asked : List UiMessage
  asked = s.messages ++ (user_message f content ∷ [])

  abbrev started : ChatState
  started =
      streaming_with f.controller
        (append_messages (user_message f content ∷ assistant_message f ∷ []) sid s)

  user_id-ne : (user_message f content).id ≢ assistant_id f
  user_id-ne = λ e. ground arith

  started-Shows :
      Others (assistant_id f) s.messages → Shows sid asked [] (assistant_message f) started
  unfolding append_messages
  started-Shows h = record {
    shown = sym (append_assoc s.messages (user_message f content ∷ []) (assistant_message f ∷ []));
    before = All-append _ s.messages (user_message f content ∷ []) h (user_id-ne, tt);
    after = tt;
    mirrored = append_messages-Mirrors _ sid s;
  }

  send-started :
      (ticks : List Tick) (o : Outcome)
      → s.streaming ≡ false
      → send f sid content ticks o s ≡ run_stream (assistant_id f) ticks o started
  unfolding send send_start
  send-started ticks o idle = rw (idle)

Renames-nil : (o : Option Text) → Renames [] o
Renames-nil none = tt
Renames-nil (some id) = tt

Untaken-nil : (es : List StreamEvent) → All (Untaken []) es
Untaken-nil [] = tt
Untaken-nil (done d ∷ es) = (Renames-nil d.message_id, Untaken-nil es)
Untaken-nil (e ∷ es) = (tt, Untaken-nil es)

-- Where nothing streams, no message has the placeholder's id and the stream gives the reply no id of
-- another message, a reply whose stream is read to its end leaves the old transcript, the user's message and the
-- placeholder with all events applied, on screen and in the cache of the session; nothing streams
-- any more, and no controller is left.
pub send-reply :
    (f : Fresh) (sid content : Text) (es : List StreamEvent) (s : ChatState)
    → IsReady f content es s
    → let s' = send f sid content (map event es) returned s in
      (s'.messages
        ≡ s.messages ++ (user_message f content ∷ apply_events (assistant_message f) es ∷ []))
      × (lookup sid s'.cache ≡ some s'.messages)
      × (s'.streaming ≡ false)
      × (s'.abort_controller ≡ none)
unfolding run_stream on_end
send-reply f sid content es s r = rw (send-started f sid content s (map event es) returned r.idle) (
    let h =
      consume-Shows sid (asked f sid content s) [] es (assistant_message f)
        (started f sid content s) (started-Shows f sid content s r.new_id) r.new_ids
        (Untaken-nil es) in
    (
      h.shown
          ∙ append_assoc s.messages (user_message f content ∷ [])
              (apply_events (assistant_message f) es ∷ []),
      h.mirrored,
      refl,
      refl,
    ))
