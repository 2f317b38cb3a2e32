-- ===== src/Web/Chat/Turn/Ended.antt =====
-- A turn of `send` whose stream is read to its end.
use rag_chat_cli.Prelude.{
  Bool, true, false, List, [], ◌∷◌, ◌++◌, Option, none, some, if_rec, ◌≡◌, ◌≢◌, refl, sym, ap,
  subst, ◌∙◌, arith, append_assoc, All, All-append,
}
use rag_chat_cli.Text.{Text, is_empty, trim}
use rag_chat_cli.Text.Laws.{same_iff, same_refl}
use rag_chat_cli.Wire.{MessageOut, StreamEvent}
use rag_chat_cli.Web.Chat.Message.{user, UiMessage, bare_message, is_given, apply_stream_events}
use rag_chat_cli.Web.Chat.Store.{ChatStore, is_session, send_start, placeholder, streaming_with}
use rag_chat_cli.Web.Chat.Stream.{change_message, Tick, returned, run_stream}
use rag_chat_cli.Web.Chat.Flushes.{events_of, IsQuiet, run_stream-returned}
use rag_chat_cli.Web.Chat.Refetch.{refetched}
use rag_chat_cli.Web.Chat.Adopt.{Pairs, Adopts, Pairs-refl, adopt-Pairs}
use rag_chat_cli.Web.Chat.Turn.{Turn, Fresh, is_first_turn, act_all, finish, run_turn, send}

-- No message of the list has this id.
abbrev pub Others : Text → List UiMessage → Type 0
Others id = All (λ m. m.id ≢ id)

change_message-Others :
    (id : Text) (change : UiMessage → UiMessage) (ms : List UiMessage)
    → Others id ms
    → change_message id change ms ≡ ms
unfolding change_message
change_message-Others id change [] h = refl
change_message-Others id change (m ∷ ms) (p, h) =
    ground (arith, same_iff m.id id, change_message-Others id change ms h)

change_message-last :
    (change : UiMessage → UiMessage) (ms : List UiMessage) (m : UiMessage)
    → Others m.id ms
    → change_message m.id change (ms ++ (m ∷ [])) ≡ ms ++ (change m ∷ [])
unfolding change_message
change_message-last change [] m h = rw (same_refl m.id)
change_message-last change (x ∷ ms) m (p, h) =
    ground (arith, same_iff x.id m.id, change_message-last change ms m h)

-- A turn that ended: its transcript is `shown`, up to the ids that it adopted, and nothing streams.
pub record IsEnded (shown : List UiMessage) (s : ChatStore) : Type 0 where
  pub transcript : Pairs (Adopts shown) shown s.messages
  pub idle : s.streaming ≡ false
  pub released : s.abort_controller ≡ none

refetched-IsEnded :
    (sid : Text) (persisted : List MessageOut) (s : ChatStore)
    → s.streaming ≡ false
    → s.abort_controller ≡ none
    → IsEnded s.messages (refetched sid (some persisted) s)
unfolding refetched
refetched-IsEnded sid persisted s idle released =
    if_rec (IsEnded s.messages) (is_session sid s.session_id)
      (λ _. record {
        transcript = adopt-Pairs persisted s.messages;
        idle = idle;
        released = released;
      })
      (λ _. record {
        transcript = Pairs-refl s.messages s.messages;
        idle = idle;
        released = released;
      })

finish-IsEnded :
    (sid : Text) (first : Bool) (answer : Option (List MessageOut)) (s : ChatStore)
    → s.streaming ≡ false
    → s.abort_controller ≡ none
    → IsEnded s.messages (finish sid first answer s).store
unfolding finish
finish-IsEnded sid first none s idle released = record {
  transcript = Pairs-refl s.messages s.messages;
  idle = idle;
  released = released;
}
finish-IsEnded sid first (some persisted) s idle released =
    refetched-IsEnded sid persisted s idle released

run_turn-IsEnded :
    (sid pid : Text) (ticks : List Tick) (answer : Option (List MessageOut)) (s : ChatStore)
    → is_session sid s.session_id ≡ true
    → All IsQuiet ticks
    → IsEnded
        (change_message pid (λ m. apply_stream_events m (events_of ticks)) s.messages)
        (run_turn sid pid ticks returned [] answer s).store
unfolding run_turn act_all
run_turn-IsEnded sid pid ticks answer s h q =
    let (shown, idle, released) = run_stream-returned sid pid ticks s h q in
    let ended = (run_stream sid pid ticks returned s).0 in
    subst (λ ms. IsEnded ms (run_turn sid pid ticks returned [] answer s).store) shown
      (if_rec (λ (t : Turn). IsEnded ended.messages t.store) (run_stream sid pid ticks returned s).1
        (λ _. finish-IsEnded sid (is_first_turn s.messages) answer ended idle released)
        (λ _. record {
          transcript = Pairs-refl ended.messages ended.messages;
          idle = idle;
          released = released;
        }))

-- The premises of a turn: a session `sid` is open and idle, and the placeholder's id is new.
pub record IsReady (sid : Text) (f : Fresh) (s : ChatStore) : Type 0 where
  pub opened : s.session_id ≡ some sid
  pub named : is_empty sid ≡ false
  pub idle : s.streaming ≡ false
  pub new_id : Others f.assistant_id s.messages
  pub two_ids : f.user_id ≢ f.assistant_id

module _ (sid : Text) (f : Fresh) (s : ChatStore) (r : IsReady sid f s) where
  is_given-opened : is_given s.session_id ≡ true
  is_given-opened = rw (r.opened, r.named) refl

  abbrev asked : Text → ChatStore
  asked content = streaming_with f.controller (record s {
    messages =
        s.messages
        ++ (bare_message f.user_id user (trim content) ∷ placeholder f.assistant_id ∷ []);
  })

  send-started :
      (content : Text) (ticks : List Tick) (answer : Option (List MessageOut))
      → is_empty (trim content) ≡ false
      → send f content ticks returned [] answer s
        ≡ run_turn sid f.assistant_id ticks returned [] answer (asked content)
  unfolding send send_start
  send-started content ticks answer filled = rw (is_given-opened, filled, r.idle) (rw r.opened refl)

  asked-Others :
      (content : Text)
      → Others f.assistant_id (s.messages ++ (bare_message f.user_id user (trim content) ∷ []))
  asked-Others content = All-append _ s.messages _ r.new_id (r.two_ids, tt)

  asked-applied :
      (content : Text) (es : List StreamEvent)
      → change_message f.assistant_id (λ m. apply_stream_events m es) (asked content).messages
        ≡ s.messages
          ++ (bare_message f.user_id user (trim content)
              ∷ apply_stream_events (placeholder f.assistant_id) es
              ∷ [])
  asked-applied content es =
      ap (change_message f.assistant_id (λ m. apply_stream_events m es))
        (sym (append_assoc s.messages (bare_message f.user_id user (trim content) ∷ []) _))
      ∙ change_message-last (λ m. apply_stream_events m es) _ (placeholder f.assistant_id)
          (asked-Others content)
      ∙ append_assoc s.messages (bare_message f.user_id user (trim content) ∷ []) _

  -- A turn of `send` in an open, idle session, with ids that are new, a text that is not blank, whose stream is read to
  -- its end while the session stays open and after which nothing happens while the refetch runs: the
  -- transcript is the old one, the trimmed text and the reply with all its events, up to the ids
  -- that the refetch gives to messages that were not persisted, and nothing streams.
  pub send-IsEnded :
      (content : Text) (ticks : List Tick) (answer : Option (List MessageOut))
      → is_empty (trim content) ≡ false
      → All IsQuiet ticks
      → IsEnded
          (s.messages
            ++ (bare_message f.user_id user (trim content)
                ∷ apply_stream_events (placeholder f.assistant_id) (events_of ticks)
                ∷ []))
          (send f content ticks returned [] answer s).store
  send-IsEnded content ticks answer filled quiet =
      let ended =
        run_turn-IsEnded sid f.assistant_id ticks answer (asked content)
          (rw r.opened (same_refl sid)) quiet in
      subst (λ ms. IsEnded ms (send f content ticks returned [] answer s).store)
        (asked-applied content (events_of ticks))
        (subst
          (λ t.
            IsEnded
              (change_message f.assistant_id (λ m. apply_stream_events m (events_of ticks))
                (asked content).messages)
              t.store)
          (sym (send-started content ticks answer filled)) ended)
