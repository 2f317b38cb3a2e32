-- ===== src/Web/Chat/Flushes.antt =====
-- The queue of `runStream`, its flush timer and the end of the stream.
use rag_chat_cli.Prelude.{
  Bool, true, false, ◌||◌, List, [], ◌∷◌, ◌++◌, none, ◌≡◌, refl, sym, ap, ◌∙◌, inl, inr, arith,
  append-nil, append_assoc, Bool-cases, if◌then◌else◌, All,
}
use rag_chat_cli.Text.{Text, same}
use rag_chat_cli.Wire.{StreamEvent}
use rag_chat_cli.Web.Chat.Message.{
  UiMessage, Batch, apply_one, apply_all, close_batch, apply_stream_events,
}
use rag_chat_cli.Web.Chat.Batches.{apply_stream_events-append, apply_stream_events-one_by_one}
use rag_chat_cli.Web.Chat.Store.{
  ChatStore, is_session, set_use_rag, set_think, set_model_selection, abort,
}
use rag_chat_cli.Web.Chat.Stream.{
  change_message, new_task, Running, is_error, is_last, Action, opens, act, Tick, event,
  timer_fires, action, returned, flush, receive, fire, consume, release, settle, run_stream,
}

apply_one-id : (b : Batch) (e : StreamEvent) → (apply_one b e).next.id ≡ b.next.id
unfolding apply_one
apply_one-id b _ = ground arith

apply_all-id : (b : Batch) (es : List StreamEvent) → (close_batch (apply_all b es)).id ≡ b.next.id
unfolding apply_all close_batch
apply_all-id b [] = ground arith
apply_all-id b (e ∷ es) = apply_all-id (apply_one b e) es ∙ apply_one-id b e

apply_stream_events-id :
    (m : UiMessage) (es : List StreamEvent) → (apply_stream_events m es).id ≡ m.id
unfolding apply_stream_events
apply_stream_events-id m es = apply_all-id _ es

module _ (pid : Text) where
  abbrev applied : List StreamEvent → List UiMessage → List UiMessage
  applied es = change_message pid (λ m. apply_stream_events m es)

  applied-nil : (ms : List UiMessage) → applied [] ms ≡ ms
  unfolding change_message
  applied-nil [] = refl
  applied-nil (m ∷ ms) = elim (Bool-cases (same m.id pid)) [
    | inl here ↦ rw here (
        ap (λ x. x ∷ applied [] ms) (apply_stream_events-one_by_one m [])
        ∙ ap (◌∷◌ m) (applied-nil ms))
    | inr other ↦ rw other (ap (◌∷◌ m) (applied-nil ms))
  ]

  applied-append :
      (xs ys : List StreamEvent) (ms : List UiMessage)
      → applied (xs ++ ys) ms ≡ applied ys (applied xs ms)
  unfolding change_message
  applied-append xs ys [] = refl
  applied-append xs ys (m ∷ ms) = ground (
    arith,
    applied-append xs ys ms,
    apply_stream_events-id m xs,
    apply_stream_events-append m xs ys,
  )

-- The events of a schedule.
abbrev pub events_of : List Tick → List StreamEvent
events_of [] = []
events_of (event e ∷ ts) = e ∷ events_of ts
events_of (_ ∷ ts) = events_of ts

-- A tick that does not open another session.
abbrev pub IsQuiet : Tick → Type 0
IsQuiet (action (opens i)) = ⊥
IsQuiet _ = Unit

module _ (sid pid : Text) where
  -- A running stream whose events have all been applied.
  abbrev flushed : List StreamEvent → Bool → ChatStore → Running
  flushed pending saw s = record {
    task = record { pending = []; timer = false; saw_error = saw };
    store = record s { messages = applied pid pending s.messages };
  }

  flush-at :
      (pending : List StreamEvent) (timer saw : Bool) (s : ChatStore)
      → is_session sid s.session_id ≡ true
      → flush sid pid (record {
        task = record { pending = pending; timer = timer; saw_error = saw };
        store = s;
      })
        ≡ flushed pending saw s
  unfolding flush
  flush-at [] timer saw s h = λ i. record {
    task = record { pending = []; timer = false; saw_error = saw };
    store = record s { messages = sym (applied-nil pid s.messages) i };
  }
  flush-at (e ∷ es) timer saw s h = rw h

  flush_lem :
      (r : Running)
      → is_session sid r.store.session_id ≡ true
      → flush sid pid r ≡ flushed r.task.pending r.task.saw_error r.store
  flush_lem r h = flush-at r.task.pending r.task.timer r.task.saw_error r.store h

module _ (sid pid : Text) (shown : List UiMessage) where
  -- Flushing what waits now gives all that came, `past`, applied to the transcript `shown`.
  record Owes (past : List StreamEvent) (r : Running) : Type 0 where
    here : is_session sid r.store.session_id ≡ true
    owed : applied pid r.task.pending r.store.messages ≡ applied pid past shown

  flush-Owes : (past : List StreamEvent) (r : Running) → Owes past r → Owes past (flush sid pid r)
  flush-Owes past r h =
      rw (flush_lem sid pid r h.here) (record { here = h.here; owed = applied-nil pid _ ∙ h.owed })

  flush-messages :
      (past : List StreamEvent) (r : Running)
      → Owes past r
      → (flush sid pid r).store.messages ≡ applied pid past shown
  flush-messages past r h = ap (λ q. q.store.messages) (flush_lem sid pid r h.here) ∙ h.owed

  queue-Owes :
      (past : List StreamEvent) (e : StreamEvent) (r : Running) (timer saw : Bool)
      → Owes past r
      → Owes (past ++ (e ∷ [])) (record {
        task = record { pending = r.task.pending ++ (e ∷ []); timer = timer; saw_error = saw };
        store = r.store;
      })
  queue-Owes past e r timer saw h = record {
    here = h.here;
    owed =
        applied-append pid r.task.pending (e ∷ []) r.store.messages
        ∙ ap (applied pid (e ∷ [])) h.owed
        ∙ sym (applied-append pid past (e ∷ []) shown);
  }

  receive-Owes :
      (past : List StreamEvent) (e : StreamEvent) (r : Running)
      → Owes past r
      → Owes (past ++ (e ∷ [])) (receive sid pid e r)
  unfolding receive
  receive-Owes past e r h = elim (Bool-cases (is_last e)) [
    | inl last ↦
        rw last
          (flush-Owes _ _ (queue-Owes past e r r.task.timer (is_error e || r.task.saw_error) h))
    | inr more ↦ rw more (queue-Owes past e r true (is_error e || r.task.saw_error) h)
  ]

  pick-Owes :
      (b : Bool) (past : List StreamEvent) (q r : Running)
      → Owes past q
      → Owes past r
      → Owes past (if b then q else r)
  pick-Owes true past q r h k = h
  pick-Owes false past q r h k = k

  fire-Owes : (past : List StreamEvent) (r : Running) → Owes past r → Owes past (fire sid pid r)
  unfolding fire
  fire-Owes past r h = pick-Owes r.task.timer past (flush sid pid r) r (flush-Owes past r h) h

  act-Owes :
      (past : List StreamEvent) (a : Action) (r : Running)
      → IsQuiet (action a)
      → Owes past r
      → Owes past (record r { store = act a r.store })
  unfolding act set_use_rag set_think set_model_selection abort
  act-Owes past (opens i) r q h = absurd q
  act-Owes past _ r q h = record { here = h.here; owed = h.owed }

  -- What the loop leaves: it ran to its end, and owes its events behind `past`.
  record Consumed (past : List StreamEvent) (ts : List Tick) (out : Running × Bool) : Type 0 where
    stayed : out.1 ≡ false
    owes : Owes (past ++ events_of ts) out.0

  consume-Consumed :
      (past : List StreamEvent) (ts : List Tick) (r : Running)
      → All IsQuiet ts
      → Owes past r
      → Consumed past ts (consume sid pid ts r)
  unfolding consume
  consume-Consumed past [] r q h = record { stayed = refl; owes = rw append-nil h }
  consume-Consumed past (event e ∷ ts) r (_, q) h =
      let ih =
        consume-Consumed (past ++ (e ∷ [])) ts (receive sid pid e r) q (receive-Owes past e r h) in
      rw (h.here) (record { stayed = ih.stayed; owes = rw append_assoc at ih.owes })
  consume-Consumed past (timer_fires ∷ ts) r (_, q) h =
      let ih = consume-Consumed past ts (fire sid pid r) q (fire-Owes past r h) in
      record { stayed = ih.stayed; owes = ih.owes }
  consume-Consumed past (action a ∷ ts) r (p, q) h =
      let ih =
        consume-Consumed past ts (record r { store = act a r.store }) q (act-Owes past a r p h) in
      record { stayed = ih.stayed; owes = ih.owes }

  release-Owes :
      (past : List StreamEvent) (out : Running × Bool)
      → out.1 ≡ false
      → Owes past out.0
      → let s' = (settle sid pid returned out).0.store in
        (s'.messages ≡ applied pid past shown)
        × (s'.streaming ≡ false)
        × (s'.abort_controller ≡ none)
  unfolding settle release
  release-Owes past (r, true) e h = cc
  release-Owes past (r, false) e h =
      let kept = flush-Owes past r h in rw (kept.here) (flush-messages past r h, refl, refl)

-- A stream that is read to its end while its session stays open leaves the placeholder with all its
-- events applied and the other messages as they were, however the flush timer and the other actions
-- cut the events into batches; nothing streams any more.
pub run_stream-returned :
    (sid pid : Text) (ts : List Tick) (s : ChatStore)
    → is_session sid s.session_id ≡ true
    → All IsQuiet ts
    → let s' = (run_stream sid pid ts returned s).0 in
      (s'.messages ≡ change_message pid (λ m. apply_stream_events m (events_of ts)) s.messages)
      × (s'.streaming ≡ false)
      × (s'.abort_controller ≡ none)
unfolding run_stream
run_stream-returned sid pid ts s h q =
    let start : Owes sid pid s.messages [] (record { task = new_task; store = s }) = record {
      here = h;
      owed = refl;
    } in
    let out =
      consume-Consumed sid pid s.messages [] ts (record { task = new_task; store = s }) q start in
    release-Owes sid pid s.messages (events_of ts) _ out.stayed out.owes
