-- ===== src/Web/Chat/Batches.antt =====
-- `applyStreamEvents` on batches, as the flush timer cuts them, and on single events.
use rag_chat_cli.Prelude.{
  List, [], ◌∷◌, ◌++◌, some, get_or, ◌≡◌, refl, sym, ap, ◌∙◌, arith, append-nil, append_assoc,
}
use rag_chat_cli.Text.{Text, is_empty}
use rag_chat_cli.Wire.{StreamEvent, token, thought}
use rag_chat_cli.Web.Chat.Message.{
  UiMessage, Batch, add_thought, apply_one, apply_all, close_content, close_thoughts, close_batch,
  apply_stream_events,
}

close_content_lem :
    (delta : Text) (m : UiMessage)
    → close_content delta m ≡ record m { content = m.content ++ delta }
unfolding close_content is_empty
close_content_lem [] m = λ i. record m { content = sym (append-nil m.content) i }
close_content_lem (c ∷ delta) m = refl

-- The message of a batch, with no test.
abbrev closed : UiMessage → Text → List Text → UiMessage
closed m delta ts = close_thoughts ts (record m { content = m.content ++ delta })

close_batch_lem : (b : Batch) → close_batch b ≡ closed b.next b.content_delta b.thoughts
unfolding close_batch
close_batch_lem b = ap (close_thoughts b.thoughts) (close_content_lem b.content_delta b.next)

close_thoughts_cons :
    (t : Text) (ts : List Text) (m : UiMessage)
    → close_thoughts (t ∷ ts) m ≡ record m { thoughts = some (get_or m.thoughts [] ++ (t ∷ ts)) }
unfolding close_thoughts
close_thoughts_cons t ts m = ground arith

close_thoughts_nil : (m : UiMessage) → close_thoughts [] m ≡ m
unfolding close_thoughts
close_thoughts_nil m = ground arith

close_thoughts-append :
    (ts us : List Text) (m : UiMessage)
    → close_thoughts (ts ++ us) m ≡ close_thoughts us (close_thoughts ts m)
close_thoughts-append [] us m = ap (close_thoughts us) (sym (close_thoughts_nil m))
close_thoughts-append (t ∷ ts) [] m =
    ap (λ us. close_thoughts us m) (append-nil (t ∷ ts)) ∙ sym (close_thoughts_nil _)
close_thoughts-append (t ∷ ts) (u ∷ us) m =
    close_thoughts_cons t (ts ++ (u ∷ us)) m
    ∙ (λ i. record m {
      thoughts = some (sym (append_assoc (get_or m.thoughts []) (t ∷ ts) (u ∷ us)) i);
    })
    ∙ sym (close_thoughts_cons u us _)
    ∙ ap (close_thoughts (u ∷ us)) (sym (close_thoughts_cons t ts m))

abbrev batch : UiMessage → Text → List Text → Batch
batch m delta ts = record { next = m; content_delta = delta; thoughts = ts }

no_content : (m : UiMessage) → record m { content = m.content ++ [] } ≡ m
no_content m = λ i. record m { content = append-nil m.content i }

add_thought-batch :
    (m : UiMessage) (delta : Text) (ts : List Text) (text : Text)
    → close_batch (add_thought text (batch m delta ts))
      ≡ close_batch (add_thought text (batch (closed m delta ts) [] []))
unfolding add_thought is_empty
add_thought-batch m delta ts [] =
    close_batch_lem _
    ∙ sym (no_content (closed m delta ts))
    ∙ sym (close_thoughts_nil _)
    ∙ sym (close_batch_lem _)
add_thought-batch m delta ts (c ∷ text) =
    close_batch_lem _
    ∙ close_thoughts-append ts ((c ∷ text) ∷ []) _
    ∙ ap (close_thoughts ((c ∷ text) ∷ [])) (sym (no_content (closed m delta ts)))
    ∙ sym (close_batch_lem _)

-- One more event for a batch is the same as that event alone, for the message of the batch.
apply_one-batch :
    (m : UiMessage) (delta : Text) (ts : List Text) (e : StreamEvent)
    → close_batch (apply_one (batch m delta ts) e)
      ≡ close_batch (apply_one (batch (closed m delta ts) [] []) e)
unfolding apply_one close_thoughts
apply_one-batch m delta ts (thought text) = add_thought-batch m delta ts (get_or text [])
apply_one-batch m delta [] (token d) =
    rw (close_batch_lem, close_batch_lem)
      (ground (arith, append_assoc m.content delta (get_or d [])))
apply_one-batch m delta (t ∷ ts) (token d) =
    rw (close_batch_lem, close_batch_lem)
      (ground (arith, append_assoc m.content delta (get_or d [])))
apply_one-batch m delta [] e =
    rw (close_batch_lem, close_batch_lem) (ground (arith, append-nil (m.content ++ delta)))
apply_one-batch m delta (t ∷ ts) e =
    rw (close_batch_lem, close_batch_lem) (ground (arith, append-nil (m.content ++ delta)))

single : UiMessage → StreamEvent → UiMessage
single m e = apply_stream_events m (e ∷ [])

apply_one-single :
    (b : Batch) (e : StreamEvent) → close_batch (apply_one b e) ≡ single (close_batch b) e
unfolding single apply_stream_events apply_all
apply_one-single b e =
    apply_one-batch b.next b.content_delta b.thoughts e
    ∙ ap (λ m. close_batch (apply_one (batch m [] []) e)) (sym (close_batch_lem b))

-- Each event in a batch of its own.
abbrev pub one_by_one : UiMessage → List StreamEvent → UiMessage
one_by_one m [] = m
one_by_one m (e ∷ es) = one_by_one (apply_stream_events m (e ∷ [])) es

apply_all-one_by_one :
    (b : Batch) (es : List StreamEvent)
    → close_batch (apply_all b es) ≡ one_by_one (close_batch b) es
unfolding apply_all
apply_all-one_by_one b [] = refl
apply_all-one_by_one b (e ∷ es) =
    apply_all-one_by_one (apply_one b e) es
    ∙ ap (λ m. one_by_one m es) (unfold single in apply_one-single b e)

-- Applying a batch is applying its events one by one.
pub apply_stream_events-one_by_one :
    (m : UiMessage) (es : List StreamEvent) → apply_stream_events m es ≡ one_by_one m es
unfolding apply_stream_events
apply_stream_events-one_by_one m es =
    apply_all-one_by_one (batch m [] []) es
    ∙ ap (λ x. one_by_one x es)
        (close_batch_lem (batch m [] []) ∙ close_thoughts_nil _ ∙ no_content m)

one_by_one-append :
    (m : UiMessage) (xs ys : List StreamEvent)
    → one_by_one m (xs ++ ys) ≡ one_by_one (one_by_one m xs) ys
one_by_one-append m [] ys = refl
one_by_one-append m (x ∷ xs) ys = one_by_one-append (apply_stream_events m (x ∷ [])) xs ys

-- Where the flush timer cuts the events of a stream into two batches does not matter.
pub apply_stream_events-append :
    (m : UiMessage) (xs ys : List StreamEvent)
    → apply_stream_events m (xs ++ ys) ≡ apply_stream_events (apply_stream_events m xs) ys
apply_stream_events-append m xs ys =
    apply_stream_events-one_by_one m (xs ++ ys)
    ∙ one_by_one-append m xs ys
    ∙ ap (λ x. one_by_one x ys) (sym (apply_stream_events-one_by_one m xs))
    ∙ sym (apply_stream_events-one_by_one (apply_stream_events m xs) ys)
