-- ===== src/Sse/Chunks.antt =====
-- The loops of `readSse` over a text that comes in chunks, clients/tui/src/api/sse.ts.
use rag_chat_cli.Prelude.{
  ℕ, zero, suc, ◌+◌, ◌<◌, List, [], ◌∷◌, ◌++◌, Option, none, some, ◌≡◌, refl, sym, ap, ◌∙◌, inl,
  inr, arith, length, length-drop, length-append, take, drop, take-append, drop-append, flatten,
  append-nil, append_assoc, Option-cases,
}
use rag_chat_cli.Text.{Text, codes, index_of}
use rag_chat_cli.Text.Laws.{index_of-bound, index_of-append}
use rag_chat_cli.Sse.{
  RawEvent, Ending, parse_frame, yielded, drain, drain_all, read_chunks, at_end, read_sse,
}

module _ {Json : Type 0} (json_parse : Text → Option Json) where
  -- One round, where a blank line is found.
  pub drain_found :
      (f : ℕ) (b : Text) (i : ℕ)
      → index_of b (codes "\n\n") ≡ some i
      → drain json_parse (suc f) b ≡ (
        yielded json_parse (parse_frame json_parse (take i b))
            ++ (drain json_parse f (drop (i + 2) b)).0,
        (drain json_parse f (drop (i + 2) b)).1,
      )
  unfolding drain
  drain_found f b i e = rw (e, drain)

  pub drain_missing :
      (f : ℕ) (b : Text) → index_of b (codes "\n\n") ≡ none → drain json_parse f b ≡ ([], b)
  unfolding drain
  drain_missing zero b e = refl
  drain_missing (suc f) b e = rw (e, drain)

  -- Any fuel above the length of the buffer gives the same result.
  pub drain_enough :
      (f g : ℕ) (b : Text)
      → length b < f
      → length b < g
      → drain json_parse f b ≡ drain json_parse g b
  drain_enough zero g b p q = absurd (omega arith)
  drain_enough (suc f) zero b p q = absurd (omega arith)
  drain_enough (suc f) (suc g) b p q = elim (Option-cases (index_of b (codes "\n\n"))) [
    | inl missing ↦ drain_missing (suc f) b missing ∙ sym (drain_missing (suc g) b missing)
    | inr (i, found) ↦
        let room = index_of-bound b (codes "\n\n") i found in
        let shorter = length-drop (i + 2) b in
        let same_later = drain_enough f g (drop (i + 2) b) (omega arith) (omega arith) in
        drain_found f b i found ∙ rw same_later (sym (drain_found g b i found))
  ]

  -- The events of `b`, then those of what `b` leaves with `c` behind it.
  abbrev resumed : ℕ → Text → Text → List (RawEvent Json) × Text
  resumed f b c =
      let first = drain json_parse f b in
      let second = drain_all json_parse (first.1 ++ c) in (first.0 ++ second.0, second.1)

  resumed_missing :
      (f : ℕ) (b c : Text)
      → index_of b (codes "\n\n") ≡ none
      → resumed f b c ≡ drain_all json_parse (b ++ c)
  resumed_missing f b c e = rw (drain_missing f b e)

  resumed_found :
      (f : ℕ) (b c : Text) (i : ℕ)
      → index_of b (codes "\n\n") ≡ some i
      → resumed (suc f) b c ≡ (
        yielded json_parse (parse_frame json_parse (take i b)) ++ (resumed f (drop (i + 2) b) c).0,
        (resumed f (drop (i + 2) b) c).1,
      )
  resumed_found f b c i e = rw (drain_found f b i e) (rw append_assoc)

  drain-append :
      (f g : ℕ) (b c : Text)
      → length b < f
      → length (b ++ c) < g
      → drain json_parse g (b ++ c) ≡ resumed f b c
  drain-append zero g b c p q = absurd (omega arith)
  drain-append (suc f) zero b c p q = absurd (omega arith)
  drain-append (suc f) (suc g) b c p q = elim (Option-cases (index_of b (codes "\n\n"))) [
    | inl missing ↦
        drain_enough (suc g) _ (b ++ c) q (omega arith) ∙ sym (resumed_missing (suc f) b c missing)
    | inr (i, found) ↦
        let room = index_of-bound b (codes "\n\n") i found in
        let whole = index_of-append b c (codes "\n\n") i found in
        let left = length-drop (i + 2) b in
        let total = length-append b c in
        let rest = length-append (drop (i + 2) b) c in
        let ih = drain-append f g (drop (i + 2) b) c (omega arith) (omega arith) in
        drain_found g (b ++ c) i whole
        ∙ rw (take-append i b c (omega arith), drop-append (i + 2) b c (omega arith), ih)
            (sym (resumed_found f b c i found))
  ]

  -- No blank line is left in the buffer.
  drain_left :
      (f : ℕ) (b : Text) → length b < f → index_of (drain json_parse f b).1 (codes "\n\n") ≡ none
  drain_left zero b p = absurd (omega arith)
  drain_left (suc f) b p = elim (Option-cases (index_of b (codes "\n\n"))) [
    | inl missing ↦ rw (drain_missing (suc f) b missing) missing
    | inr (i, found) ↦
        let room = index_of-bound b (codes "\n\n") i found in
        let left = length-drop (i + 2) b in
        rw (drain_found f b i found) (drain_left f (drop (i + 2) b) (omega arith))
  ]

  pub read_chunks-flatten :
      (b : Text) (cs : List Text)
      → index_of b (codes "\n\n") ≡ none
      → read_chunks json_parse b cs ≡ drain_all json_parse (b ++ flatten cs)
  unfolding read_chunks flatten
  read_chunks-flatten b [] e = rw append-nil (sym (drain_missing _ b e))
  read_chunks-flatten b (c ∷ cs) e =
      let left = drain_left (suc (length (b ++ c))) (b ++ c) (omega arith) in
      rw (read_chunks-flatten (drain_all json_parse (b ++ c)).1 cs left) (
        rw (← append_assoc)
          (sym (drain-append _ _ (b ++ c) (flatten cs) (omega arith) (omega arith))))

-- Whatever the chunks, the events yielded and the way the reader ends are those of the whole text
-- read in one chunk.
pub read_sse-flatten :
    {Json : Type 0} (json_parse : Text → Option Json) (chunks : List Text) (ending : Ending)
    → read_sse json_parse (some (record { chunks = chunks; ending = ending }))
      ≡ read_sse json_parse (some (record { chunks = flatten chunks ∷ []; ending = ending }))
unfolding read_sse index_of flatten
read_sse-flatten json_parse chunks ending =
    let whole = ap (λ t. drain_all json_parse t) (append-nil (flatten chunks)) in
    let once = read_chunks-flatten json_parse [] (flatten chunks ∷ []) refl ∙ whole in
    ap (λ r. (r.0 ++ at_end json_parse ending r.1, ending))
      (read_chunks-flatten json_parse [] chunks refl ∙ sym once)
