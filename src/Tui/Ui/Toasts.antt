-- ===== src/Tui/Ui/Toasts.antt =====
-- The toasts of clients/tui/src/store/ui-store.ts and their timers.
use rag_chat_cli.Prelude.{
  ℕ, ◌+◌, ◌≤◌, ◌<◌, Bool, true, not, List, [], ◌∷◌, ◌++◌, filter, any, ◌==◌, ◌≡◌, ◌≢◌, inl, inr,
  arith, All, Bool-cases, All-append,
}
use rag_chat_cli.Text.{Text}
use rag_chat_cli.Tui.Ui.{Toast, Level, UiState, push_toast, dismiss_toast}

-- The store beside the timers that have not gone off, each the id of its toast.
pub record World : Type 0 where
  pub store : UiState
  pub timers : List ℕ

abbrev without : ℕ → List ℕ → List ℕ
without id = filter (λ t. not (t == id))

pub data Step : World → World → Type 0 where
  pushes :
      (l : Level) (m : Text) (w : World)
      → Step w (record {
        store = (push_toast l m w.store).0;
        timers = (push_toast l m w.store).1.0 ∷ w.timers;
      })
  dismisses : (id : ℕ) (w : World) → Step w (record w { store = dismiss_toast id w.store })
  goes_off :
      (id : ℕ) (w : World)
      → Step w (record { store = dismiss_toast id w.store; timers = without id w.timers })

pub data Reach (w : World) : World → Type 0 where
  here : Reach w w
  next : {u v : World} → Reach w u → Step u v → Reach w v

abbrev pub IsTimed : List ℕ → Toast → Type 0
IsTimed timers t = any (λ i. i == t.id) timers ≡ true

abbrev pub HasDistinctIds : List Toast → Type 0
HasDistinctIds [] = Unit
HasDistinctIds (t ∷ ts) = All (λ u. u.id ≢ t.id) ts × HasDistinctIds ts

-- Every toast has a timer, the ids are distinct, and none is above the counter.
pub record IsKept (w : World) : Type 0 where
  pub timed : All (IsTimed w.timers) w.store.toasts
  pub distinct : HasDistinctIds w.store.toasts
  pub counted : All (λ t. t.id ≤ w.store.toast_seq) w.store.toasts

All-filter :
    (P : Toast → Type 0) (p : Toast → Bool) (ts : List Toast) → All P ts → All P (filter p ts)
All-filter P p [] h = tt
All-filter P p (t ∷ ts) (q, h) = elim (Bool-cases (p t)) [
  | inl kept ↦ rw kept (q, All-filter P p ts h)
  | inr gone ↦ rw gone (All-filter P p ts h)
]

HasDistinctIds-filter :
    (p : Toast → Bool) (ts : List Toast) → HasDistinctIds ts → HasDistinctIds (filter p ts)
HasDistinctIds-filter p [] h = tt
HasDistinctIds-filter p (t ∷ ts) (q, h) = elim (Bool-cases (p t)) [
  | inl kept ↦ rw kept (All-filter _ p ts q, HasDistinctIds-filter p ts h)
  | inr gone ↦ rw gone (HasDistinctIds-filter p ts h)
]

All-IsTimed-cons :
    (i : ℕ) (timers : List ℕ) (ts : List Toast)
    → All (IsTimed timers) ts
    → All (IsTimed (i ∷ timers)) ts
All-IsTimed-cons i timers [] h = tt
All-IsTimed-cons i timers (t ∷ ts) (p, h) = (ground arith, All-IsTimed-cons i timers ts h)

any-without :
    (id j : ℕ) (timers : List ℕ)
    → j ≢ id
    → any (λ i. i == j) timers ≡ true
    → any (λ i. i == j) (without id timers) ≡ true
any-without id j [] ne h = h
any-without id j (i ∷ timers) ne h = ground (arith, any-without id j timers ne)

All-IsTimed-without :
    (id : ℕ) (timers : List ℕ) (ts : List Toast)
    → All (IsTimed timers) ts
    → All (IsTimed (without id timers)) (filter (λ t. not (t.id == id)) ts)
All-IsTimed-without id timers [] h = tt
All-IsTimed-without id timers (t ∷ ts) (p, h) = elim (Bool-cases (not (t.id == id))) [
  | inl kept ↦
      rw kept (any-without id t.id timers (ground arith) p, All-IsTimed-without id timers ts h)
  | inr gone ↦ rw gone (All-IsTimed-without id timers ts h)
]

HasDistinctIds-append :
    (ts : List Toast) (x : Toast) (n : ℕ)
    → HasDistinctIds ts
    → All (λ t. t.id ≤ n) ts
    → n < x.id
    → HasDistinctIds (ts ++ (x ∷ []))
HasDistinctIds-append [] x n h c lt = (tt, tt)
HasDistinctIds-append (t ∷ ts) x n (p, h) (q, c) lt =
    (All-append _ ts (x ∷ []) p (omega arith, tt), HasDistinctIds-append ts x n h c lt)

All-le_suc : (n : ℕ) (ts : List Toast) → All (λ t. t.id ≤ n) ts → All (λ t. t.id ≤ n + 1) ts
All-le_suc n [] h = tt
All-le_suc n (t ∷ ts) (p, h) = (omega arith, All-le_suc n ts h)

Step-IsKept : {u v : World} → Step u v → IsKept u → IsKept v
unfolding push_toast dismiss_toast
Step-IsKept (pushes l m w) k =
    let seq = w.store.toast_seq in
    let toast : Toast = record { id = seq + 1; level = l; message = m } in
    record {
      timed =
          All-append _ w.store.toasts (toast ∷ [])
            (All-IsTimed-cons (seq + 1) w.timers w.store.toasts k.timed) (ground arith, tt);
      distinct = HasDistinctIds-append w.store.toasts toast seq k.distinct k.counted (omega arith);
      counted =
          All-append _ w.store.toasts (toast ∷ []) (All-le_suc seq w.store.toasts k.counted)
            (omega arith, tt);
    }
Step-IsKept (dismisses id w) k = record {
  timed = All-filter _ _ w.store.toasts k.timed;
  distinct = HasDistinctIds-filter _ w.store.toasts k.distinct;
  counted = All-filter _ _ w.store.toasts k.counted;
}
Step-IsKept (goes_off id w) k = record {
  timed = All-IsTimed-without id w.timers w.store.toasts k.timed;
  distinct = HasDistinctIds-filter _ w.store.toasts k.distinct;
  counted = All-filter _ _ w.store.toasts k.counted;
}

Reach-IsKept_from : {u v : World} → IsKept u → Reach u v → IsKept v
Reach-IsKept_from k here = k
Reach-IsKept_from k (next r st) = Step-IsKept st (Reach-IsKept_from k r)

-- From a store with no toast: in every state reached the ids on screen are distinct, and every toast
-- has a timer that has not gone off.
pub Reach-IsKept :
    {w : World} (s : UiState)
    → s.toasts ≡ []
    → Reach (record { store = s; timers = [] }) w
    → HasDistinctIds w.store.toasts × All (IsTimed w.timers) w.store.toasts
Reach-IsKept s e r =
    let k =
      Reach-IsKept_from (record { timed = rw e tt; distinct = rw e tt; counted = rw e tt }) r in
    (k.distinct, k.timed)
