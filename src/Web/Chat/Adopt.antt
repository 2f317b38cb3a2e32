-- ===== src/Web/Chat/Adopt.antt =====
-- The ids that the refetch of `runStream` gives to the messages on screen.
use mathlib.Core.List.{reverse-cons, reverse-reverse}
use rag_chat_cli.Prelude.{
  Bool, true, false, not, ◌&&◌, List, [], ◌∷◌, ◌++◌, reverse, Option, none, some, get_or, ◌≡◌, inl,
  inr, arith, Bool-cases, if_rec,
}
use rag_chat_cli.Text.{Text}
use rag_chat_cli.Wire.{MessageOut}
use rag_chat_cli.Web.Chat.Message.{UiMessage, is_given}
use rag_chat_cli.Web.Chat.Refetch.{
  is_persisted, is_user, is_known, comes_from_user, comes_from_assistant, NewIds, no_ids, pick,
  find_new, adopt_id, adopt_one, adopt_from, adopt,
}

-- Lists of one length whose messages are related in their order.
pub data Pairs (R : UiMessage → UiMessage → Type 0) : List UiMessage → List UiMessage → Type 0 where
  nil : Pairs R [] []
  cons :
      {m n : UiMessage} {ms ns : List UiMessage} → R m n → Pairs R ms ns → Pairs R (m ∷ ms) (n ∷ ns)

module _ {R : UiMessage → UiMessage → Type 0} where
  Pairs-concat :
      {m n : UiMessage} {ms ns : List UiMessage}
      → Pairs R ms ns
      → R m n
      → Pairs R (ms ++ (m ∷ [])) (ns ++ (n ∷ []))
  Pairs-concat nil r = cons r nil
  Pairs-concat (cons p h) r = cons p (Pairs-concat h r)

  Pairs-reverse : {ms ns : List UiMessage} → Pairs R ms ns → Pairs R (reverse ms) (reverse ns)
  Pairs-reverse nil = nil
  Pairs-reverse (cons r h) = rw (reverse-cons, reverse-cons) (Pairs-concat (Pairs-reverse h) r)

-- A message stays, or it was not persisted, and takes an id that no persisted message of the
-- transcript has; nothing else of it changes.
pub data Adopts (known : List UiMessage) (m : UiMessage) : UiMessage → Type 0 where
  stays : Adopts known m m
  adopts :
      (id : Text)
      → is_persisted m ≡ false
      → is_known known id ≡ false
      → Adopts known m (adopt_id m id)

module _ (known : List UiMessage) where
  -- An id that is given is not known.
  abbrev IsNew : Option Text → Type 0
  IsNew none = Unit
  IsNew (some id) = is_given (some id) ≡ true → is_known known id ≡ false

  pick-IsNew :
      (fits : Bool) (id : Text) (old : Option Text)
      → (fits ≡ true → is_known known id ≡ false)
      → IsNew old
      → IsNew (pick fits id old)
  pick-IsNew fits id old h k = elim (Bool-cases (not (is_given old) && fits)) [
    | inl now ↦ rw now (λ _. h (ground arith))
    | inr kept ↦ rw kept k
  ]

  find_new-IsNew :
      (ps : List MessageOut) (ids : NewIds)
      → IsNew ids.user_id
      → IsNew ids.assistant_id
      → IsNew (find_new known ids ps).user_id × IsNew (find_new known ids ps).assistant_id
  unfolding find_new
  find_new-IsNew [] ids h k = (h, k)
  find_new-IsNew (p ∷ ps) ids h k =
      let user_new =
        pick-IsNew (comes_from_user p.role && not (is_known known p.id)) p.id ids.user_id
          (λ e. ground arith) h in
      let assistant_new =
        pick-IsNew (comes_from_assistant p.role && not (is_known known p.id)) p.id ids.assistant_id
          (λ e. ground arith) k in
      if_rec (λ (r : NewIds). IsNew r.user_id × IsNew r.assistant_id) _
        (λ _. (user_new, assistant_new)) (λ _. find_new-IsNew ps _ user_new assistant_new)

  get_or-IsNew :
      (o : Option Text) → is_given o ≡ true → IsNew o → is_known known (get_or o []) ≡ false
  get_or-IsNew none e h = cc
  get_or-IsNew (some id) e h = h e

  adopt_one-Adopts :
      (ids : NewIds) (m : UiMessage)
      → IsNew ids.user_id
      → IsNew ids.assistant_id
      → Adopts known m (adopt_one ids m).0
        × IsNew (adopt_one ids m).1.user_id
        × IsNew (adopt_one ids m).1.assistant_id
  unfolding adopt_one
  adopt_one-Adopts ids m h k =
      if_rec AdoptedOne
        (is_given ids.assistant_id && (not (is_user m.role) && not (is_persisted m)))
        (λ e. (
          adopts (get_or ids.assistant_id []) (ground arith)
              (get_or-IsNew ids.assistant_id (ground arith) k),
          h,
          tt,
        ))
        (λ _.
          if_rec AdoptedOne (is_given ids.user_id && (is_user m.role && not (is_persisted m)))
            (λ e. (
              adopts (get_or ids.user_id []) (ground arith)
                  (get_or-IsNew ids.user_id (ground arith) h),
              tt,
              k,
            ))
            (λ _. (stays, h, k)))
    where
      AdoptedOne : UiMessage × NewIds → Type 0
      AdoptedOne r = Adopts known m r.0 × IsNew r.1.user_id × IsNew r.1.assistant_id

  pub Pairs-refl : (ms : List UiMessage) → Pairs (Adopts known) ms ms
  Pairs-refl [] = nil
  Pairs-refl (m ∷ ms) = cons stays (Pairs-refl ms)

  adopt_from-Pairs :
      (ids : NewIds) (ms : List UiMessage)
      → IsNew ids.user_id
      → IsNew ids.assistant_id
      → Pairs (Adopts known) ms (adopt_from ids ms)
  unfolding adopt_from
  adopt_from-Pairs ids [] h k = nil
  adopt_from-Pairs ids (m ∷ ms) h k =
      let (one, user_new, assistant_new) = adopt_one-Adopts ids m h k in
      cons one (
        if_rec (Pairs (Adopts known) ms) _ (λ _. Pairs-refl ms)
          (λ _. adopt_from-Pairs (adopt_one ids m).1 ms user_new assistant_new))

-- The refetch keeps the transcript's length and order; a persisted message is not touched, and
-- another one at most takes an id that no persisted message had, and counts as persisted then.
pub adopt-Pairs :
    (persisted : List MessageOut) (ms : List UiMessage) → Pairs (Adopts ms) ms (adopt persisted ms)
unfolding adopt
adopt-Pairs persisted ms =
    let (user_new, assistant_new) = find_new-IsNew ms (reverse persisted) no_ids tt tt in
    rw reverse-reverse at
      (Pairs-reverse (adopt_from-Pairs ms _ (reverse ms) user_new assistant_new))
