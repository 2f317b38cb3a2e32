-- ===== src/Tui/Sessions/Order.antt =====
-- The order in which `refresh` of clients/tui/src/store/session-store.ts lists the sessions.
use mathlib.Core.List.{Perm}
use mathlib.Core.List.Perm
use rag_chat_cli.Prelude.{
  ℕ, true, false, List, [], ◌∷◌, ◌≡◌, inl, inr, arith, Bool-cases, ◌≤◌, All, ◌⊎◌,
}
use rag_chat_cli.Text.{Text}
use rag_chat_cli.Wire.{SessionMeta}
use rag_chat_cli.Tui.Sessions.{
  changed_at, is_pinned, stands_behind, place, sort, SessionState, refresh_done,
}

module _ (date_parse : Text → ℕ) where
  -- Each session stands before all that follow it: none of them should stand before it.
  abbrev pub IsSorted : List SessionMeta → Type 0
  IsSorted [] = Unit
  IsSorted (x ∷ xs) = All (λ y. stands_behind date_parse x y ≡ false) xs × IsSorted xs

  stands_behind-asymm :
      (x y : SessionMeta)
      → stands_behind date_parse x y ≡ true
      → stands_behind date_parse y x ≡ false
  unfolding stands_behind
  stands_behind-asymm x y h = ground arith

  -- "Not behind" is transitive.
  before_trans :
      (x y z : SessionMeta)
      → stands_behind date_parse x y ≡ false
      → stands_behind date_parse y z ≡ false
      → stands_behind date_parse x z ≡ false
  unfolding stands_behind
  before_trans x y z h k = ground arith

  place-All :
      (P : SessionMeta → Type 0) (x : SessionMeta) (ys : List SessionMeta)
      → P x
      → All P ys
      → All P (place date_parse x ys)
  unfolding place
  place-All P x [] p h = (p, tt)
  place-All P x (y ∷ ys) p (q, h) = elim (Bool-cases (stands_behind date_parse x y)) [
    | inl later ↦ rw later (q, place-All P x ys p h)
    | inr now ↦ rw now (p, (q, h))
  ]

  before-All :
      (x y : SessionMeta) (ys : List SessionMeta)
      → stands_behind date_parse x y ≡ false
      → All (λ z. stands_behind date_parse y z ≡ false) ys
      → All (λ z. stands_behind date_parse x z ≡ false) ys
  before-All x y [] h k = tt
  before-All x y (z ∷ ys) h (p, k) = (before_trans x y z h p, before-All x y ys h k)

  place-IsSorted :
      (x : SessionMeta) (ys : List SessionMeta) → IsSorted ys → IsSorted (place date_parse x ys)
  unfolding place
  place-IsSorted x [] h = (tt, tt)
  place-IsSorted x (y ∷ ys) (p, h) = elim (Bool-cases (stands_behind date_parse x y)) [
    | inl later ↦
        rw later (place-All _ x ys (stands_behind-asymm x y later) p, place-IsSorted x ys h)
    | inr now ↦ rw now ((now, before-All x y ys now p), (p, h))
  ]

  place-perm : (x : SessionMeta) (ys : List SessionMeta) → Perm (place date_parse x ys) (x ∷ ys)
  unfolding place
  place-perm x [] = Perm.refl _
  place-perm x (y ∷ ys) = elim (Bool-cases (stands_behind date_parse x y)) [
    | inl later ↦ rw later (Perm.trans (Perm.cons y (place-perm x ys)) (Perm.swap x y ys))
    | inr now ↦ rw now (Perm.refl _)
  ]

  sort-IsSorted : (xs : List SessionMeta) → IsSorted (sort date_parse xs)
  unfolding sort
  sort-IsSorted [] = tt
  sort-IsSorted (x ∷ xs) = place-IsSorted x (sort date_parse xs) (sort-IsSorted xs)

  sort-perm : (xs : List SessionMeta) → Perm (sort date_parse xs) xs
  unfolding sort
  sort-perm [] = Perm.refl []
  sort-perm (x ∷ xs) = Perm.trans (place-perm x (sort date_parse xs)) (Perm.cons x (sort-perm xs))

  -- What a reader of the list sees: pinned sessions first, and the later change first among equals.
  abbrev pub InOrder : SessionMeta → SessionMeta → Type 0
  InOrder x y =
      ((is_pinned x ≡ true) × (is_pinned y ≡ false))
      ⊎ ((is_pinned x ≡ is_pinned y) × (changed_at date_parse y ≤ changed_at date_parse x))

  abbrev pub IsListed : List SessionMeta → Type 0
  IsListed [] = Unit
  IsListed (x ∷ xs) = All (InOrder x) xs × IsListed xs

  InOrder-of_before : (x y : SessionMeta) → stands_behind date_parse x y ≡ false → InOrder x y
  unfolding stands_behind
  InOrder-of_before x y h = elim (Bool-cases (is_pinned x)) [
    | inl p ↦ elim (Bool-cases (is_pinned y)) [ inl q ↦ inr (ground arith) | inr q ↦ inl (p, q) ]
    | inr p ↦ inr (ground arith)
  ]

  All-InOrder :
      (x : SessionMeta) (ys : List SessionMeta)
      → All (λ y. stands_behind date_parse x y ≡ false) ys
      → All (InOrder x) ys
  All-InOrder x [] h = tt
  All-InOrder x (y ∷ ys) (p, h) = (InOrder-of_before x y p, All-InOrder x ys h)

  IsListed-of_IsSorted : (xs : List SessionMeta) → IsSorted xs → IsListed xs
  IsListed-of_IsSorted [] h = tt
  IsListed-of_IsSorted (x ∷ xs) (p, h) = (All-InOrder x xs p, IsListed-of_IsSorted xs h)

-- After `refresh` the list holds the sessions of the answer, pinned ones first, and then the one
-- changed last.
pub refresh_done-IsListed :
    (date_parse : Text → ℕ) (answer : List SessionMeta) (s : SessionState)
    → IsListed date_parse (refresh_done date_parse answer s).sessions
      × Perm (refresh_done date_parse answer s).sessions answer
unfolding refresh_done
refresh_done-IsListed date_parse answer s = (
  IsListed-of_IsSorted date_parse _ (sort-IsSorted date_parse answer),
  sort-perm date_parse answer,
)
