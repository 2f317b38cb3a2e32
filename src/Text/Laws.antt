-- ===== src/Text/Laws.antt =====
-- Equality, prefixes and searching.
use rag_chat_cli.Prelude.{
  ℕ, ◌+◌, ◌≤◌, true, [], ◌∷◌, ◌++◌, some, ◌≡◌, refl, ◌↔◌, inl, inr, arith, length, Bool-cases,
  Option-cases,
}
use rag_chat_cli.Text.{Text, same, starts_with, index_of}

pub same_iff : (a b : Text) → (same a b ≡ true) ↔ (a ≡ b)
unfolding same
same_iff (x ∷ a) (y ∷ b) = ground (arith, same_iff a b)
same_iff _ _ = ground arith

pub same_refl : (a : Text) → same a a ≡ true
same_refl a = (same_iff a a).1 refl

pub starts_with-length : (s p : Text) → starts_with s p ≡ true → length p ≤ length s
unfolding starts_with
starts_with-length s [] h = omega arith
starts_with-length [] (y ∷ ys) h = ground arith
starts_with-length (x ∷ xs) (y ∷ ys) h = ground (arith, starts_with-length xs ys)

-- Whether a text that is long enough begins with `p` does not depend on what follows it.
pub starts_with-append :
    (s t p : Text) → length p ≤ length s → starts_with (s ++ t) p ≡ starts_with s p
unfolding starts_with
starts_with-append s t [] h = refl
starts_with-append [] t (y ∷ ys) h = absurd (omega arith)
starts_with-append (x ∷ xs) t (y ∷ ys) h = ground (arith, starts_with-append xs t ys (omega arith))

pub index_of-bound : (s p : Text) (i : ℕ) → index_of s p ≡ some i → i + length p ≤ length s
unfolding index_of starts_with
index_of-bound [] [] i h = ground arith
index_of-bound [] (y ∷ p) i h = ground arith
index_of-bound (c ∷ s) p i h = elim (Bool-cases (starts_with (c ∷ s) p)) [
  | inl here ↦ ground (arith, starts_with-length (c ∷ s) p here)
  | inr later ↦ elim (Option-cases (index_of s p)) [
    | inl missing ↦ ground arith
    | inr (k, found) ↦ ground (arith, index_of-bound s p k found)
  ]
]

-- A match is found at the same place in every longer text.
pub index_of-append : (s t p : Text) (i : ℕ) → index_of s p ≡ some i → index_of (s ++ t) p ≡ some i
unfolding index_of starts_with
index_of-append [] [] [] i h = h
index_of-append [] (c ∷ t) [] i h = ground arith
index_of-append [] t (y ∷ p) i h = ground arith
index_of-append (c ∷ s) t p i h =
    let fits = index_of-bound (c ∷ s) p i h in
    let agree = starts_with-append (c ∷ s) t p (omega arith) in
    elim (Bool-cases (starts_with (c ∷ s) p)) [
      | inl here ↦ ground arith
      | inr later ↦ elim (Option-cases (index_of s p)) [
        | inl missing ↦ ground arith
        | inr (k, found) ↦ ground (arith, index_of-append s t p k found)
      ]
    ]
