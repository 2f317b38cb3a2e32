-- ===== src/Text/Lines.antt =====
-- Texts without a line end, and where a blank line is found among them.
use rag_chat_cli.Prelude.{
  ℕ, suc, ◌+◌, [], ◌∷◌, ◌++◌, some, ◌≡◌, ◌≢◌, refl, arith, length, All, ap, ◌∙◌, append_assoc,
  length-append,
}
use rag_chat_cli.Text.{Text, starts_with, index_of, split}

-- No line feed.
abbrev pub IsLine : Text → Type 0
IsLine = All (λ c. c ≢ b'\n')

abbrev pub blank_line : Text
blank_line = b'\n' ∷ b'\n' ∷ []

pub index_of-line :
    (l t : Text) (k : ℕ)
    → IsLine l
    → index_of t blank_line ≡ some k
    → index_of (l ++ t) blank_line ≡ some (length l + k)
unfolding index_of starts_with
index_of-line [] t k h e = ground arith
index_of-line (c ∷ l) t k (p, h) e = ground (arith, index_of-line l t k h e)

-- One line feed before a non-empty line is no blank line.
pub index_of-feed :
    (l t : Text) (k : ℕ)
    → IsLine l
    → l ≢ []
    → index_of (l ++ t) blank_line ≡ some k
    → index_of (b'\n' ∷ (l ++ t)) blank_line ≡ some (suc k)
unfolding index_of starts_with
index_of-feed [] t k h ne e = absurd (ne refl)
index_of-feed (c ∷ l) t k (p, h) ne e = ground arith

pub index_of-blank : (t : Text) → index_of (b'\n' ∷ b'\n' ∷ t) blank_line ≡ some 0
unfolding index_of starts_with
index_of-blank t = refl

pub split-line : (l : Text) → IsLine l → split b'\n' l ≡ l ∷ []
unfolding split
split-line [] h = refl
split-line (c ∷ l) (p, h) = ground (arith, split-line l h)

pub split-line-append : (l t : Text) → IsLine l → split b'\n' (l ++ (b'\n' ∷ t)) ≡ l ∷ split b'\n' t
unfolding split
split-line-append [] t h = refl
split-line-append (c ∷ l) t (p, h) = ground (arith, split-line-append l t h)

-- Two lines, the second of them not empty, end at the first blank line.
pub index_of-two_lines :
    (l m t : Text)
    → IsLine l
    → IsLine m
    → m ≢ []
    → index_of ((l ++ (b'\n' ∷ m)) ++ (blank_line ++ t)) blank_line
      ≡ some (length (l ++ (b'\n' ∷ m)))
index_of-two_lines l m t hl hm ne =
    let after = index_of-line m (blank_line ++ t) 0 hm (index_of-blank t) in
    let second = index_of-feed m (blank_line ++ t) (length m + 0) hm ne after in
    let first = index_of-line l (b'\n' ∷ (m ++ (blank_line ++ t))) _ hl second in
    rw append_assoc (first ∙ ap some (omega (arith, length-append l (b'\n' ∷ m))))
