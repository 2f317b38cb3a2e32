-- ===== src/Text/Trims.antt =====
-- `trim` and white space at the ends of a text.
use mathlib.Core.List.{reverse-cons, reverse-append, reverse-reverse}
use rag_chat_cli.Prelude.{
  ℕ, suc, ◌≤◌, Bool, true, false, [], ◌∷◌, ◌++◌, append-nil, reverse, all, length, ◌≡◌, refl, sym,
  ap, ◌∙◌, arith, if_rec, Bool-cases, inl, inr,
}
use rag_chat_cli.Text.{Text, is_space, trim_start, trim}

pub all-append :
    (p : ℕ → Bool) (s t : Text) → all p s ≡ true → all p t ≡ true → all p (s ++ t) ≡ true
all-append p [] t h k = k
all-append p (c ∷ s) t h k = ground (arith, h, all-append p s t, k)

pub all-reverse : (p : ℕ → Bool) (s : Text) → all p s ≡ true → all p (reverse s) ≡ true
all-reverse p [] h = refl
all-reverse p (c ∷ s) h =
    rw (reverse-cons c s)
      (all-append p (reverse s) (c ∷ []) (all-reverse p s (ground (arith, h))) (ground (arith, h)))

pub all-trim_start : (p : ℕ → Bool) (s : Text) → all p s ≡ true → all p (trim_start s) ≡ true
unfolding trim_start
all-trim_start p [] h = refl
all-trim_start p (c ∷ s) h = ground (arith, h, all-trim_start p s)

length-trim_start : (s : Text) → length (trim_start s) ≤ length s
unfolding trim_start
length-trim_start [] = omega arith
length-trim_start (c ∷ s) =
    if_rec (λ (t : Text). length t ≤ suc (length s)) (is_space c)
      (λ e. omega (arith, length-trim_start s)) (λ e. omega arith)

-- A text that trimming leaves alone begins with no space.
first_kept : (c : ℕ) (s : Text) → trim_start (c ∷ s) ≡ c ∷ s → is_space c ≡ false
unfolding trim_start
first_kept c s h = elim (Bool-cases (is_space c)) [
  | inl e ↦ absurd (omega (arith, length-trim_start s, ap length (rw e at h)))
  | inr e ↦ e
]

trim_start-spaces : (ws s : Text) → all is_space ws ≡ true → trim_start (ws ++ s) ≡ trim_start s
unfolding trim_start
trim_start-spaces [] s h = refl
trim_start-spaces (c ∷ ws) s h =
    if_rec (λ t. t ≡ trim_start s) (is_space c) (λ e. trim_start-spaces ws s (ground (arith, h, e)))
      (λ e. absurd (ground (arith, h, e)))

trim_start-split : (s : Text) → (ws : Text) × (s ≡ ws ++ trim_start s)
unfolding trim_start
trim_start-split [] = ([], refl)
trim_start-split (c ∷ s) = elim (Bool-cases (is_space c)) [
  | inl e ↦ let (ws, f) = trim_start-split s in (c ∷ ws, rw e (ap (◌∷◌ c) f))
  | inr e ↦ ([], rw e refl)
]

trim_start-trim_start : (s : Text) → trim_start (trim_start s) ≡ trim_start s
unfolding trim_start
trim_start-trim_start [] = refl
trim_start-trim_start (c ∷ s) = elim (Bool-cases (is_space c)) [
  | inl e ↦ rw e (trim_start-trim_start s)
  | inr e ↦ rw (e, e) refl
]

prefix_kept : (t ws : Text) → trim_start (t ++ ws) ≡ t ++ ws → trim_start t ≡ t
unfolding trim_start
prefix_kept [] ws h = refl
prefix_kept (c ∷ t) ws h = rw (first_kept c (t ++ ws) h) refl

-- A text without white space at its ends.
abbrev pub IsTight : Text → Type 0
IsTight t = (trim_start t ≡ t) × (trim_start (reverse t) ≡ reverse t)

pub trim-IsTight : (s : Text) → IsTight (trim s)
unfolding trim
trim-IsTight s =
    let u = trim_start s in
    let r = trim_start (reverse u) in
    let (ws, e) = trim_start-split (reverse u) in
    let whole : u ≡ reverse r ++ reverse ws =
      sym (reverse-reverse u) ∙ ap reverse e ∙ reverse-append ws r in
    (
      prefix_kept (reverse r) (reverse ws)
          (ap trim_start (sym whole) ∙ trim_start-trim_start s ∙ whole),
      rw (reverse-reverse r) (trim_start-trim_start (reverse u)),
    )

tight_first :
    (c : ℕ) (t ws : Text) → trim_start (c ∷ t) ≡ c ∷ t → trim_start (c ∷ (t ++ ws)) ≡ c ∷ (t ++ ws)
unfolding trim_start
tight_first c t ws h = rw (first_kept c t h) refl

trim_spaces : (ws : Text) → all is_space ws ≡ true → trim_start ws ≡ []
unfolding trim_start
trim_spaces [] h = refl
trim_spaces (c ∷ ws) h = ap trim_start (sym (append-nil (c ∷ ws))) ∙ trim_start-spaces (c ∷ ws) [] h

-- Trimming takes the white space off that stands behind a text that is trimmed.
pub trim-append : (t ws : Text) → IsTight t → all is_space ws ≡ true → trim (t ++ ws) ≡ t
unfolding trim
trim-append [] ws h k = ap (λ s. reverse (trim_start (reverse s))) (trim_spaces ws k)
trim-append (c ∷ t) ws (front, back) k =
    ap (λ s. reverse (trim_start (reverse s))) (tight_first c t ws front)
    ∙ ap (λ s. reverse (trim_start s)) (reverse-append (c ∷ t) ws)
    ∙ ap reverse
        (trim_start-spaces (reverse ws) (reverse (c ∷ t)) (all-reverse is_space ws k) ∙ back)
    ∙ reverse-reverse (c ∷ t)
