-- ===== src/Tui/Layout/Lines/Rows.antt =====
-- How lines are cut.
use rag_chat_cli.Prelude.{
  ℕ, zero, suc, ◌+◌, ◌-◌, ◌≤◌, ◌<◌, Bool, true, false, ◌&&◌, ◌||◌, List, [], ◌∷◌, ◌++◌,
  append_assoc, Option, none, some, length, ltb, leb, ◌==◌, drop, ◌≡◌, refl, sym, ap, subst, ◌∙◌,
  arith, if_rec,
}
use rag_chat_cli.Text.{Text}
use rag_chat_cli.Tui.Layout.Lines.{
  sgr_reset, Piece, sgr, unit, sgr_tail, sgr_at, pieces_from, pieces, keep, truncate_to_width,
  visible_width,
}

-- The text of pieces.
unfoldable pub text_of : List Piece → Text
text_of [] = []
text_of (sgr t ∷ ps) = t ++ text_of ps
text_of (unit c ∷ ps) = c ∷ text_of ps

-- What a match of a colour sequence is: a beginning of the text, and not empty.
unfoldable pub IsMatch : Text → Option Text → Type 0
IsMatch s none = Unit
IsMatch s (some t) = (0 < length t) × (t ++ drop (length t) s ≡ s)

cons-IsMatch :
    (c : ℕ) (s : Text) (o : Option Text)
    → IsMatch s o
    → IsMatch (c ∷ s) (elim o [ none ↦ none | some t ↦ some (c ∷ t) ])
unfolding IsMatch
cons-IsMatch c s none h = tt
cons-IsMatch c s (some t) (p, e) = (omega arith, ap (◌∷◌ c) e)

begun-IsMatch :
    (c d : ℕ) (s : Text) (o : Option Text)
    → IsMatch s o
    → IsMatch (c ∷ d ∷ s) (elim o [ none ↦ none | some t ↦ some (c ∷ d ∷ t) ])
unfolding IsMatch
begun-IsMatch c d s none h = tt
begun-IsMatch c d s (some t) (p, e) = (omega arith, ap (λ r. c ∷ d ∷ r) e)

sgr_tail-IsMatch : (s : Text) → IsMatch s (sgr_tail s)
unfolding sgr_tail IsMatch
sgr_tail-IsMatch [] = tt
sgr_tail-IsMatch (c ∷ s) =
    if_rec (IsMatch (c ∷ s)) (c == b'm') (λ e. (omega arith, refl))
      (λ e.
        if_rec (IsMatch (c ∷ s)) ((leb b'0' c && leb c b'9') || c == b';')
          (λ f. cons-IsMatch c s (sgr_tail s) (sgr_tail-IsMatch s)) (λ f. tt))

pub sgr_at-IsMatch : (s : Text) → IsMatch s (sgr_at s)
unfolding sgr_at IsMatch
sgr_at-IsMatch [] = tt
sgr_at-IsMatch (c ∷ []) = tt
sgr_at-IsMatch (c ∷ d ∷ s) =
    if_rec (IsMatch (c ∷ d ∷ s)) (c == 27 && d == b'[')
      (λ e. begun-IsMatch c d s (sgr_tail s) (sgr_tail-IsMatch s)) (λ e. tt)

matched :
    (c : ℕ) (s t : Text) (rest : Text)
    → IsMatch (c ∷ s) (some t)
    → rest ≡ drop (length t - 1) s
    → t ++ rest ≡ c ∷ s
unfolding IsMatch
matched c s [] rest (p, e) h = absurd (omega arith)
matched c s (d ∷ t) rest (p, e) h = rw h (ap (λ n. d ∷ (t ++ drop n s)) (omega arith) ∙ e)

first_piece :
    (c : ℕ) (s : Text) (o : Option Text)
    → IsMatch (c ∷ s) o
    → ((skip : ℕ) → text_of (pieces_from skip s) ≡ drop skip s)
    → text_of
        (elim o [ none ↦ unit c ∷ pieces_from 0 s | some t ↦ sgr t ∷ pieces_from (length t - 1) s ])
      ≡ c ∷ s
unfolding text_of
first_piece c s none h later = ap (◌∷◌ c) (later 0)
first_piece c s (some t) h later = matched c s t _ h (later (length t - 1))

-- The pieces of a text are the text.
pub text_of-pieces_from : (skip : ℕ) (s : Text) → text_of (pieces_from skip s) ≡ drop skip s
unfolding text_of pieces_from
text_of-pieces_from zero [] = refl
text_of-pieces_from (suc skip) [] = refl
text_of-pieces_from (suc skip) (c ∷ s) = text_of-pieces_from skip s
text_of-pieces_from zero (c ∷ s) =
    first_piece c s (sgr_at (c ∷ s)) (sgr_at-IsMatch (c ∷ s)) (λ skip. text_of-pieces_from skip s)

pub text_of-append : (ps qs : List Piece) → text_of (ps ++ qs) ≡ text_of ps ++ text_of qs
unfolding text_of
text_of-append [] qs = refl
text_of-append (sgr t ∷ ps) qs =
    ap (◌++◌ t) (text_of-append ps qs) ∙ sym (append_assoc t (text_of ps) (text_of qs))
text_of-append (unit c ∷ ps) qs = ap (◌∷◌ c) (text_of-append ps qs)

pub positive : (max : ℕ) → 0 < max → (max == 0) ≡ false
positive max p = ground (arith, p)

unfoldable pub is_break : Piece → Bool
is_break (sgr t) = false
is_break (unit c) = c == 10

module _ (string_width : Text → ℕ) where
  -- The widths of the single UTF-16 code units of pieces, added up as the loops of the source do. Where
  -- the package gives half of a surrogate pair no width, the row can be wider than this on the screen.
  unfoldable pub unit_widths : List Piece → ℕ
  unit_widths [] = 0
  unit_widths (sgr t ∷ ps) = unit_widths ps
  unit_widths (unit c ∷ ps) = string_width (c ∷ []) + unit_widths ps

  pub unit_widths-append :
      (ps qs : List Piece) → unit_widths (ps ++ qs) ≡ unit_widths ps + unit_widths qs
  unfolding unit_widths
  unit_widths-append [] qs = omega arith
  unit_widths-append (sgr t ∷ ps) qs = unit_widths-append ps qs
  unit_widths-append (unit c ∷ ps) qs = omega (arith, unit_widths-append ps qs)

module _ (string_width : Text → ℕ) (strip_ansi : Text → Text) where
  -- The next piece of a text that is cut is a unit that does not fit.
  unfoldable pub IsFull : (max : ℕ) → (kept left : List Piece) → Type 0
  IsFull max kept [] = Unit
  IsFull max kept (sgr t ∷ left) = true ≡ false
  IsFull max kept (unit c ∷ left) = max < unit_widths string_width kept + string_width (c ∷ [])

  -- What is kept of pieces, and what is left.
  abbrev pub IsCut : (max : ℕ) → List Piece → Text → Type 0
  IsCut max ps t =
      (kept : List Piece) × (left : List Piece) × (ps ≡ kept ++ left)
      × (t ≡ text_of kept)
      × (unit_widths string_width kept ≤ max)
      × IsFull max kept left

  weigh_first :
      (c max used : ℕ) (kept left : List Piece)
      → used + string_width (c ∷ []) ≤ max
      → IsFull (max - (used + string_width (c ∷ []))) kept left
      → IsFull (max - used) (unit c ∷ kept) left
  unfolding IsFull unit_widths
  weigh_first c max used kept [] le h = tt
  weigh_first c max used kept (sgr t ∷ left) le h = h
  weigh_first c max used kept (unit d ∷ left) le h = omega arith

  colour_first :
      (t : Text) (max : ℕ) (kept left : List Piece)
      → IsFull max kept left
      → IsFull max (sgr t ∷ kept) left
  unfolding IsFull unit_widths
  colour_first t max kept [] h = tt
  colour_first t max kept (sgr u ∷ left) h = h
  colour_first t max kept (unit d ∷ left) h = h

  keep-IsCut :
      (max used : ℕ) (ps : List Piece)
      → used ≤ max
      → IsCut (max - used) ps (keep string_width strip_ansi max used ps)
  unfolding keep text_of unit_widths IsFull
  keep-IsCut max used [] h = ([], [], refl, refl, omega arith, tt)
  keep-IsCut max used (sgr t ∷ ps) h =
      let (kept, left, e, f, g, full) = keep-IsCut max used ps h in
      (sgr t ∷ kept, left, ap (◌∷◌ (sgr t)) e, ap (◌++◌ t) f, g, colour_first t _ kept left full)
  keep-IsCut max used (unit c ∷ ps) h =
      if_rec (IsCut (max - used) (unit c ∷ ps)) (ltb max (used + string_width (c ∷ [])))
        (λ e. ([], unit c ∷ ps, refl, refl, omega arith, ground (arith, e)))
        (λ e.
          let fits : used + string_width (c ∷ []) ≤ max = ground (arith, e) in
          let (kept, left, e, f, g, full) = keep-IsCut max (used + string_width (c ∷ [])) ps fits in
          (
            unit c ∷ kept,
            left,
            ap (◌∷◌ (unit c)) e,
            ap (◌∷◌ c) f,
            omega (arith, g, fits),
            weigh_first c max used kept left fits full,
          ))

  -- A line whose visible width is above `max` is cut at a piece: the widths of the code units that are
  -- kept, each measured alone, add up to at most `max`, with the next unit, if there is one, they would
  -- be more, and a reset ends it.
  pub truncate_to_width-IsCut :
      (line : Text) (max : ℕ)
      → 0 < max
      → leb (visible_width string_width strip_ansi line) max ≡ false
      → (t : Text) × (truncate_to_width string_width strip_ansi line max ≡ t ++ sgr_reset)
        × IsCut max (pieces line) t
  unfolding truncate_to_width
  truncate_to_width-IsCut line max p h = (
    keep string_width strip_ansi max 0 (pieces line),
    rw (positive max p, h) refl,
    subst (λ n. IsCut n (pieces line) (keep string_width strip_ansi max 0 (pieces line)))
        (omega arith) (keep-IsCut max 0 (pieces line) (omega arith)),
  )
