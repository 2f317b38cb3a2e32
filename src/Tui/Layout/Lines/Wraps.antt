-- ===== src/Tui/Layout/Lines/Wraps.antt =====
-- How lines are wrapped.
use rag_chat_cli.Prelude.{
  ℕ, zero, suc, ◌+◌, ◌-◌, ◌≤◌, ◌<◌, Bool, true, false, not, ◌||◌, List, [], ◌∷◌, ◌++◌, append-nil,
  append_assoc, flatten, map, filter, Option, none, some, length, ltb, ◌==◌, All, All-append, ◌≡◌,
  refl, sym, ap, subst, ◌∙◌, arith, if_rec,
}
use rag_chat_cli.Text.{Text, is_empty}
use rag_chat_cli.Tui.Layout.Lines.{
  sgr_reset, Piece, sgr, unit, sgr_at, pieces_from, pieces, rows, wrap_to_width,
}
use rag_chat_cli.Tui.Layout.Lines.Rows.{
  text_of, text_of-append, IsMatch, sgr_at-IsMatch, is_break, unit_widths, unit_widths-append,
  positive,
}

-- A colour sequence has units.
IsSolid : Piece → Type 0
IsSolid (sgr t) = 0 < length t
IsSolid (unit c) = Unit

first-IsSolid :
    (c : ℕ) (s : Text) (o : Option Text)
    → IsMatch (c ∷ s) o
    → ((skip : ℕ) → All IsSolid (pieces_from skip s))
    → All IsSolid
        (elim o [ none ↦ unit c ∷ pieces_from 0 s | some t ↦ sgr t ∷ pieces_from (length t - 1) s ])
unfolding IsSolid IsMatch
first-IsSolid c s none h later = (tt, later 0)
first-IsSolid c s (some t) h later = (h.0, later (length t - 1))

pieces_from-IsSolid : (skip : ℕ) (s : Text) → All IsSolid (pieces_from skip s)
unfolding pieces_from
pieces_from-IsSolid zero [] = tt
pieces_from-IsSolid (suc skip) [] = tt
pieces_from-IsSolid (suc skip) (c ∷ s) = pieces_from-IsSolid skip s
pieces_from-IsSolid zero (c ∷ s) =
    first-IsSolid c s (sgr_at (c ∷ s)) (sgr_at-IsMatch (c ∷ s)) (λ skip. pieces_from-IsSolid skip s)

solid_empty : (ps : List Piece) → All IsSolid ps → is_empty (text_of ps) ≡ true → ps ≡ []
unfolding text_of is_empty IsSolid
solid_empty [] h e = refl
solid_empty (sgr [] ∷ ps) (p, h) e = absurd (omega arith)
solid_empty (sgr (c ∷ t) ∷ ps) h e = ground (arith, e)
solid_empty (unit c ∷ ps) h e = ground (arith, e)

-- The pieces that are no line breaks.
abbrev pub unbroken : List Piece → List Piece
unbroken ps = filter (λ p. not (is_break p)) ps

abbrev pub row : List Piece → Text
row ps = text_of ps ++ sgr_reset

module _ (string_width : Text → ℕ) where
  -- Pieces in rows: in their order, the code units of a row, each measured alone, of at most `width`.
  abbrev pub IsWrapped : (width : ℕ) → List Piece → List Text → Type 0
  IsWrapped width ps out =
      (groups : List (List Piece)) × (out ≡ map row groups)
      × (flatten groups ≡ ps)
      × All (λ g. unit_widths string_width g ≤ width) groups

  end_row :
      (width : ℕ) (buffer : Text) (b ps : List Piece) (out : List Text)
      → buffer ≡ text_of b
      → unit_widths string_width b ≤ width
      → IsWrapped width ps out
      → IsWrapped width (b ++ ps) ((buffer ++ sgr_reset) ∷ out)
  unfolding flatten
  end_row width buffer b ps out t h (groups, e, f, g) =
      (b ∷ groups, rw t (ap (◌∷◌ (row b)) e), ap (◌++◌ b) f, (h, g))

  longer :
      (width : ℕ) (p : Piece) (b qs : List Piece) (out : List Text)
      → IsWrapped width ((b ++ (p ∷ [])) ++ qs) out
      → IsWrapped width (b ++ (p ∷ qs)) out
  longer width p b qs out = subst (λ ps. IsWrapped width ps out) (append_assoc b (p ∷ []) qs)

module _ (string_width : Text → ℕ) (strip_ansi : Text → Text) (width : ℕ)
    (fits : (c : ℕ) → string_width (c ∷ []) ≤ width) where
  last_row :
      (buffer : Text) (used : ℕ) (b : List Piece) (started : Bool)
      → buffer ≡ text_of b
      → unit_widths string_width b ≤ width
      → All IsSolid b
      → IsWrapped string_width width
          (b ++ [])
          (rows string_width strip_ansi width buffer used started [])
  unfolding rows flatten
  last_row buffer used b started t h solid =
      if_rec (IsWrapped string_width width (b ++ [])) (not (is_empty buffer) || not started)
        (λ e. end_row string_width width buffer b [] [] t h ([], refl, refl, tt))
        (λ e. ([], refl, sym (append-nil b ∙ solid_empty b solid (ground (arith, e, t))), tt))

  rows-IsWrapped :
      (buffer : Text) (used : ℕ) (b : List Piece) (started : Bool) (ps : List Piece)
      → buffer ≡ text_of b
      → used ≡ unit_widths string_width b
      → unit_widths string_width b ≤ width
      → All IsSolid b
      → All IsSolid ps
      → IsWrapped string_width width
          (b ++ unbroken ps)
          (rows string_width strip_ansi width buffer used started ps)
  unfolding rows unit_widths text_of is_break IsSolid
  rows-IsWrapped buffer used b started [] t u h solid solids =
      last_row buffer used b started t h solid
  rows-IsWrapped buffer used b started (sgr s ∷ ps) t u h solid (p, solids) =
      longer string_width width (sgr s) b (unbroken ps) _ (
        rows-IsWrapped (buffer ++ s) used (b ++ (sgr s ∷ [])) started ps
          (rw (t, text_of-append b (sgr s ∷ [])) (ap (◌++◌ (text_of b)) (sym (append-nil s))))
          (omega (arith, u, unit_widths-append string_width b (sgr s ∷ [])))
          (omega (arith, h, unit_widths-append string_width b (sgr s ∷ [])))
          (All-append IsSolid b (sgr s ∷ []) solid (p, tt)) solids)
  rows-IsWrapped buffer used b started (unit c ∷ ps) t u h solid (p, solids) =
      let wider : ltb width (used + string_width (c ∷ [])) ≡ false
          → unit_widths string_width (b ++ (unit c ∷ [])) ≤ width =
        λ f. ground (arith, f, u, unit_widths-append string_width b (unit c ∷ [])) in
      if_rec (IsWrapped string_width width (b ++ unbroken (unit c ∷ ps))) (c == 10)
        (λ e. rw e (
          end_row string_width width buffer b (unbroken ps) _ t h
            (rows-IsWrapped [] 0 [] true ps refl refl (omega arith) tt solids)))
        (λ e.
          if_rec (IsWrapped string_width width (b ++ unbroken (unit c ∷ ps)))
            (ltb width (used + string_width (c ∷ [])))
            (λ f. rw e (
              end_row string_width width buffer b (unit c ∷ unbroken ps) _ t h (
                rows-IsWrapped (c ∷ []) (string_width (c ∷ [])) (unit c ∷ []) true ps refl
                  (omega arith) (omega (arith, fits c)) (tt, tt) solids)))
            (λ f. rw e (
              longer string_width width (unit c) b (unbroken ps) _ (
                rows-IsWrapped (buffer ++ (c ∷ [])) (used + string_width (c ∷ []))
                  (b ++ (unit c ∷ [])) started ps (rw (t, text_of-append b (unit c ∷ [])) refl)
                  (omega (arith, u, unit_widths-append string_width b (unit c ∷ []))) (wider f)
                  (All-append IsSolid b (unit c ∷ []) solid (tt, tt)) solids))))

  -- Where every code unit fits into a row, the rows of a text are its pieces less the line breaks, in
  -- their order. The widths of the code units of a row, each measured alone as the loop does, add up to
  -- at most `width`, and a reset ends it.
  pub wrap_to_width-IsWrapped :
      (value : Text)
      → 0 < width
      → IsWrapped string_width width
          (unbroken (pieces value))
          (wrap_to_width string_width strip_ansi value width)
  unfolding wrap_to_width unit_widths text_of
  wrap_to_width-IsWrapped value p = rw (positive width p) (
      rows-IsWrapped [] 0 [] false (pieces value) refl refl (omega arith) tt
        (pieces_from-IsSolid 0 value))
