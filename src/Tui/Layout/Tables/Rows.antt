-- ===== src/Tui/Layout/Tables/Rows.antt =====
-- How wide the lines of a table's rows are.
use rag_chat_cli.Prelude.{
  ℕ, zero, suc, ◌+◌, ◌-◌, ◌*◌, ◌/◌, ◌≤◌, max, Bool, List, [], ◌∷◌, ◌++◌, append_assoc, map, Option,
  none, get_elem?, get_or, length, leb, All, ◌≡◌, sym, ap, subst, ◌∙◌, arith, if_rec, ◌⊎◌, inl, inr,
}
use rag_chat_cli.Text.{Text, join}
use rag_chat_cli.Tui.Layout.Columns.{sum}
use rag_chat_cli.Tui.Layout.Lines.{repeat, visible_width}
use rag_chat_cli.Tui.Layout.Tables.{
  Align, left, right, center, dim, indices, pad_cell, cell_text, cell_part, bar, row_line,
}

-- A printable ASCII character, or one of the block Box Drawing.
abbrev pub IsShown : ℕ → Type 0
IsShown c = ((32 ≤ c) × (c ≤ 126)) ⊎ ((9472 ≤ c) × (c ≤ 9599))

abbrev pub IsDigit : ℕ → Type 0
IsDigit c = (b'0' ≤ c) × (c ≤ b'9')

-- A text of such characters and of colour sequences with one code, and how many characters it has.
pub data Drawn : Text → ℕ → Type 0 where
  nothing : Drawn [] 0
  shown : (c : ℕ) {s : Text} {n : ℕ} → IsShown c → Drawn s n → Drawn (c ∷ s) (suc n)
  coloured :
      (code : Text) {s : Text} {n : ℕ}
      → All IsDigit code
      → length code ≤ 3
      → Drawn s n
      → Drawn (27 ∷ b'[' ∷ (code ++ (b'm' ∷ s))) n

-- The same text with a width that is equal.
resized : {s : Text} {n m : ℕ} → n ≡ m → Drawn s n → Drawn s m
resized {s = s} e d = subst (Drawn s) e d

Drawn-append : {s t : Text} {n m : ℕ} → Drawn s n → Drawn t m → Drawn (s ++ t) (n + m)
Drawn-append nothing e = resized (omega arith) e
Drawn-append (shown c h d) e = resized (omega arith) (shown c h (Drawn-append d e))
Drawn-append {t = t} {m = m} (coloured code {s = s} {n = n} h l d) e =
    subst (λ r. Drawn (27 ∷ b'[' ∷ r) (n + m)) (sym (append_assoc code (b'm' ∷ s) t))
      (coloured code h l (Drawn-append d e))

Drawn-blanks : (n : ℕ) → Drawn (repeat n (b' ' ∷ [])) n
Drawn-blanks zero = nothing
Drawn-blanks (suc n) = shown b' ' (inl (omega arith, omega arith)) (Drawn-blanks n)

Drawn-dim : {s : Text} {n : ℕ} → Drawn s n → Drawn (dim s) n
Drawn-dim {s = s} d = resized (omega arith) (
    coloured (b'2' ∷ []) ((omega arith, omega arith), tt) (omega arith)
      (Drawn-append d
        (coloured (b'0' ∷ []) ((omega arith, omega arith), tt) (omega arith) nothing)))

module _ (string_width : Text → ℕ) (strip_ansi : Text → Text)
    (measured : (s : Text) (n : ℕ) → Drawn s n → visible_width string_width strip_ansi s ≡ n) where
  Drawn-bar : Drawn (bar string_width strip_ansi) 1
  Drawn-bar = Drawn-dim (shown 9474 (inr (omega arith, omega arith)) nothing)

  padded :
      (text : Text) (n pad : ℕ) (align : Align)
      → Drawn text n
      → Drawn
          (elim align as (λ a. Text) [
            | left ↦ text ++ repeat pad (b' ' ∷ [])
            | right ↦ repeat pad (b' ' ∷ []) ++ text
            | center ↦ repeat (pad / 2) (b' ' ∷ []) ++ (text ++ repeat (pad - pad / 2) (b' ' ∷ []))
          ])
          (n + pad)
  padded text n pad left d = Drawn-append d (Drawn-blanks pad)
  padded text n pad right d = resized (omega arith) (Drawn-append (Drawn-blanks pad) d)
  padded text n pad center d =
      resized (omega arith)
        (Drawn-append (Drawn-blanks (pad / 2)) (Drawn-append d (Drawn-blanks (pad - pad / 2))))

  -- A cell is as wide as its column, or as its text if that is wider.
  Drawn-pad_cell :
      (text : Text) (n width : ℕ) (align : Align)
      → Drawn text n
      → Drawn (pad_cell string_width strip_ansi text width align) (max width n)
  unfolding pad_cell
  Drawn-pad_cell text n width align d =
      let size = measured text n d in
      if_rec (λ r. Drawn r (max width n)) (leb width (visible_width string_width strip_ansi text))
        (λ e. resized (ground (arith, e, size)) d)
        (λ e.
          resized (ground (arith, e, size))
            (padded text n (width - visible_width string_width strip_ansi text) align d))

  -- The width of column `c`.
  abbrev column : List ℕ → ℕ → ℕ
  column widths c = get_or (get_elem? widths c) 4

  -- The text of a cell is drawn, and no wider than its column.
  abbrev pub Fits :
      (widths : List ℕ) (is_bold : Bool) (wrapped : List (List Text)) (line c : ℕ) → Type 0
  Fits widths is_bold wrapped line c =
      (n : ℕ) × Drawn (cell_text string_width strip_ansi is_bold wrapped line c) n
      × (n ≤ column widths c)

  Drawn-cell_part :
      (widths : List ℕ) (align : List (Option Align)) (is_bold : Bool) (wrapped : List (List Text))
      (line c : ℕ)
      → Fits widths is_bold wrapped line c
      → Drawn
          (cell_part string_width strip_ansi widths align is_bold wrapped line c)
          (column widths c + 2)
  unfolding cell_part
  Drawn-cell_part widths align is_bold wrapped line c (n, d, h) =
      let a = get_or (get_or (get_elem? align c) none) left in
      let blank : Drawn (b' ' ∷ []) 1 = Drawn-blanks 1 in
      resized (omega (arith, h)) (
        Drawn-append blank (
          Drawn-append
            (Drawn-pad_cell (cell_text string_width strip_ansi is_bold wrapped line c) n
              (column widths c) a d)
            blank))

  -- The parts of columns with a bar between two, each with the bar behind it.
  Drawn-parts :
      (w : ℕ) (ws all : List ℕ) (align : List (Option Align)) (is_bold : Bool)
      (wrapped : List (List Text)) (line i : ℕ)
      → ((j : ℕ) → get_elem? all (i + j) ≡ get_elem? (w ∷ ws) j)
      → All (Fits all is_bold wrapped line) (indices i (length (w ∷ ws)))
      → Drawn
          (join (bar string_width strip_ansi) (
              map
                (cell_part string_width strip_ansi all align is_bold wrapped line)
                (indices i (length (w ∷ ws))))
            ++ bar string_width strip_ansi)
          (sum (w ∷ ws) + 3 * length (w ∷ ws))
  unfolding join
  Drawn-parts w [] all align is_bold wrapped line i same (p, h) =
      let here : column all i ≡ w =
        ap (λ o. get_or o 4) (ap (get_elem? all) (omega arith) ∙ same 0) in
      resized (omega (arith, here))
        (Drawn-append (Drawn-cell_part all align is_bold wrapped line i p) Drawn-bar)
  Drawn-parts w (v ∷ ws) all align is_bold wrapped line i same (p, h) =
      let here : column all i ≡ w =
        ap (λ o. get_or o 4) (ap (get_elem? all) (omega arith) ∙ same 0) in
      let part = cell_part string_width strip_ansi all align is_bold wrapped line in
      let line_bar = bar string_width strip_ansi in
      let rest = join line_bar (map part (indices (suc i) (length (v ∷ ws)))) in
      let later =
        Drawn-parts v ws all align is_bold wrapped line (suc i)
          (λ j. ap (get_elem? all) (omega arith) ∙ same (suc j)) h in
      subst (λ t. Drawn t (sum (w ∷ v ∷ ws) + 3 * length (w ∷ v ∷ ws)))
        (sym (
          append_assoc (part i) (line_bar ++ rest) line_bar
          ∙ ap (◌++◌ (part i)) (append_assoc line_bar rest line_bar)))
        (resized (omega (arith, here)) (
          Drawn-append (Drawn-cell_part all align is_bold wrapped line i p)
            (Drawn-append Drawn-bar later)))

  -- Where texts of printable ASCII and box characters, with colour sequences of one code, are as wide
  -- as they have characters, and every cell's text is such a text and no wider than its column, a line
  -- of a row is as wide as the columns, with two blanks for each, and the bars.
  pub row_line_width :
      (w : ℕ) (ws : List ℕ) (align : List (Option Align)) (is_bold : Bool)
      (wrapped : List (List Text)) (line : ℕ)
      → All (Fits (w ∷ ws) is_bold wrapped line) (indices 0 (length (w ∷ ws)))
      → visible_width string_width strip_ansi
          (row_line string_width strip_ansi (length (w ∷ ws)) (w ∷ ws) align is_bold wrapped line)
        ≡ sum (w ∷ ws) + 3 * length (w ∷ ws) + 1
  unfolding row_line
  row_line_width w ws align is_bold wrapped line h = measured _ _ (
      resized (omega arith) (
        Drawn-append Drawn-bar (
          Drawn-parts w ws (w ∷ ws) align is_bold wrapped line 0
            (λ j. ap (get_elem? (w ∷ ws)) (omega arith)) h)))
