-- ===== src/Tui/Layout/Tables.antt =====
-- Tables in the terminal, `renderTable` of clients/tui/src/markdown/render.ts. The text of a cell's
-- inline tokens is a parameter, the parser's.
pub mod Frames
pub mod Rows
use rag_chat_cli.Prelude.{
  ℕ, zero, suc, ◌+◌, ◌-◌, ◌*◌, ◌/◌, max, Bool, true, false, List, [], ◌∷◌, ◌++◌, map, Option, none,
  some, get_elem?, get_or, length, ltb, leb, ◌==◌, if◌then◌else◌,
}
use rag_chat_cli.Text.{Text, codes, split, join, starts_with}
use rag_chat_cli.Tui.Layout.Columns.{fair_share}
use rag_chat_cli.Tui.Layout.Lines.{sgr_reset, repeat, visible_width, wrap_to_width}

pub data Align : Type 0 where
  left : Align
  right : Align
  center : Align

-- `SGR.bold` and `SGR.dim`
abbrev pub sgr_bold : Text
sgr_bold = 27 ∷ b'[' ∷ b'1' ∷ b'm' ∷ []

abbrev pub sgr_dim : Text
sgr_dim = 27 ∷ b'[' ∷ b'2' ∷ b'm' ∷ []

abbrev pub dim : Text → Text
dim s = sgr_dim ++ (s ++ sgr_reset)

abbrev pub bold : Text → Text
bold s = sgr_bold ++ (s ++ sgr_reset)

-- `s.replace(/p/g, by)` for a pattern of one text, behind the first `skip` units.
unfoldable pub replace_from : (skip : ℕ) (p by : Text) → Text → Text
unfolding starts_with
replace_from skip p by [] = []
replace_from (suc skip) p by (c ∷ s) = replace_from skip p by s
replace_from zero p by (c ∷ s) =
    let found = by ++ replace_from (length p - 1) p by s in
    let other = c ∷ replace_from zero p by s in if starts_with (c ∷ s) p then found else other

unfoldable pub normalise_inline : Text → Text
unfolding replace_from
normalise_inline value = replace_from 0 (codes "&#39;") (codes "'") (
    replace_from 0 (codes "&quot;") (b'"' ∷ []) (
      replace_from 0 (codes "&gt;") (codes ">") (
        replace_from 0 (codes "&lt;") (codes "<") (
          replace_from 0 (codes "&amp;") (codes "&")
            (replace_from 0 (codes "*#COLON|*") (codes ":") value)))))

-- `for (let i = from; i < from + count; i++)`
abbrev pub indices : (from count : ℕ) → List ℕ
indices from zero = []
indices from (suc count) = from ∷ indices (suc from) count

-- `Math.max(m, ...ns)`
abbrev pub max_of : ℕ → List ℕ → ℕ
max_of m [] = m
max_of m (n ∷ ns) = max_of (max m n) ns

module _ (string_width : Text → ℕ) (strip_ansi : Text → Text) where
  unfoldable pub longest_visible_line : Text → ℕ
  unfolding split
  longest_visible_line text = max_of 0 (map (visible_width string_width strip_ansi) (split 10 text))

  unfoldable pub pad_cell : Text → (width : ℕ) → Align → Text
  pad_cell text width align =
      let used = visible_width string_width strip_ansi text in
      let pad = width - used in
      if leb width used then text else elim align as (λ a. Text) [
        | left ↦ text ++ repeat pad (b' ' ∷ [])
        | right ↦ repeat pad (b' ' ∷ []) ++ text
        | center ↦ repeat (pad / 2) (b' ' ∷ []) ++ (text ++ repeat (pad - pad / 2) (b' ' ∷ []))
      ]

  -- The width of column `i` before any is narrowed.
  unfoldable pub natural_width : (header : List Text) (body : List (List Text)) (i : ℕ) → ℕ
  unfolding longest_visible_line
  natural_width header body i = max 4 (
      max_of (longest_visible_line (get_or (get_elem? header i) []))
        (map (λ row. longest_visible_line (get_or (get_elem? row i) [])) body))

  -- `cells.map((cell, i) => wrapToWidth(cell, widths[i] ?? minWidth))`, from the index `i` on.
  unfoldable pub wrapped_from : (i : ℕ) (widths : List ℕ) → List Text → List (List Text)
  wrapped_from i widths [] = []
  wrapped_from i widths (cell ∷ cells) =
      wrap_to_width string_width strip_ansi cell (get_or (get_elem? widths i) 4)
      ∷ wrapped_from (suc i) widths cells

  -- `wrapped[c]?.[line] ?? ''`, bold in the header
  abbrev pub cell_text : (is_bold : Bool) (wrapped : List (List Text)) (line c : ℕ) → Text
  cell_text is_bold wrapped line c =
      let text = get_or (get_elem? (get_or (get_elem? wrapped c) []) line) [] in
      if is_bold then bold text else text

  -- A cell's part of a line.
  unfoldable pub cell_part :
      (widths : List ℕ) (align : List (Option Align)) (is_bold : Bool) (wrapped : List (List Text))
      (line c : ℕ)
      → Text
  unfolding pad_cell
  cell_part widths align is_bold wrapped line c =
      b' '
      ∷ (pad_cell (cell_text is_bold wrapped line c) (get_or (get_elem? widths c) 4)
            (get_or (get_or (get_elem? align c) none) left)
          ++ (b' ' ∷ []))

  -- `dim('│')`
  abbrev pub bar : Text
  bar = dim (9474 ∷ [])

  unfoldable pub row_line :
      (cols : ℕ) (widths : List ℕ) (align : List (Option Align)) (is_bold : Bool)
      (wrapped : List (List Text)) (line : ℕ)
      → Text
  unfolding cell_part join
  row_line cols widths align is_bold wrapped line =
      bar ++ (join bar (map (cell_part widths align is_bold wrapped line) (indices 0 cols)) ++ bar)

  unfoldable pub render_row :
      (cols : ℕ) (widths : List ℕ) (align : List (Option Align)) (is_bold : Bool) → List Text → Text
  unfolding wrapped_from row_line
  render_row cols widths align is_bold cells =
      let wrapped = wrapped_from 0 widths cells in
      join (10 ∷ []) (
        map (row_line cols widths align is_bold wrapped)
          (indices 0 (max_of 1 (map length wrapped))))

  unfoldable pub sep : (widths : List ℕ) (first mid last : ℕ) → Text
  unfolding join
  sep widths first mid last =
      dim (first ∷ (join (mid ∷ []) (map (λ w. repeat (w + 2) (9472 ∷ [])) widths) ++ (last ∷ [])))

  -- The rows of the body, with a separator between two.
  unfoldable pub body_parts :
      (cols : ℕ) (widths : List ℕ) (align : List (Option Align)) → List (List Text) → List Text
  unfolding render_row sep
  body_parts cols widths align [] = []
  body_parts cols widths align (row ∷ []) = render_row cols widths align false row ∷ []
  body_parts cols widths align (row ∷ next ∷ rows) =
      render_row cols widths align false row
      ∷ sep widths 9500 9532 9508
      ∷ body_parts cols widths align (next ∷ rows)

  -- The widths that `renderTable` gives to the columns.
  unfoldable pub column_widths : (width : ℕ) (header : List Text) (body : List (List Text)) → List ℕ
  unfolding natural_width fair_share
  column_widths width header body =
      let cols = length header in
      let overhead = cols + 1 + cols * 2 in
      fair_share (map (natural_width header body) (indices 0 cols))
        (max (cols * 4) (max 20 (width - 4) - overhead)) 4

  module _ {Cell : Type 0} (parse_inline : Cell → Text) where
    unfoldable pub render_table :
        (header : List Cell) (body : List (List Cell)) (align : List (Option Align)) (width : ℕ)
        → Text
    unfolding normalise_inline column_widths body_parts
    render_table header body align width =
        let header_cells = map (λ cell. normalise_inline (parse_inline cell)) header in
        let body_rows = map (map (λ cell. normalise_inline (parse_inline cell))) body in
        let widths = column_widths width header_cells body_rows in
        let cols = length header in
        let drawn = join (10 ∷ []) (
          []
          ∷ sep widths 9581 9516 9582
          ∷ render_row cols widths align true header_cells
          ∷ sep widths 9500 9532 9508
          ∷ (body_parts cols widths align body_rows ++ (sep widths 9584 9524 9583 ∷ [] ∷ []))) in
        if cols == 0 then [] else drawn
