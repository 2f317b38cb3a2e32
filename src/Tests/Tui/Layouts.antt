-- ===== src/Tests/Tui/Layouts.antt =====
-- The layout of lines and tables at concrete inputs.
use rag_chat_cli.Prelude.{
  Bool, true, false, inl, inr, All, ◌∙◌, ap, List, ℕ, ◌+◌, ◌*◌, ◌≤◌, not, ◌&&◌, ◌||◌, [], ◌∷◌, ◌++◌,
  filter, length, leb, ◌==◌, ◌≡◌, if◌then◌else◌, refl, arith,
}
use rag_chat_cli.Text.{Text, codes, is_empty, split, consed, starts_with}
use rag_chat_cli.Tui.Layout.Columns.{sum, widest_from, widest, shrink, fair_share}
use rag_chat_cli.Tui.Layout.Columns.Shares.{shrink_enough, sum-fair_share}
use rag_chat_cli.Tui.Layout.Columns.Levels.{fair_share_levels}
use rag_chat_cli.Tui.Layout.Lines.{
  keep, sgr_reset, sgr_tail, sgr_at, pieces_from, pieces, visible_width, truncate_to_width, rows,
  wrap_to_width,
}
use rag_chat_cli.Tui.Layout.Lines.Rows.{IsCut, truncate_to_width-IsCut}
use rag_chat_cli.Tui.Layout.Lines.Wraps.{IsWrapped, unbroken, wrap_to_width-IsWrapped}
use rag_chat_cli.Tui.Layout.Tables.{
  row_line, longest_visible_line, natural_width, column_widths, replace_from, normalise_inline,
}
use rag_chat_cli.Tui.Layout.Tables.Rows.{Drawn, nothing, shown, coloured, IsDigit, row_line_width}
use rag_chat_cli.Tui.Layout.Tables.Frames.{column_widths_fit}

-- A unit that is in no colour sequence.
abbrev is_shown : ℕ → Bool
is_shown c = not (c == 27 || c == b'[' || c == b';' || c == b'm' || (leb b'0' c && leb c b'9'))

abbrev strip : Text → Text
strip s = filter is_shown s

abbrev width_of : Text → ℕ
width_of s = length s

sum-fair_share_example : sum (fair_share (3 ∷ 20 ∷ 9 ∷ []) 20 4) ≡ 20
sum-fair_share_example = sum-fair_share (3 ∷ 20 ∷ 9 ∷ []) 20 4 (omega arith)

shrink_enough_example : shrink 33 20 4 33 (4 ∷ 20 ∷ 9 ∷ []) ≡ shrink 13 20 4 33 (4 ∷ 20 ∷ 9 ∷ [])
shrink_enough_example = shrink_enough 33 13 20 4 33 (4 ∷ 20 ∷ 9 ∷ []) (omega arith) (omega arith)

fair_share_levels_example : 8 ≤ 9
unfolding fair_share shrink widest widest_from
fair_share_levels_example =
    fair_share_levels (3 ∷ 20 ∷ 9 ∷ []) 20 4 1 2 20 8 8 refl refl refl (omega arith)

-- A text in red.
abbrev red : Text
red = 27 ∷ b'[' ∷ b'3' ∷ b'1' ∷ b'm' ∷ codes "ab"

truncate_to_width-IsCut_example :
    (t : Text) × (truncate_to_width width_of strip red 1 ≡ t ++ sgr_reset)
    × IsCut width_of strip 1 (pieces red) t
truncate_to_width-IsCut_example =
    truncate_to_width-IsCut width_of strip red 1 (omega arith) (unfold visible_width in refl)

wrap_to_width-IsWrapped_example :
    IsWrapped width_of 1 (unbroken (pieces red)) (wrap_to_width width_of strip red 1)
wrap_to_width-IsWrapped_example =
    wrap_to_width-IsWrapped width_of strip 1 (λ c. omega arith) red (omega arith)

-- A width that gives a surrogate pair two columns, and half of one none.
abbrev pair_width : Text → ℕ
pair_width [] = 0
pair_width (c ∷ []) = if leb 55296 c then 0 else 1
pair_width (c ∷ d ∷ t) =
    let later = pair_width t in
    let next = pair_width (d ∷ t) in if leb 55296 c then later + 2 else next + 1

-- With such a width, a line with two emoji that is cut to one column keeps five.
emoji_row :
    visible_width pair_width strip
      (truncate_to_width pair_width strip (55357 ∷ 56832 ∷ 55357 ∷ 56832 ∷ b'a' ∷ b'b' ∷ []) 1)
    ≡ 5
unfolding visible_width truncate_to_width pieces_from sgr_at sgr_tail keep
emoji_row = refl

-- The colour ends with the row.
red_rows :
    wrap_to_width width_of strip red 1
    ≡ (27 ∷ b'[' ∷ b'3' ∷ b'1' ∷ b'm' ∷ b'a' ∷ sgr_reset) ∷ (b'b' ∷ sgr_reset) ∷ []
unfolding wrap_to_width rows pieces_from sgr_at sgr_tail is_empty
red_rows = refl

-- A colour before the first unit of a row stands in the row before it.
late_red_rows :
    wrap_to_width width_of strip (b'a' ∷ 27 ∷ b'[' ∷ b'3' ∷ b'1' ∷ b'm' ∷ b'b' ∷ []) 1
    ≡ (b'a' ∷ 27 ∷ b'[' ∷ b'3' ∷ b'1' ∷ b'm' ∷ sgr_reset) ∷ (b'b' ∷ sgr_reset) ∷ []
unfolding wrap_to_width rows pieces_from sgr_at sgr_tail is_empty
late_red_rows = refl

-- Three narrow columns in a terminal of twenty columns make a table of twenty-two.
wide_table :
    sum (column_widths width_of strip 20 (codes "a" ∷ codes "b" ∷ codes "c" ∷ []) []) + 3 * 3 + 1
    ≡ 22
unfolding column_widths natural_width longest_visible_line visible_width split consed fair_share
    shrink widest widest_from
wide_table = refl

-- The parser's text of `&lt;` in a cell.
unescaped_twice : normalise_inline (codes "&amp;lt;") ≡ codes "<"
unfolding normalise_inline replace_from starts_with
unescaped_twice = refl

column_widths_fit_example :
    (sum (column_widths width_of strip 40 (codes "a" ∷ codes "b" ∷ []) []) + 3 * 2 + 1 ≤ 36)
    × (length (column_widths width_of strip 40 (codes "a" ∷ codes "b" ∷ []) []) ≡ 2)
column_widths_fit_example =
    column_widths_fit width_of strip 40 (codes "a" ∷ codes "b" ∷ []) [] (omega arith)

-- A text without its colour sequences, inside of one or not.
unstyled : (inside : Bool) → Text → Text
unstyled inside [] = []
unstyled true (c ∷ s) = if c == b'm' then unstyled false s else unstyled true s
unstyled false (c ∷ s) = if c == 27 then unstyled true s else c ∷ unstyled false s

unstyled-code :
    (code s : Text) → All IsDigit code → unstyled true (code ++ (b'm' ∷ s)) ≡ unstyled false s
unfolding unstyled
unstyled-code [] s h = refl
unstyled-code (c ∷ code) s ((p, q), h) = ground (arith, unstyled-code code s h, p, q)

unstyled-Drawn : {s : Text} {n : ℕ} → Drawn s n → length (unstyled false s) ≡ n
unfolding unstyled
unstyled-Drawn nothing = refl
unstyled-Drawn (shown c (inl (p, q)) d) = ground (arith, unstyled-Drawn d, p)
unstyled-Drawn (shown c (inr (p, q)) d) = ground (arith, unstyled-Drawn d, p)
unstyled-Drawn (coloured code {s = s} h l d) =
    ap (λ t. length t) (unstyled-code code s h) ∙ unstyled-Drawn d

unstyled-measured : (s : Text) (n : ℕ) → Drawn s n → visible_width width_of (unstyled false) s ≡ n
unfolding visible_width
unstyled-measured s n d = unstyled-Drawn d

-- The lines of two cells, one of them in green.
abbrev wrapped : List (List Text)
wrapped = (codes "ab" ∷ []) ∷ (codes "abc" ∷ (27 ∷ b'[' ∷ b'3' ∷ b'2' ∷ b'm' ∷ b'd' ∷ []) ∷ []) ∷ []

row_line_width_example :
    visible_width width_of
      (unstyled false)
      (row_line width_of (unstyled false) 2 (4 ∷ 5 ∷ []) [] false wrapped 1)
    ≡ 16
row_line_width_example =
    row_line_width width_of (unstyled false) unstyled-measured 4 (5 ∷ []) [] false wrapped 1 (
      (0, nothing, omega arith),
      (
        (
          1,
          coloured (b'3' ∷ b'2' ∷ []) ((omega arith, omega arith), ((omega arith, omega arith), tt))
              (omega arith) (shown b'd' (inl (omega arith, omega arith)) nothing),
          omega arith,
        ),
        tt,
      ),
    )
