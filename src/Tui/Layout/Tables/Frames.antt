-- ===== src/Tui/Layout/Tables/Frames.antt =====
-- How wide the columns of a table are with its frame.
use rag_chat_cli.Prelude.{
  ℕ, zero, suc, ◌+◌, ◌-◌, ◌*◌, ◌≤◌, max, List, map, length, ◌≡◌, refl, ap, ◌∙◌, arith,
}
use rag_chat_cli.Text.{Text}
use rag_chat_cli.Tui.Layout.Columns.{sum}
use rag_chat_cli.Tui.Layout.Columns.Shares.{sum-fair_share, length-map, length-fair_share}
use rag_chat_cli.Tui.Layout.Tables.{indices, natural_width, column_widths}

length-indices : (from count : ℕ) → length (indices from count) ≡ count
length-indices from zero = refl
length-indices from (suc count) = ap suc (length-indices (suc from) count)

module _ (string_width : Text → ℕ) (strip_ansi : Text → Text) where
  -- Where the frame and the least widths leave room for it, a table with the widths that its columns
  -- get is no wider than the terminal less four columns, or than twenty.
  pub column_widths_fit :
      (width : ℕ) (header : List Text) (body : List (List Text))
      → 7 * length header + 1 ≤ max 20 (width - 4)
      → (sum (column_widths string_width strip_ansi width header body) + 3 * length header + 1
          ≤ max 20 (width - 4))
        × (length (column_widths string_width strip_ansi width header body) ≡ length header)
  unfolding column_widths
  column_widths_fit width header body h =
      let natural =
        map (natural_width string_width strip_ansi header body) (indices 0 (length header)) in
      let budget =
        max (length header * 4) (max 20 (width - 4) - (length header + 1 + length header * 2)) in
      let size : length natural ≡ length header =
        length-map _ _ ∙ length-indices 0 (length header) in
      (
        omega (arith, sum-fair_share natural budget 4 (omega (arith, size))),
        length-fair_share natural budget 4 ∙ size,
      )
