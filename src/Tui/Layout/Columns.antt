-- ===== src/Tui/Layout/Columns.antt =====
-- The widths of a table's columns, `fairShare` of clients/tui/src/markdown/render.ts.
pub mod Shares
pub mod Levels
use rag_chat_cli.Prelude.{
  ℕ, zero, suc, ◌+◌, ◌-◌, ◌*◌, max, Bool, true, false, List, [], ◌∷◌, map, Option, none, some,
  get_elem?, get_or, length, ltb, leb, if◌then◌else◌,
}

-- `widths.reduce((acc, w) => acc + w, 0)`
abbrev pub sum : List ℕ → ℕ
sum [] = 0
sum (w ∷ ws) = w + sum ws

-- `widths.reduce((acc, w, i) => (w > widths[acc] ? i : acc), 0)`, from the index `i` on, where `best` is
-- `widths[acc]`.
unfoldable pub widest_from : (acc best i : ℕ) → List ℕ → ℕ
widest_from acc best i [] = acc
widest_from acc best i (w ∷ ws) =
    let later = widest_from i w (suc i) ws in
    let same = widest_from acc best (suc i) ws in if ltb best w then later else same

-- The first comparison is that of a width with itself.
unfoldable pub widest : List ℕ → ℕ
unfolding widest_from
widest [] = 0
widest (w ∷ ws) = widest_from 0 w 0 (w ∷ ws)

-- `widths[i] = v`
abbrev pub set_at : ℕ → ℕ → List ℕ → List ℕ
set_at i v [] = []
set_at zero v (w ∷ ws) = v ∷ ws
set_at (suc i) v (w ∷ ws) = w ∷ set_at i v ws

-- The loop of `fairShare`, at most `fuel` times.
unfoldable pub shrink : (fuel budget min total : ℕ) → List ℕ → List ℕ
unfolding widest
shrink zero budget min total ws = ws
shrink (suc fuel) budget min total ws =
    let trimmed = elim (get_elem? ws (widest ws)) as (λ x. List ℕ) [
      | none ↦ ws
      | some current ↦
          let rest = shrink fuel budget min (total - 1) (set_at (widest ws) (current - 1) ws) in
          if leb current min then ws else rest
    ] in
    if ltb budget total then trimmed else ws

unfoldable pub fair_share : List ℕ → (budget min : ℕ) → List ℕ
unfolding shrink
fair_share natural budget min =
    let widths = map (max min) natural in
    let total = sum widths in
    let rest = shrink total budget min total widths in if leb total budget then widths else rest
