-- ===== src/Tui/Layout/Lines.antt =====
-- Lines with colours: clients/tui/src/util/ansi-line.ts. The loops over an index read a text piece by
-- piece, a colour sequence or a code unit. Columns are natural numbers.
pub mod Rows
pub mod Wraps
use rag_chat_cli.Prelude.{
  ℕ, zero, suc, ◌+◌, ◌-◌, Bool, true, false, not, ◌&&◌, ◌||◌, List, [], ◌∷◌, ◌++◌, Option, none,
  some, length, ltb, leb, ◌==◌, if◌then◌else◌,
}
use rag_chat_cli.Text.{Text, is_empty}

-- `SGR_RESET`
abbrev pub sgr_reset : Text
sgr_reset = 27 ∷ b'[' ∷ b'0' ∷ b'm' ∷ []

pub data Piece : Type 0 where
  sgr : Text → Piece
  unit : ℕ → Piece

-- `[0-9;]*m` at the start of a text, the part that it matches.
unfoldable pub sgr_tail : Text → Option Text
sgr_tail [] = none
sgr_tail (c ∷ s) =
    let rest = elim (sgr_tail s) as (λ o. Option Text) [ none ↦ none | some t ↦ some (c ∷ t) ] in
    if c == b'm'
    then some (c ∷ [])
    else if (leb b'0' c && leb c b'9') || c == b';'
    then rest
    else none

-- A match of `SGR_RE` at the start of a text.
unfoldable pub sgr_at : Text → Option Text
unfolding sgr_tail
sgr_at [] = none
sgr_at (c ∷ []) = none
sgr_at (c ∷ d ∷ s) =
    let rest = elim (sgr_tail s) as (λ o. Option Text) [
      | none ↦ none
      | some t ↦ some (c ∷ d ∷ t)
    ] in
    if c == 27 && d == b'[' then rest else none

-- The pieces of a text behind the first `skip` units.
unfoldable pub pieces_from : (skip : ℕ) → Text → List Piece
unfolding sgr_at
pieces_from skip [] = []
pieces_from (suc skip) (c ∷ s) = pieces_from skip s
pieces_from zero (c ∷ s) = elim (sgr_at (c ∷ s)) [
  | none ↦ unit c ∷ pieces_from zero s
  | some t ↦ sgr t ∷ pieces_from (length t - 1) s
]

abbrev pub pieces : Text → List Piece
pieces s = pieces_from 0 s

-- `' '.repeat(n)`
abbrev pub repeat : ℕ → Text → Text
repeat zero s = []
repeat (suc n) s = s ++ repeat n s

module _ (string_width : Text → ℕ) (strip_ansi : Text → Text) where
  unfoldable pub visible_width : Text → ℕ
  visible_width line = string_width (strip_ansi line)

  -- The loop of `truncateToWidth`.
  unfoldable pub keep : (max used : ℕ) → List Piece → Text
  keep max used [] = []
  keep max used (sgr t ∷ ps) = t ++ keep max used ps
  keep max used (unit c ∷ ps) =
      let rest = keep max (used + string_width (c ∷ [])) ps in
      if ltb max (used + string_width (c ∷ [])) then [] else c ∷ rest

  unfoldable pub truncate_to_width : Text → (max : ℕ) → Text
  unfolding visible_width keep pieces_from
  truncate_to_width line max =
      if max == 0
      then []
      else if leb (visible_width line) max
      then line
      else keep max 0 (pieces line) ++ sgr_reset

  unfoldable pub fit_to_width : Text → (width : ℕ) → Text
  unfolding truncate_to_width
  fit_to_width line width =
      let truncated = truncate_to_width line width in
      let used = visible_width truncated in
      if width == 0
      then []
      else if leb width used
      then truncated
      else truncated ++ repeat (width - used) (b' ' ∷ [])

  -- The loop of `wrapToWidth`; `started` tells whether it has pushed a row.
  unfoldable pub rows :
      (width : ℕ) (buffer : Text) (used : ℕ) (started : Bool) → List Piece → List Text
  unfolding is_empty
  rows width buffer used started [] =
      if not (is_empty buffer) || not started then (buffer ++ sgr_reset) ∷ [] else []
  rows width buffer used started (sgr t ∷ ps) = rows width (buffer ++ t) used started ps
  rows width buffer used started (unit c ∷ ps) =
      let w = string_width (c ∷ []) in
      let broken = rows width [] 0 true ps in
      let fresh = rows width (c ∷ []) w true ps in
      let longer = rows width (buffer ++ (c ∷ [])) (used + w) started ps in
      if c == 10
      then (buffer ++ sgr_reset) ∷ broken
      else if ltb width (used + w)
      then (buffer ++ sgr_reset) ∷ fresh
      else longer

  unfoldable pub wrap_to_width : Text → (width : ℕ) → List Text
  unfolding rows pieces_from
  wrap_to_width value width = if width == 0 then [] ∷ [] else rows width [] 0 false (pieces value)
