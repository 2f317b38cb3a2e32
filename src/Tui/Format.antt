-- ===== src/Tui/Format.antt =====
-- The formatters of the terminal client, clients/tui/src/util/format.ts. `Date.parse` (`none` for NaN),
-- the local date and `toFixed(1)` are parameters; counts and times are natural numbers.
use rag_chat_cli.Prelude.{
  ℕ, suc, ◌+◌, ◌-◌, ◌/◌, ◌%◌, false, List, [], ◌∷◌, ◌++◌, Option, none, some, get_or, ltb, leb,
  ◌==◌, if◌then◌else◌, length, length-append, take, length-take, take-append, min, ap, sym, ◌∙◌,
  zero, ◌≡◌, refl, inl, inr, arith, Bool-cases,
}
use rag_chat_cli.Text.{Text, codes, is_empty}
use rag_chat_cli.Text.Decimal.{decimal}
use rag_chat_cli.Text.Objects.{lookup}

module _ (date_parse : Text → Option ℕ) (local_date : ℕ → Text) where
  -- `relativeTime` of a date that parses, `sec` seconds ago.
  since : (ts sec : ℕ) → Text
  since ts sec =
      if ltb sec 5
      then codes "now"
      else if ltb sec 60
      then decimal sec ++ codes "s ago"
      else if ltb (sec / 60) 60
      then decimal (sec / 60) ++ codes "m ago"
      else if ltb (sec / 60 / 60) 24
      then decimal (sec / 60 / 60) ++ codes "h ago"
      else if ltb (sec / 60 / 60 / 24) 7
      then decimal (sec / 60 / 60 / 24) ++ codes "d ago"
      else local_date ts

  unfoldable pub relative_time : Option Text → (now : ℕ) → Text
  unfolding since
  relative_time none now = []
  relative_time (some iso) now = elim (date_parse iso) [
    | none ↦ []
    | some ts ↦ if is_empty iso then [] else since ts ((now - ts) / 1000)
  ]

-- `formatDuration` of whole milliseconds.
unfoldable pub format_duration : (to_fixed : ℕ → Text) → Option ℕ → Text
format_duration to_fixed none = []
format_duration to_fixed (some ms) =
    if ltb ms 1000
    then decimal ms ++ codes "ms"
    else if ltb ms 60000
    then to_fixed ms ++ codes "s"
    else decimal (ms / 60000) ++ (codes "m" ++ (decimal ((ms % 60000 + 500) / 1000) ++ codes "s"))

total_tokens : List (Text × ℕ) → ℕ
total_tokens usage = get_or (lookup (codes "total_tokens") usage) (
    get_or (lookup (codes "prompt_tokens") usage) 0
    + get_or (lookup (codes "completion_tokens") usage) 0)

unfoldable pub format_tokens : Option (List (Text × ℕ)) → Text
unfolding total_tokens
format_tokens none = []
format_tokens (some usage) =
    let total = total_tokens usage in if total == 0 then [] else decimal total ++ codes " tok"

-- `truncate`; the ellipsis is one code unit.
unfoldable pub truncate : Text → ℕ → Text
truncate value max =
    if leb max 1
    then take max value
    else if leb (length value) max
    then value
    else take (max - 1) value ++ codes "…"

take-take : {A : Type 0} (n : ℕ) (xs : List A) → take n (take n xs) ≡ take n xs
take-take zero xs = refl
take-take (suc n) [] = refl
take-take (suc n) (x ∷ xs) = ap (λ ys. x ∷ ys) (take-take n xs)

take_none : {A : Type 0} (n : ℕ) (xs : List A) → n ≡ 0 → take n xs ≡ []
take_none n xs e = rw e refl

cut-length :
    (value : Text) (max : ℕ)
    → leb max 1 ≡ false
    → leb (length value) max ≡ false
    → length (take (max - 1) value ++ codes "…") ≡ min max (length value)
cut-length value max wide long =
    length-append (take (max - 1) value) (codes "…") ∙ rw length-take (ground arith)

cut-take :
    (value : Text) (max : ℕ)
    → leb max 1 ≡ false
    → leb (length value) max ≡ false
    → take (max - 1) (take (max - 1) value ++ codes "…") ≡ take (max - 1) value
cut-take value max wide long =
    take-append (max - 1) (take (max - 1) value) (codes "…") (rw length-take (ground arith))
    ∙ take-take (max - 1) value

-- A truncated text is as long as the text, or as asked for where that is less, and all but the last
-- place of what was asked for is the text's own.
pub length-truncate :
    (value : Text) (max : ℕ)
    → (length (truncate value max) ≡ min max (length value))
      × (take (max - 1) (truncate value max) ≡ take (max - 1) value)
unfolding truncate
length-truncate value max = elim (Bool-cases (leb max 1)) [
  | inl narrow ↦ rw narrow (
    length-take max value,
    take_none (max - 1) (take max value) (ground arith)
        ∙ sym (take_none (max - 1) value (ground arith)),
  )
  | inr wide ↦ elim (Bool-cases (leb (length value) max)) [
    | inl short ↦ rw (wide, short) (ground arith, refl)
    | inr long ↦ rw (wide, long) (cut-length value max wide long, cut-take value max wide long)
  ]
]
