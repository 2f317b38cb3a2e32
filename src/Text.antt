-- ===== src/Text.antt =====
-- JavaScript strings: lists of UTF-16 code units, with the methods of `String.prototype` that the
-- sources call. Where a method takes several code units, the list of them is the argument.
pub mod Laws
pub mod Trims
pub mod Lines
pub mod Objects
pub mod Decimal
use Prim.Native.Char.{code}
use Prim.Native.String.{String}
use rag_chat_cli.Prelude.{
  ℕ, zero, suc, Bool, true, false, ◌&&◌, ◌||◌, List, [], ◌∷◌, ◌++◌, reverse, Option, none, some,
  ◌==◌, leb, if◌then◌else◌,
}

abbrev pub Text : Type 0
Text = List ℕ

-- The code units of a literal of the basic multilingual plane.
abbrev pub codes : String → Text
codes String.[] = []
codes (String.◌∷◌ c s) = code c ∷ codes s

-- `a === b`
unfoldable pub same : Text → Text → Bool
same [] [] = true
same (x ∷ xs) (y ∷ ys) = x == y && same xs ys
same _ _ = false

-- `s.startsWith(p)`, the text first
unfoldable pub starts_with : Text → Text → Bool
starts_with s [] = true
starts_with [] (y ∷ ys) = false
starts_with (x ∷ xs) (y ∷ ys) = x == y && starts_with xs ys

-- The code units that `trim` removes: white space and line ends of ECMAScript.
unfoldable pub is_space : ℕ → Bool
is_space c =
    (leb 9 c && leb c 13)
    || c == 32
    || c == 160
    || c == 5760
    || (leb 8192 c && leb c 8202)
    || c == 8232
    || c == 8233
    || c == 8239
    || c == 8287
    || c == 12288
    || c == 65279

unfoldable pub trim_start : Text → Text
unfolding is_space
trim_start [] = []
trim_start (c ∷ s) = if is_space c then trim_start s else c ∷ s

-- `s.trim()`
unfoldable pub trim : Text → Text
unfolding trim_start
trim s = reverse (trim_start (reverse (trim_start s)))

-- Truthiness of a string.
unfoldable pub is_empty : Text → Bool
is_empty [] = true
is_empty (c ∷ s) = false

unfoldable pub consed : ℕ → List Text → List Text
consed c [] = (c ∷ []) ∷ []
consed c (l ∷ ls) = (c ∷ l) ∷ ls

-- `s.split(sep)` at a separator of one code unit
unfoldable pub split : ℕ → Text → List Text
unfolding consed
split sep [] = [] ∷ []
split sep (c ∷ s) = let ls = split sep s in if c == sep then [] ∷ ls else consed c ls

-- `ls.join(sep)`
unfoldable pub join : Text → List Text → Text
join sep [] = []
join sep (l ∷ []) = l
join sep (l ∷ m ∷ ls) = l ++ (sep ++ join sep (m ∷ ls))

-- `s.indexOf(p)`, with `none` for -1
unfoldable pub index_of : Text → Text → Option ℕ
unfolding starts_with
index_of [] p = if starts_with [] p then some 0 else none
index_of (c ∷ s) p =
    if starts_with (c ∷ s) p
    then some 0
    else elim (index_of s p) [ none ↦ none | some i ↦ some (suc i) ]
