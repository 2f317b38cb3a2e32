-- ===== src/Text/Decimal.antt =====
-- Numbers in template literals.
use rag_chat_cli.Prelude.{ℕ, zero, suc, ◌+◌, ◌/◌, ◌%◌, [], ◌∷◌, ◌++◌, ltb, if◌then◌else◌, ◌≡◌, refl}
use rag_chat_cli.Text.{Text, codes}

-- The digits of `n`, on fuel; a number has no more digits than its value plus one.
digits_from : ℕ → ℕ → Text
digits_from zero n = []
digits_from (suc fuel) n =
    let front = digits_from fuel (n / 10) in
    let last = (b'0' + n % 10) ∷ [] in if ltb n 10 then last else front ++ last

-- `${n}`
unfoldable pub decimal : ℕ → Text
unfolding digits_from
decimal n = digits_from (suc n) n

decimal_example : decimal 1842 ≡ codes "1842"
unfolding decimal
decimal_example = refl
