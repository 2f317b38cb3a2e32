-- ===== src/Tui/Layout/Columns/Levels.antt =====
-- Which columns `fairShare` narrows.
use rag_chat_cli.Prelude.{
  ℕ, zero, suc, ◌-◌, ◌≤◌, ◌<◌, max, List, [], ◌∷◌, map, some, get_elem?, All, ◌≡◌, ◌⊎◌, refl, ap,
  subst, arith, inl, inr,
}
use rag_chat_cli.Tui.Layout.Columns.{set_at, fair_share}
use rag_chat_cli.Tui.Layout.Columns.Shares.{fair_share_keeps}

get_elem?-set_at :
    (i v j b : ℕ) (ws : List ℕ)
    → get_elem? (set_at i v ws) j ≡ some b
    → ((b ≡ v) × (i ≡ j)) ⊎ (get_elem? ws j ≡ some b)
get_elem?-set_at i v j b [] h = inr h
get_elem?-set_at zero v zero b (w ∷ ws) h = inl (ground (arith, h), refl)
get_elem?-set_at zero v (suc j) b (w ∷ ws) h = inr h
get_elem?-set_at (suc i) v zero b (w ∷ ws) h = inr h
get_elem?-set_at (suc i) v (suc j) b (w ∷ ws) h = elim (get_elem?-set_at i v j b ws h) [
  | inl (e, f) ↦ inl (e, ap suc f)
  | inr e ↦ inr e
]

get_elem?-All : (P : ℕ → Type 0) (i b : ℕ) (ws : List ℕ) → All P ws → get_elem? ws i ≡ some b → P b
get_elem?-All P i b [] h e = absurd (ground (arith, e))
get_elem?-All P zero b (w ∷ ws) (p, h) e = subst P (ground (arith, e)) p
get_elem?-All P (suc i) b (w ∷ ws) (p, h) e = get_elem?-All P i b ws h e

-- A column that was narrowed is at most one narrower than any other.
IsLevel : List ℕ → List ℕ → Type 0
IsLevel original ws =
    (i j o a b : ℕ)
    → get_elem? original i ≡ some o
    → get_elem? ws i ≡ some a
    → get_elem? ws j ≡ some b
    → a < o
    → b ≤ suc a

set_at-IsLevel :
    (original ws : List ℕ) (at c : ℕ)
    → get_elem? ws at ≡ some c
    → All (λ w. w ≤ c) ws
    → 0 < c
    → IsLevel original ws
    → IsLevel original (set_at at (c - 1) ws)
unfolding IsLevel
set_at-IsLevel original ws at c e tops p h i j o a b eo ea eb lt =
    elim (get_elem?-set_at at (c - 1) i a ws ea) [
      | inl (ea', _) ↦ elim (get_elem?-set_at at (c - 1) j b ws eb) [
        | inl (eb', _) ↦ omega (arith, ea', eb')
        | inr eb' ↦ omega (arith, ea', get_elem?-All (λ w. w ≤ c) j b ws tops eb')
      ]
      | inr ea' ↦ elim (get_elem?-set_at at (c - 1) j b ws eb) [
        | inl (eb', _) ↦ omega (arith, eb', h i at o a c eo ea' e lt)
        | inr eb' ↦ h i j o a b eo ea' eb' lt
      ]
    ]

refl-IsLevel : (ws : List ℕ) → IsLevel ws ws
unfolding IsLevel
refl-IsLevel ws i j o a b eo ea eb lt = absurd (ground (arith, eo, ea, lt))

-- A column that is narrower than its natural width, or than the least one, is at most one narrower
-- than any other.
pub fair_share_levels :
    (natural : List ℕ) (budget least i j o a b : ℕ)
    → get_elem? (map (max least) natural) i ≡ some o
    → get_elem? (fair_share natural budget least) i ≡ some a
    → get_elem? (fair_share natural budget least) j ≡ some b
    → a < o
    → b ≤ suc a
unfolding IsLevel
fair_share_levels natural budget least =
    fair_share_keeps (IsLevel (map (max least) natural)) natural budget least
      (λ ws i c at tops wide h. set_at-IsLevel _ ws i c at tops (omega arith) h) (refl-IsLevel _)

set_at-All :
    (least i v : ℕ) (ws : List ℕ)
    → least ≤ v
    → All (λ w. least ≤ w) ws
    → All (λ w. least ≤ w) (set_at i v ws)
set_at-All least i v [] le h = tt
set_at-All least zero v (w ∷ ws) le (p, h) = (le, h)
set_at-All least (suc i) v (w ∷ ws) le (p, h) = (p, set_at-All least i v ws le h)

map-All : (least : ℕ) (natural : List ℕ) → All (λ w. least ≤ w) (map (max least) natural)
map-All least [] = tt
map-All least (n ∷ ns) = (omega arith, map-All least ns)

-- No column is narrower than the least width.
pub fair_share-All :
    (natural : List ℕ) (budget least : ℕ) → All (λ w. least ≤ w) (fair_share natural budget least)
fair_share-All natural budget least =
    fair_share_keeps (All (λ w. least ≤ w)) natural budget least
      (λ ws i c at tops wide h. set_at-All least i (c - 1) ws (omega arith) h)
      (map-All least natural)
