-- ===== src/Tui/Layout/Columns/Shares.antt =====
-- Where `fairShare` stops, and with which widths.
use rag_chat_cli.Prelude.{
  ℕ, zero, suc, ◌+◌, ◌-◌, ◌*◌, ◌≤◌, ◌<◌, min, max, List, [], ◌∷◌, map, some, get_elem?, length, ltb,
  leb, ltb→lt, leb→le, All, ◌≡◌, refl, ap, ◌∙◌, arith, if_rec, Bool-cases, Option-cases, inl, inr,
}
use rag_chat_cli.Tui.Layout.Columns.{sum, widest_from, widest, set_at, shrink, fair_share}

abbrev IsWidest : List ℕ → ℕ → List ℕ → ℕ → Type 0
IsWidest ws i rest best = (c : ℕ) × (get_elem? ws i ≡ some c) × (best ≤ c) × All (λ w. w ≤ c) rest

widest_from-IsWidest :
    (all : List ℕ) (acc best i : ℕ) (ws : List ℕ)
    → get_elem? all acc ≡ some best
    → ((j : ℕ) → get_elem? all (i + j) ≡ get_elem? ws j)
    → IsWidest all (widest_from acc best i ws) ws best
unfolding widest_from
widest_from-IsWidest all acc best i [] h k = (best, h, omega arith, tt)
widest_from-IsWidest all acc best i (w ∷ ws) h k = elim (Bool-cases (ltb best w)) [
  | inl e ↦
      let (c, at, le, rest) =
        widest_from-IsWidest all i w (suc i) ws (ap (get_elem? all) (omega arith) ∙ k 0)
          (λ j. ap (get_elem? all) (omega arith) ∙ k (suc j)) in
      rw e (c, at, omega (arith, le, ltb→lt best w e), (le, rest))
  | inr e ↦
      let (c, at, le, rest) =
        widest_from-IsWidest all acc best (suc i) ws h
          (λ j. ap (get_elem? all) (omega arith) ∙ k (suc j)) in
      rw e (c, at, le, (ground (arith, e, le), rest))
]

widest-IsWidest : (w : ℕ) (ws : List ℕ) → IsWidest (w ∷ ws) (widest (w ∷ ws)) (w ∷ ws) w
unfolding widest
widest-IsWidest w ws =
    widest_from-IsWidest (w ∷ ws) 0 w 0 (w ∷ ws) refl (λ j. ap (get_elem? (w ∷ ws)) (omega arith))

sum-set_at :
    (i c : ℕ) (ws : List ℕ)
    → get_elem? ws i ≡ some c
    → 0 < c
    → suc (sum (set_at i (c - 1) ws)) ≡ sum ws
sum-set_at i c [] h p = ground (arith, h)
sum-set_at zero c (w ∷ ws) h p = ground (arith, h)
sum-set_at (suc i) c (w ∷ ws) h p = omega (arith, sum-set_at i c ws h p)

length-set_at : (i v : ℕ) (ws : List ℕ) → length (set_at i v ws) ≡ length ws
length-set_at i v [] = refl
length-set_at zero v (w ∷ ws) = refl
length-set_at (suc i) v (w ∷ ws) = ap suc (length-set_at i v ws)

sum_le : (m : ℕ) (ws : List ℕ) → All (λ w. w ≤ m) ws → sum ws ≤ length ws * m
sum_le m [] h = omega arith
sum_le m (w ∷ ws) (le, h) = omega (arith, sum_le m ws h)

pub length-map : (f : ℕ → ℕ) (ws : List ℕ) → length (map f ws) ≡ length ws
length-map f [] = refl
length-map f (w ∷ ws) = ap suc (length-map f ws)

All-le : (c m : ℕ) (ws : List ℕ) → c ≤ m → All (λ w. w ≤ c) ws → All (λ w. w ≤ m) ws
All-le c m [] le h = tt
All-le c m (w ∷ ws) le (p, h) = (omega arith, All-le c m ws le h)

sum-shrink :
    (fuel budget least total : ℕ) (ws : List ℕ)
    → total ≡ sum ws
    → total ≤ fuel + budget
    → length ws * least ≤ budget
    → sum (shrink fuel budget least total ws) ≡ min total budget
unfolding shrink
sum-shrink zero budget least total ws t f b = omega (arith, t, f)
sum-shrink (suc fuel) budget least total [] t f b =
    if_rec (λ r. sum r ≡ min total budget) (ltb budget total) (λ e. omega (arith, t))
      (λ e. omega (arith, t))
sum-shrink (suc fuel) budget least total (w ∷ ws) t f b =
    let (c, at, le, tops) = widest-IsWidest w ws in
    let i = widest (w ∷ ws) in
    let sum-trimmed : (c : ℕ)
        → get_elem? (w ∷ ws) i ≡ some c
        → 0 < c
        → budget < total
        → sum (shrink fuel budget least (total - 1) (set_at i (c - 1) (w ∷ ws)))
          ≡ min total budget =
      λ c at p q.
        (sum-shrink fuel budget least (total - 1) (set_at i (c - 1) (w ∷ ws))
            (omega (arith, t, sum-set_at i c (w ∷ ws) at p)) (omega (arith, f, q))
            (rw (length-set_at i (c - 1) (w ∷ ws)) b)
          ∙ omega (arith, q)) in
    if_rec (λ r. sum r ≡ min total budget) (ltb budget total)
      (λ e. rw at (
        if_rec (λ r. sum r ≡ min total budget) (leb c least)
          (λ low. absurd (
            omega (
              arith,
              ltb→lt budget total e,
              t,
              b,
              sum_le least (w ∷ ws) (All-le c least (w ∷ ws) (leb→le c least low) tops),
            )))
          (λ high. sum-trimmed c at (ground (arith, high)) (ltb→lt budget total e))))
      (λ e. ground (arith, e, t))

-- Where every column can have the least width within the budget, the widths add up to the budget, or
-- to the sum of the natural widths, none below the least width, if that is less.
pub sum-fair_share :
    (natural : List ℕ) (budget least : ℕ)
    → length natural * least ≤ budget
    → sum (fair_share natural budget least) ≡ min (sum (map (max least) natural)) budget
unfolding fair_share
sum-fair_share natural budget least h =
    if_rec (λ r. sum r ≡ min (sum (map (max least) natural)) budget)
      (leb (sum (map (max least) natural)) budget) (λ e. ground (arith, e))
      (λ e.
        sum-shrink _ budget least _ (map (max least) natural) refl (omega arith)
          (rw (length-map (max least) natural) h))

-- The loop ends by its own test: any two bounds on its runs that reach from the total to the budget
-- give the same widths.
pub shrink_enough :
    (fuel other budget least total : ℕ) (ws : List ℕ)
    → total ≤ fuel + budget
    → total ≤ other + budget
    → shrink fuel budget least total ws ≡ shrink other budget least total ws
unfolding shrink
shrink_enough zero zero budget least total ws h k = refl
shrink_enough zero (suc other) budget least total ws h k =
    if_rec (λ r. ws ≡ r) (ltb budget total) (λ e. absurd (ground (arith, e, h))) (λ e. refl)
shrink_enough (suc fuel) zero budget least total ws h k =
    if_rec (λ r. r ≡ ws) (ltb budget total) (λ e. absurd (ground (arith, e, k))) (λ e. refl)
shrink_enough (suc fuel) (suc other) budget least total ws h k =
    elim (Option-cases (get_elem? ws (widest ws))) [
      | inl e ↦ rw e refl
      | inr (c, e) ↦
          rw
            (
              e,
              shrink_enough fuel other budget least (total - 1) (set_at (widest ws) (c - 1) ws)
                  (omega arith) (omega arith),
            )
            refl
    ]

-- What holds of the widths and stays when a widest one, wider than the least, is narrowed by one holds
-- of the outcome.
shrink_keeps :
    (P : List ℕ → Type 0) (budget least : ℕ)
    → ((ws : List ℕ) (i c : ℕ)
        → get_elem? ws i ≡ some c
        → All (λ w. w ≤ c) ws
        → least < c
        → P ws
        → P (set_at i (c - 1) ws))
    → (fuel total : ℕ) (ws : List ℕ) → P ws
    → P (shrink fuel budget least total ws)
unfolding shrink
shrink_keeps P budget least step zero total ws h = h
shrink_keeps P budget least step (suc fuel) total [] h =
    if_rec P (ltb budget total) (λ e. h) (λ e. h)
shrink_keeps P budget least step (suc fuel) total (w ∷ ws) h =
    let (c, at, _, tops) = widest-IsWidest w ws in
    if_rec P (ltb budget total)
      (λ e. rw at (
        if_rec P (leb c least) (λ low. h)
          (λ high.
            shrink_keeps P budget least step fuel (total - 1) _
              (step (w ∷ ws) (widest (w ∷ ws)) c at tops (ground (arith, high)) h))))
      (λ e. h)

pub fair_share_keeps :
    (P : List ℕ → Type 0) (natural : List ℕ) (budget least : ℕ)
    → ((ws : List ℕ) (i c : ℕ)
        → get_elem? ws i ≡ some c
        → All (λ w. w ≤ c) ws
        → least < c
        → P ws
        → P (set_at i (c - 1) ws))
    → P (map (max least) natural)
    → P (fair_share natural budget least)
unfolding fair_share
fair_share_keeps P natural budget least step h =
    if_rec P (leb (sum (map (max least) natural)) budget) (λ e. h)
      (λ e. shrink_keeps P budget least step _ _ (map (max least) natural) h)

-- There are as many widths as columns.
pub length-fair_share :
    (natural : List ℕ) (budget least : ℕ)
    → length (fair_share natural budget least) ≡ length natural
length-fair_share natural budget least =
    fair_share_keeps (λ ws. length ws ≡ length natural) natural budget least
      (λ ws i c at tops wide h. length-set_at i (c - 1) ws ∙ h) (length-map (max least) natural)
