-- ===== src/Filters/Loop/Fuel.antt =====
-- The fuel given to the loop falls with each round.
use uav_router.Base.{ℕ, suc, ◌+◌, ◌-◌, ◌≤◌, ◌<◌, ◌⊎◌, inl, inr, ◌≡◌, arith}
use uav_router.Filters.Loop.Defs.{cost}

cost_left : (d t' l l' : ℕ) → l' < l → cost t' l' < cost (t' + d) l
cost_left d t' l l' h = omega arith

cost_total : (d t' l l' : ℕ) → l' ≤ t' → cost t' l' < cost (suc (t' + d)) l
cost_total d t' l l' h = omega arith

-- A byte fewer in all, or none more in all and one fewer in the source.
abbrev pub Falls : ℕ → ℕ → ℕ → ℕ → Type 0
Falls t l t' l' = (t' < t) ⊎ ((t' ≤ t) × (l' < l))

pub cost-Falls : (t l t' l' : ℕ) → l' ≤ t' → Falls t l t' l' → cost t' l' < cost t l
cost-Falls t l t' l' b (inl h) =
    let e : suc (t' + (t - suc t')) ≡ t = omega arith in rw e at (cost_total (t - suc t') t' l l' b)
cost-Falls t l t' l' b (inr (h, k)) =
    let e : t' + (t - t') ≡ t = omega arith in rw e at (cost_left (t - t') t' l l' k)
