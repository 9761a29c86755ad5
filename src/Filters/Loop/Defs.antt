-- ===== src/Filters/Loop/Defs.antt =====
-- `while(len) { switch (state) { … } }` of Mavlink_v1::write, UBX::write and RTCM_v3::write. One
-- round of the switch is a function of the filter and of `ptr` and `len`.
use uav_router.Base.{ℕ, zero, suc, ◌+◌, ◌*◌, Option, none, some, ◌==◌, if◌then◌else◌}
use uav_router.Filters.Source.{Source, len}

-- How a round ends: the loop goes on with the source that is left, or the filter first calls its
-- own `write` on another source (bytes of its own array).
pub data Round (M : Type 0) : Type 0 where
  again : M → Source → Round M
  rewrite : M → Source → Source → Round M

unfoldable pub resume : {M : Type 0} → (M → Source → Option M) → Round M → Option M
resume run (again m src) = run m src
resume run (rewrite m inner src) = elim (run m inner) [ none ↦ none | some m' ↦ run m' src ]

-- `none`: the fuel ran out.
unfoldable pub loop : {M : Type 0} → (M → Source → Round M) → ℕ → M → Source → Option M
unfolding resume
loop step zero m src = none
loop step (suc fuel) m src = if len src == 0 then some m else resume (loop step fuel) (step m src)

-- Falls with each round: `total` bytes are in the filter and the source together, and `left` of
-- these are still in the source. A round takes a byte from the source, or is done with one.
abbrev pub cost : ℕ → ℕ → ℕ
cost total left = total * total + total + left

-- Fuel for `waiting` bytes in the filter and `left` bytes in the source.
abbrev pub rounds : ℕ → ℕ → ℕ
rounds waiting left = suc (cost (waiting + left) left)
