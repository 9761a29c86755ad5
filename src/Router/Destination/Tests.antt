-- ===== src/Router/Destination/Tests.antt =====
-- Two endpoints, one of which is gone.
use uav_router.Base.{ℕ, ◌≡◌, Bool, [], ◌∷◌, Bytes, ℤ, pos, ◌==◌, not}
use uav_router.Router.Destination.{Destination, write, living, write-living}

abbrev alive : ℕ → Bool
alive o = not (o == 8)

abbrev answer : ℕ → Bytes → ℤ
answer o buf = pos 0

abbrev two : Destination
two = record { endpoints = (100, 7) ∷ (200, 8) ∷ [] }

write-living_example :
    ((write alive answer (1 ∷ []) two).written ≡ 7 ∷ [])
    × ((write alive answer (1 ∷ []) two).after.endpoints ≡ (100, 7) ∷ [])
unfolding living
write-living_example = write-living alive answer (1 ∷ []) two
