-- ===== src/Stats/Sends/Tests.antt =====
-- A stream with a small pack, and a sink that takes one byte of the first offer.
use uav_router.Base.{ℕ, length, Option, ◌≡◌, refl, some, List, [], ◌∷◌, ◌++◌, Bytes}
use uav_router.Stats.Influx.{InfluxStream, offer, send}
use uav_router.Stats.Sends.{joined, total, AllEmpty, send-total}

abbrev second_time : List (Bytes × Option ℕ) → Bytes → Option ℕ
second_time [] b = some 1
second_time (o ∷ os) b = some (length b)

abbrev small : InfluxStream
small = record {
  pack_size = 2;
  queue_max_size = 10;
  queue_shrink_size = 9;
  pack = [];
  queue = [];
  offers = [];
}

abbrev full : InfluxStream
full = record small {
  pack = 65 ∷ 66 ∷ 10 ∷ 67 ∷ [];
  queue = [] ∷ [];
  offers = (65 ∷ 66 ∷ 10 ∷ [], some 1) ∷ [];
}

send-twice : send second_time (67 ∷ []) (send second_time (65 ∷ 66 ∷ []) small) ≡ full
unfolding send offer
send-twice = refl

send-total_example :
    AllEmpty (send second_time (68 ∷ []) full).queue
    × (joined (total (send second_time (68 ∷ []) full)) ≡ joined (total full) ++ joined (68 ∷ []))
send-total_example = send-total second_time (68 ∷ []) full (refl, tt)
