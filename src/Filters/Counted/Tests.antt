-- ===== src/Filters/Counted/Tests.antt =====
-- A run of the calls of a filter that hands on a packet and a stray byte.
use uav_router.Base.{none, some, List, [], ◌∷◌}
use uav_router.Filters.Calls.{Call, badcrc, write_next, write_rest, count}
use uav_router.Filters.Sinks.{FilterBase, perform_all}
use uav_router.Filters.Counted.{Counted, counters_say}
use uav_router.Stats.Counters.{sum_of}

abbrev calls : List Call
calls = write_rest (7 ∷ []) ∷ count badcrc 1 ∷ write_next (254 ∷ 0 ∷ []) ∷ []

abbrev base : FilterBase
base = record {
  counters = record { name = "mavlink_v1"; tags = []; values = [] };
  next = some [];
  rest = none;
}

counters_say_example :
    Counted
      (sum_of "next" base.counters)
      (sum_of "pack" base.counters)
      (sum_of "rest" base.counters)
      calls
      (perform_all calls base)
counters_say_example = counters_say calls base
