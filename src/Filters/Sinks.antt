-- ===== src/Filters/Sinks.antt =====
-- What the base classes of a filter do with its calls: FilterBase in src/filters/filterbase.h counts
-- and hands on, Filter and Pipe in src/inc/endpoints.h pass a buffer to what is attached, if
-- anything is.
use Prim.Native.String.{String}
use uav_router.Base.{Option, List, [], ◌∷◌, ◌++◌, Bytes, length}
use mathlib.Core.Option
use uav_router.Filters.Calls.{
  Call, Reason, badcrc, sysfilter, msgfilter, freqfilter, write_next, write_rest, count,
}
use uav_router.Stats.Counters.{StatCounters, add}

-- `next` and `rest` are what is attached, with the buffers that it was given; `none` is a null pointer.
pub record FilterBase : Type 0 where
  pub counters : StatCounters
  pub next : Option (List Bytes)
  pub rest : Option (List Bytes)

abbrev pub name_of : Reason → String
name_of badcrc = "badcrc"
name_of sysfilter = "sysfilter"
name_of msgfilter = "msgfilter"
name_of freqfilter = "freqfilter"

-- `if (!_next) return 0; return _next->write(buf,len);`
abbrev pub give : Bytes → Option (List Bytes) → Option (List Bytes)
give buf = Option.map (λ got. got ++ buf ∷ [])

unfoldable pub perform : Call → FilterBase → FilterBase
perform (write_next buf) b = record b {
  counters = add "pack" 1 (add "next" (length buf) b.counters);
  next = give buf b.next;
}
perform (write_rest buf) b = record b {
  counters = add "rest" (length buf) b.counters;
  rest = give buf b.rest;
}
perform (count reason n) b = record b { counters = add (name_of reason) n b.counters }

abbrev pub perform_all : List Call → FilterBase → FilterBase
perform_all [] b = b
perform_all (c ∷ cs) b = perform_all cs (perform c b)
