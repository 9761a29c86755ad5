-- ===== src/Filters/Mavlink/Traffic.antt =====
-- Mavlink_v1 with the counters of its base class.
use uav_router.Base.{
  ◌+◌, ◌%◌, ◌^◌, ◌≡◌, ap, ◌∙◌, Option, some, List, [], ◌++◌, arith, Bytes, length, length-append,
}
use uav_router.Filters.Scan.{bytes_of, concat}
use uav_router.Filters.Calls.{events_of}
use uav_router.Filters.Stream.{AreBuffers, write_all}
use uav_router.Filters.Sinks.{FilterBase, perform_all}
use uav_router.Filters.Counted.{counters_say, length-bytes_of}
use uav_router.Filters.Mavlink.Defs.{Mavlink, write, pending}
use uav_router.Filters.Mavlink.Shape.{IsValid}
use uav_router.Filters.Mavlink.Writes.{mavlink_bytes}
use uav_router.Stats.Counters.{sum_of}

module _ (extra : Option Bytes) (bufs : List Bytes) (m : Mavlink) (v : IsValid extra m)
    (h : AreBuffers bufs) (m' : Mavlink) (run : write_all write m bufs ≡ some m') where
  -- Between them the counters "next" and "rest" account for every byte: for a recognizer that has
  -- made no calls yet, they grow modulo 2^32 by the bytes that waited and those of the buffers, less
  -- the bytes that wait afterwards.
  pub mavlink_traffic :
      (b : FilterBase)
      → m.calls ≡ []
      → (sum_of "next" (perform_all m'.calls b).counters
            + sum_of "rest" (perform_all m'.calls b).counters
            + length (pending m'))
          % 2 ^ 32
        ≡ (sum_of "next" b.counters
            + sum_of "rest" b.counters
            + (length (pending m) + length (concat bufs)))
          % 2 ^ 32
  mavlink_traffic b none_yet =
      let c = counters_say m'.calls b in
      let total = ap length (
        mavlink_bytes extra bufs m v h m' run
        ∙ ap (λ cs. bytes_of (events_of cs) ++ (pending m ++ concat bufs)) none_yet) in
      omega (
        arith,
        c.next_bytes,
        c.rest_bytes,
        total,
        length-append (bytes_of (events_of m'.calls)) (pending m'),
        length-append (pending m) (concat bufs),
        length-bytes_of (events_of m'.calls),
      )
