-- ===== src/Stats.antt =====
-- What the program says of itself: the counters and how they are reported (src/impl/statobj.h,
-- src/inc/metric.h, src/impl/influx.h).
pub mod Counters
pub mod Reports
pub mod Influx
pub mod Flushes
pub mod Sends
