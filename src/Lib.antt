-- ===== src/Lib.antt =====
-- A model of UAV-Router, a router for the byte streams of uncrewed vehicles, and what is proved of it.
--
-- The program (app/uav-router.cpp) opens endpoints (serial lines, TCP and UDP sockets, files), and
-- sends what each of them reads along routes to others. On the way a stream may pass filters
-- (src/filters.cpp creates them by name). A filter has a `write` that is called with one buffer after
-- the other; it hands bytes on by `write_next` and `write_rest` of its base class
-- (src/filters/filterbase.h), which counts them and calls what is attached there.
--
-- Files and what they model:
-- - Filters/Source: the buffers that a filter's `write` reads. Its own array is one of them: where a
--   packet turns out to be bad, the filter calls its own `write` on bytes of its array while it writes
--   into that array. memchr and memmove are functions on byte lists.
-- - Filters/Calls: the calls that a filter makes to its base class.
-- - Filters/Scan: the specification of a recognizer, a scanner that cuts the whole stream into packets
--   of a format and skipped bytes, with no state machine, and what follows for every format.
-- - Filters/Loop, Filters/Store, Filters/Preamble: the loop `while(len) { switch (state) … }` of the
--   recognizers over the round of one of them, the kinds of rounds that they share, and the proof that
--   the loop implements the scanner if its rounds do.
-- - Filters/Stream: sequences of calls of `write`, for a recognizer that implements the scanner.
-- - Filters/Crc: the checksums of the three formats.
-- - Filters/Mavlink: class Mavlink_v1 of src/filters/mavlink1.h. Filters/Ubx: class UBX of
--   src/filters/ubx.h. Filters/Rtcm: class RTCM_v3 of src/filters/rtcm3.h. In each, Defs is the class
--   (a function for each case of the switch), Packets its format, Shape its invariant, Start and Load
--   the rounds, Laws the refinement, Writes the results, Tests runs of it.
-- - Filters/MavlinkFilter: class Mavlink_v1_filter of src/filters/mavlink1.h. Defs is the class, Setup
--   its configuration, Config what every configuration does, Laws and Rate which packets pass. What
--   `msg.find(msgid)!=sys.end()` is, for two sets, is a parameter.
-- - Filters/Sinks, Filters/Counted: FilterBase of src/filters/filterbase.h and the write_next and
--   write_rest of src/inc/endpoints.h, on the calls of a filter, and what they count and hand on.
--   Filters/Mavlink/Traffic puts this and Mavlink_v1 together.
-- - Stats/Counters, Stats/Reports: class StatCounters of src/impl/statobj.h with the tags and fields
--   of class Metric in src/inc/metric.h.
-- - Stats/Influx, Stats/Flushes, Stats/Sends: class InfluxStream of src/impl/influx.h, over a sink that
--   answers with how much of a buffer it took, or with -1. What Metric::to_stream makes of a metric is
--   an argument.
-- - Base: Booleans, lists, integers, orders, and the maps and sets of the standard library.
-- - Yaml: a node of the configuration, as the parser hands it over.
-- - Router: app/uav-router.cpp. Destination is class Destination; what an object's `write` returns, and
--   which objects still exist, are parameters there. Store is EndpointStore over all destinations and
--   filters by address; which patterns std::regex takes and what they match are parameters. Routes is
--   construct_route, Loading is scan_dst, load_routes, equal_name and construct_routes, Endpoints is
--   setup_endpoint with its callbacks, load_endpoints and cleanup. Frame and Isolated say what a new
--   route leaves alone, Delivers what it reaches, Scanned and Registered which destinations there are,
--   Clients what a client is attached to. Filters/Factory is Filters::create of src/filters.cpp.
-- - Addresses/Order: the order of SockAddr in src/sockaddr.cpp.
-- - Endpoints: the descriptors of the event loop. Os is what the system calls and the callbacks
--   answer, a function of the history of events; Handle is `_fd`, `_exists` and the history, and a
--   monad in which the methods are written; Triples is what a method does to a predicate, Descriptors
--   which descriptors are open after a history, Closing how one is closed. Dispatch is what run of
--   src/loop.cpp does with the events of one object, Dispatched what it keeps.
-- - Endpoints/Tcp/Stream: class TCPServerStream of src/impl/tcpsvr.h, Steps what can happen to one.
--   Plain and Basics are its methods for any predicate that their parts keep; Sound, Releases, Calm,
--   Closes, Once, Drains and Silent are about its descriptor, its end, its reading and its writing.
-- - Endpoints/Tcp/Server: class TcpServerImpl of the same file. Sound is about its descriptor, Holding
--   and Accepts about that of a client that it accepts. What SockAddr reads from a text is a parameter.
-- - Endpoints/Tcp/Client: classes TcpClientImpl and TCPClientStream of src/impl/tcpcli.h, Owned,
--   Streams and Releases about the descriptor. What zeroconf and SockAddr say of an address is a
--   parameter; a callback of close that destroys the client is followed one level down.
-- - Endpoints/Udp/Server: classes UdpServerImpl and UDPServerStream of src/impl/udpsvr.h,
--   Owned, Streams and Releases about the descriptor. Addresses come from a parameter; define_port is
--   not modelled.
--
-- Bytes are numbers below 256, which is an hypothesis on what comes in and part of the invariants.
-- Narrow integers keep their wrap; a difference that the code computes over `int` is one of numbers,
-- and the invariants keep it from being negative. The bit operations are the native ones. Counters
-- are the 32 bits of an int; the numbers of a configuration are integers without a bound.
--
-- Fuel: a call of `write` with `l` bytes, where `w` bytes of the array wait for the rest of their
-- packet, is given (w + l)² + (w + l) + l + 1 rounds. A round takes a byte from the source or is done
-- with one for good, so this is enough, for the nested calls too; it is proved, since the theorems say
-- that the calls return.
--
-- The loops of the endpoints that read until nothing is left take a number of rounds; what is proved
-- of what an endpoint keeps holds for every number, and Drains says how many are enough.
--
-- Not modelled: what the system calls, Avahi and D-Bus do inside (their answers are the environment of
-- the endpoints), the UDP client, the serial line, timers, the zeroconf client, the configuration of the
-- endpoints and the log; parsing of YAML, which is a library's. A callback of an endpoint may write to
-- it and may destroy it, where its Os says so; `_exists` is then still read, as the code does.
-- What is attached behind a filter may not call it back: the router's graph of routes has no cycle.
pub mod Base
pub mod Yaml
pub mod Filters
pub mod Stats
pub mod Router
pub mod Addresses
pub mod Endpoints
