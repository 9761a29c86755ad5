-- ===== src/Endpoints/Os.antt =====
-- What an endpoint sees from outside: the system calls of the endpoints in src/src/impl/tcpsvr.h,
-- tcpcli.h and udpsvr.h, the requests to timer, resolver and zeroconf, and the callbacks. Each is an
-- event of a history; what the kernel and the callbacks answer is a function of the history so far.
use Prim.Native.String.{String}
use uav_router.Base.{ℕ, Bool, Option, List, Bytes}

-- System calls on a descriptor.
pub data Call : Type 0 where
  query_size poll_add poll_del socket_error set_keepalive get_flags set_nonblock : Call
  bind listen connect accept : Call
  reuse_address reuse_port add_membership : Call
  receive : ℕ → Call
  send : Bytes → Call

pub data Callback : Type 0 where
  error writeable close : Callback
  read : Bytes → Callback
  connected : ℕ → Callback
  delivered : String → Bytes → Callback
  named_writeable named_close : String → Callback

-- What is asked of the timer, the resolver, and the zeroconf client and its group.
pub data Request : Type 0 where
  arm_timer requery resolve watch_services : Request
  register_report query_name create_group reset_group commit_group add_service : Request

-- A descriptor is `none` where the program has -1. `given` is a descriptor that another object now
-- owns.
pub data Event : Type 0 where
  created : Event
  opened given : ℕ → Event
  closed : Option ℕ → Event
  called : Call → Option ℕ → Event
  asked : Request → Event
  fired : Callback → Event

-- The newest event comes first.
abbrev pub History : Type 0
History = List Event

-- A value that is not negative, or -1 with errno.
pub data Answer : Type 0 where
  ok failed : ℕ → Answer

-- `answer` is the result of the newest event, `buffer` the content of the array that it filled,
-- `replies` what a callback writes to the object that called it, and `ends` whether a callback
-- destroys that object before it returns.
pub record Os : Type 0 where
  pub answer : History → Answer
  pub buffer : History → Bytes
  pub replies : History → List Bytes
  pub ends : History → Bool

abbrev pub eagain : ℕ
eagain = 11

abbrev pub epipe : ℕ
epipe = 32
