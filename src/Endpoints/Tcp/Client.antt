-- ===== src/Endpoints/Tcp/Client.antt =====
-- Classes TCPClientStream and TcpClientImpl in src/src/impl/tcpcli.h: the connection to one peer, over
-- the addresses that the resolver or zeroconf found. The iterator `_addr` is the rest of the list
-- from it on. A callback may write to the stream while it is called with data, and any callback may
-- destroy the client; `writeable` of the stream has no callback yet where it is called.
pub mod Owned
pub mod Streams
pub mod Releases
use Prim.Native.String.{String}
use uav_router.Base.{
  ℕ, zero, suc, ◌==◌, Bool, true, false, not, ◌&&◌, ◌||◌, text_lt, Option, none, some, List, [],
  ◌∷◌, Bytes, length, take, if◌then◌else◌,
}
use uav_router.Stats.Counters.{StatCounters, add}
use uav_router.Endpoints.Os.{
  Os, Call, Callback, Answer, ok, failed, eagain, query_size, receive, send, socket_error, poll_add,
  poll_del, bind, connect, set_keepalive, error, read, connected, fired, arm_timer, requery,
  resolve, query_name, watch_services, create_group, reset_group, commit_group, add_service,
  register_report,
}
use uav_router.Endpoints.Handle.{
  Handle, M, ◌>>=◌, ◌>>◌, pure, fd_of, alive, gets, modify, end, forget, when, when_open, choose,
  event, call, call_at, close_fd, ask, open_fd, ended, fire, newest, replies,
}
use uav_router.Endpoints.Dispatch.{Events, Handling, handled, not_handled, stop, IoPollable}
use uav_router.Endpoints.Tcp.Server.{Address}

-- TCPClientStream, with the descriptor that it was made with
pub record ClientStream : Type 0 where
  pub stream_fd : Option ℕ
  pub is_writeable : Bool
  pub cnt : StatCounters

-- `client` is `_client`, `none` where it has expired; `retries` is whether the timer is to call
-- connect_to_peer_retry before it calls connect again; `counted` is whether the period is not 0.
pub record TcpClient : Type 0 where
  pub addresses : List Address
  pub rest : List Address
  pub itf : ℕ
  pub zeroconf : Bool
  pub watches : Bool
  pub retries : Bool
  pub canon_peer_name : String
  pub peer_name : String
  pub client : Option ClientStream
  pub counted : Bool
  pub tags : List (String × String)

abbrev pub C : Type 0 → Type 0
C = M TcpClient

abbrev pub set_rest : List Address → TcpClient → TcpClient
set_rest as_ x = record x { rest = as_ }

abbrev pub set_found : List Address → TcpClient → TcpClient
set_found as_ x = record x { addresses = as_; rest = as_ }

abbrev pub set_names : String → String → TcpClient → TcpClient
set_names peer canon x = record x { peer_name = peer; canon_peer_name = canon }

abbrev pub set_watches : TcpClient → TcpClient
set_watches x = record x { watches = true }

abbrev pub set_retries : Bool → TcpClient → TcpClient
set_retries b x = record x { retries = b }

abbrev pub set_client : Option ClientStream → TcpClient → TcpClient
set_client c x = record x { client = c }

-- `_addr++`
abbrev pub next : List Address → List Address
next [] = []
next (a ∷ as_) = as_

abbrev pub is_nil : List Address → Bool
is_nil [] = true
is_nil (a ∷ as_) = false

abbrev pub same_text : String → String → Bool
same_text s t = not (text_lt s t) && not (text_lt t s)

abbrev pub no_text : String → Bool
no_text s = same_text s ""

-- A change of the stream, if it still exists.
abbrev pub on_stream : (ClientStream → ClientStream) → TcpClient → TcpClient
on_stream f x = elim x.client [ none ↦ x | some c ↦ record x { client = some (f c) } ]

abbrev pub set_writeable : Bool → ClientStream → ClientStream
set_writeable b c = record c { is_writeable = b }

abbrev pub count : String → ℕ → ClientStream → ClientStream
count name n c = record c { cnt = add name n c.cnt }

-- TCPClientStream
abbrev pub new_stream : Option ℕ → TcpClient → ClientStream
new_stream d x = record {
  stream_fd = d;
  is_writeable = false;
  cnt = record {
    name = "tcpcli";
    tags = ("endpoint", x.peer_name) ∷ (if x.counted then x.tags else []);
    values = [];
  };
}

module _ ⦃os : Os⦄ where
  -- The destructor, where the error that close gives lets it run in the middle of cleanup.
  unfoldable pub destroy_inside : C (Unit {0})
  destroy_inside = do end; call poll_del; close_fd; forget

  unfoldable pub closed_with : Answer → C (Unit {0})
  closed_with (ok n) = pure tt
  closed_with (failed e) = fire destroy_inside error

  -- cleanup
  unfoldable pub cleanup : C (Unit {0})
  cleanup = do k ← fd_of; when_open k (do ret ← close_fd; closed_with ret; forget)

  -- `if (_fd!=-1) _loop->poll()->del(_fd, this)`
  unfoldable pub leave_loop : C (Unit {0})
  leave_loop = do k ← fd_of; when_open k (do call poll_del; pure tt)

  -- ~TcpClientImpl
  unfoldable pub destroy : C (Unit {0})
  destroy = do end; leave_loop; cleanup

  unfoldable pub on_error : C (Unit {0})
  on_error = fire destroy error

  unfoldable pub report : Answer → C (Unit {0})
  report (ok n) = pure tt
  report (failed e) = on_error

  -- connect_to_peer; 115 is EINPROGRESS
  unfoldable pub polled : Answer → C Answer
  polled (ok n) = pure (ok 0)
  polled (failed e) = do close_fd; forget; pure (failed e)

  unfoldable pub connecting : Answer → C Answer
  connecting (ok n) = call poll_add >>= polled
  connecting (failed e) =
      choose (e == 115) (call poll_add >>= polled) (do close_fd; forget; pure (failed e))

  unfoldable pub connect_to_peer : C Answer
  connect_to_peer = call connect >>= connecting

  unfoldable pub watch : C (Unit {0})
  watch = do
    w ← gets (λ x. x.watches)
    when (not w) (do modify set_watches; ask watch_services; pure tt)

  -- The group that announces the port; its callbacks come later.
  unfoldable pub bound : Answer → C Answer
  bound (failed e) = pure (failed e)
  bound (ok n) = do ask create_group; pure (ok 0)

  -- The peer has a name with zeroconf, or has none and is connected to at once.
  unfoldable pub named : String → String × String → Answer → C Answer
  named text names (ok (suc n)) = do modify (set_names names.0 names.1); watch; call bind >>= bound
  named text names (ok zero) = do modify (set_names text ""); connect_to_peer
  named text names (failed e) = do modify (set_names text ""); connect_to_peer

  -- `text` is what SockAddr::format makes of an address, `names` what zeroconf has for it.
  unfoldable pub kept_alive : String → String × String → Answer → C Answer
  kept_alive text names (failed e) = pure (failed e)
  kept_alive text names (ok n) = do
    z ← gets (λ x. x.zeroconf)
    choose z (ask query_name >>= named text names) (do modify (set_names text ""); connect_to_peer)

  unfoldable pub socket_made : String → String × String → Answer → C Answer
  socket_made text names (failed e) = pure (failed e)
  socket_made text names (ok k) = call set_keepalive >>= kept_alive text names

  unfoldable pub make_socket : String → String × String → C Answer
  make_socket text names = open_fd >>= socket_made text names

  -- Whether the object still exists is asked only where there was a descriptor.
  unfoldable pub create_after : String → String × String → Option ℕ → C Answer
  create_after text names none = make_socket text names
  create_after text names (some k) = do
    cleanup
    there ← alive
    choose there (make_socket text names) (pure (ok 0))

  unfoldable pub create_connection : String → String × String → C Answer
  create_connection text names = fd_of >>= create_after text names

-- What is known of an address: its text, and its name with zeroconf, short and whole.
pub record Naming : Type 0 where
  pub format : Address → String
  pub service : Address → String × String

module _ ⦃os : Os⦄ (naming : Naming) where
  unfoldable pub try_next : C (Unit {0}) → Answer → C (Unit {0})
  try_next again (ok n) = pure tt
  try_next again (failed e) = do on_error; modify (λ x. set_rest (next x.rest) x); again

  -- connect, from the addresses that are left on
  unfoldable pub connect_from : List Address → C (Unit {0})
  connect_from [] = do ask arm_timer; modify (λ x. set_rest x.addresses x)
  connect_from (a ∷ as_) = do
    ret ← create_connection (naming.format a) (naming.service a)
    try_next (connect_from as_) ret

  unfoldable pub connect_any : List Address → C (Unit {0})
  connect_any [] = do ask requery; pure tt
  connect_any (a ∷ as_) = do rest ← gets (λ x. x.rest); connect_from rest

  unfoldable pub connect_now : C (Unit {0})
  connect_now = do found ← gets (λ x. x.addresses); connect_any found

  unfoldable pub connect_to_peer_retry : C (Unit {0})
  connect_to_peer_retry = connect_to_peer >>= try_next connect_now

  -- The callback of the resolver.
  unfoldable pub resolved : List Address → C (Unit {0})
  resolved found = do modify (set_found found); connect_now

  -- init
  unfoldable pub init : C Answer
  init = ask resolve

  -- init_service: `known` are the addresses that zeroconf has for the service already.
  unfoldable pub init_service : String → List Address → C Answer
  init_service name known = do
    modify (λ x. record x { canon_peer_name = name })
    z ← gets (λ x. x.zeroconf)
    choose z (do watch; when (not (is_nil known)) (resolved known); pure (ok 0)) (pure (failed 93))

  -- The timer: what it was last told to call.
  unfoldable pub timed : C (Unit {0})
  timed = do
    r ← gets (λ x. x.retries)
    choose r (do modify (set_retries false); connect_to_peer_retry) connect_now

  -- The callbacks of the group.
  unfoldable pub service_added : Answer → C (Unit {0})
  service_added (ok n) = do ret ← ask commit_group; report ret
  service_added (failed e) = do on_error; ret ← ask reset_group; report ret; connect_to_peer_retry

  unfoldable pub on_create : C (Unit {0})
  on_create = ask add_service >>= service_added

  unfoldable pub on_collision : C (Unit {0})
  on_collision = do ask reset_group; connect_to_peer_retry

  unfoldable pub on_established : C (Unit {0})
  on_established = do modify (set_retries true); ask arm_timer; pure tt

  unfoldable pub on_failure : C (Unit {0})
  on_failure = do on_error; connect_to_peer_retry

  -- `del` and cleanup, which two methods begin with, and whether the object still exists
  unfoldable pub left : Answer → C Bool
  left (ok n) = do cleanup; alive
  left (failed e) = do on_error; there ← alive; choose there (do cleanup; alive) (pure false)

  unfoldable pub leave : Option ℕ → C Bool
  leave none = do cleanup; alive
  leave (some k) = call poll_del >>= left

  unfoldable pub reconnect : C (Unit {0})
  reconnect = do
    canon ← gets (λ x. x.canon_peer_name)
    when (no_text canon) (do modify (λ x. set_rest (next x.rest) x); connect_now)

  -- epollRDHUP and epollHUP
  unfoldable pub epoll_rdhup : C (Option Handling)
  epoll_rdhup = do
    k ← fd_of
    there ← leave k
    choose there (do reconnect; pure (some handled)) (pure (some stop))

  -- svc_resolved and svc_removed
  unfoldable pub svc_resolved : String → ℕ → Address → C (Unit {0})
  svc_resolved name itf a = do
    x ← gets (λ x. x)
    when (same_text name x.canon_peer_name && (x.itf == 0 || x.itf == itf)) (do
      modify (λ y. record y { addresses = a ∷ y.addresses })
      when (is_nil x.addresses) (do modify (λ y. set_rest y.addresses y); connect_now))

  unfoldable pub svc_removed : String → C (Unit {0})
  svc_removed name = do
    canon ← gets (λ x. x.canon_peer_name)
    k ← fd_of
    when (same_text name canon) (do there ← leave k; when there (modify (set_found [])))

-- The stream that the client hands out, and the data that it reads.
module _ ⦃os : Os⦄ where
  -- TCPClientStream::write
  unfoldable pub sent : Bytes → Answer → C Answer
  sent buf (failed e) = do
    modify (on_stream (set_writeable false))
    when (not (e == eagain)) on_error
    pure (failed e)
  sent buf (ok n) = do
    modify (on_stream (set_writeable (n == length buf)))
    modify (on_stream (count "write" n))
    pure (ok n)

  unfoldable pub write_on : Bytes → Option ClientStream → C Answer
  write_on buf none = pure (ok 0)
  write_on buf (some c) =
      choose c.is_writeable (do n ← call_at c.stream_fd (send buf); sent buf n) (pure (ok 0))

  unfoldable pub write : Bytes → C Answer
  write buf = do c ← gets (λ x. x.client); write_on buf c

  unfoldable pub write_each : List Bytes → C (Unit {0})
  write_each [] = pure tt
  write_each (buf ∷ bufs) = do write buf; write_each bufs

  unfoldable pub call_back : Callback → C (Unit {0})
  call_back c = do event (fired c); gone ← ended; bufs ← replies; write_each bufs; when gone destroy

  -- cli: the stream, made where there is none
  unfoldable pub make_if : Option ClientStream → C (Unit {0})
  make_if (some c) = pure tt
  make_if none = do
    x ← gets (λ x. x)
    d ← fd_of
    when x.counted (do ask register_report; pure tt)
    modify (set_client (some (set_writeable true (new_stream d x))))
    call_back (connected 0)

  unfoldable pub cli : C (Unit {0})
  cli = do c ← gets (λ x. x.client); make_if c

  unfoldable pub received : Answer → C (Option Handling) → C (Option Handling)
  received (failed e) again =
      choose (e == eagain) again (do on_error; there ← alive; choose there again (pure (some stop)))
  received (ok n) again = do
    bytes ← newest
    cli
    call_back (read (take n bytes))
    modify (on_stream (count "read" n))
    there ← alive
    choose there again (pure (some stop))

  -- Where the amount cannot be read the loop goes on, unless the object was destroyed.
  unfoldable pub queried : Answer → C (Option Handling) → C (Option Handling)
  queried (failed e) again = do on_error; there ← alive; choose there again (pure (some stop))
  queried (ok zero) again = pure (some handled)
  queried (ok (suc size)) again = do n ← call (receive (suc size)); received n again

  unfoldable pub read_all : ℕ → C (Option Handling)
  read_all zero = pure none
  read_all (suc fuel) = do size ← call query_size; queried size (read_all fuel)

  -- error
  unfoldable pub failing : Answer → C Bool
  failing (ok n) = pure false
  failing (failed e) = do on_error; pure true

  unfoldable pub epoll_in : ℕ → C (Option Handling)
  epoll_in fuel = do
    ret ← call socket_error
    bad ← failing ret
    choose bad (pure (some handled)) (read_all fuel)

  unfoldable pub epoll_out : C (Option Handling)
  epoll_out = do cli; there ← alive; pure (some (if there then handled else stop))

  unfoldable pub epoll_err : C (Option Handling)
  epoll_err = do ret ← call socket_error; failing ret; pure (some handled)

  unfoldable pub poll_methods : Naming → ℕ → IoPollable TcpClient
  poll_methods naming fuel = record {
    epoll_event = λ evs. pure false;
    epoll_in = epoll_in fuel;
    epoll_out = epoll_out;
    epoll_pri = pure (some not_handled);
    epoll_err = epoll_err;
    epoll_hup = epoll_rdhup naming;
    epoll_rdhup = epoll_rdhup naming;
  }

-- TcpClientImpl
unfoldable pub construct : Bool → Bool → List (String × String) → Handle TcpClient
construct zeroconf counted tags = record {
  fd = none;
  exists = true;
  history = [];
  own = record {
    addresses = [];
    rest = [];
    itf = 0;
    zeroconf = zeroconf;
    watches = false;
    retries = false;
    canon_peer_name = "";
    peer_name = "";
    client = none;
    counted = counted;
    tags = tags;
  };
}
