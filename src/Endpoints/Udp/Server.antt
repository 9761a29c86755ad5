-- ===== src/Endpoints/Udp/Server.antt =====
-- Classes UDPServerStream and UdpServerImpl in src/src/impl/udpsvr.h: one socket, and a stream for each
-- peer by its name. What SockAddr makes of texts and interfaces and the name of a sender are given
-- from outside. An expired entry of `_streams` is left out of the table.
pub mod Owned
pub mod Streams
pub mod Releases
use Prim.Native.String.{String}
use uav_router.Base.{
  ℕ, zero, suc, ◌==◌, ◌&&◌, Bool, true, false, not, Option, none, some, List, [], ◌∷◌, Bytes,
  length, take, Map, find, put, erase, text_order, if◌then◌else◌,
}
use uav_router.Stats.Counters.{StatCounters, add}
use uav_router.Endpoints.Os.{
  Os, Call, Callback, History, Answer, ok, failed, eagain, query_size, receive, send, poll_add,
  poll_del, bind, reuse_address, reuse_port, add_membership, error, connected, delivered,
  named_writeable, named_close, fired, query_name, watch_services, create_group, reset_group,
  commit_group, add_service, register_report,
}
use uav_router.Endpoints.Handle.{
  Handle, M, ◌>>=◌, ◌>>◌, pure, fd_of, alive, gets, modify, end, forget, when, when_open, choose,
  event, call, call_at, close_fd, ask, open_fd, ended, fire, newest,
}
use uav_router.Endpoints.Dispatch.{Events, Handling, handled, not_handled, stop, IoPollable}
use uav_router.Endpoints.Tcp.Server.{Address}

pub data Mode : Type 0 where
  unicast broadcast multicast : Mode

-- UDPServerStream, with the descriptor that it was made with
pub record UdpStream : Type 0 where
  pub stream_fd : Option ℕ
  pub is_writeable : Bool
  pub cnt : StatCounters

pub record UdpServer : Type 0 where
  pub address : Option String
  pub itf : Option String
  pub family : ℕ
  pub zeroconf : Bool
  pub group : Bool
  pub watches : Bool
  pub streams : Map String UdpStream

-- SockAddr::init, local, broadcast and any, and the name under which zeroconf or the address knows
-- the sender of the datagram that was read last.
pub record Net : Type 0 where
  pub parse : String → ℕ → Option Address
  pub local_of : String → ℕ → ℕ → Option Address
  pub broadcast_of : String → ℕ → Option Address
  pub any_of : ℕ → ℕ → Option Address
  pub sender : History → String

abbrev pub U : Type 0 → Type 0
U = M UdpServer

abbrev pub or_else : Option Address → Option Address → Option Address
or_else none b = b
or_else (some a) b = some a

abbrev pub parsed : Net → Option String → ℕ → Option Address
parsed net none port = none
parsed net (some text) port = net.parse text port

-- 2 and 10 are AF_INET and AF_INET6.
abbrev pub local_address : Net → Option String → ℕ → ℕ → Option Address
local_address net none family port = none
local_address net (some itf) family port =
    if family == 2
    then net.local_of itf family port
    else if family == 10
    then net.local_of itf family port
    else none

abbrev pub broadcast_address : Net → Option String → ℕ → Option Address
broadcast_address net none port = none
broadcast_address net (some itf) port = net.broadcast_of itf port

-- The address that setup_fd binds to, or joins.
abbrev pub address_for : Net → UdpServer → Mode → ℕ → Option Address
address_for net x unicast port =
    or_else (parsed net x.address port)
      (or_else (local_address net x.itf x.family port) (net.any_of x.family port))
address_for net x broadcast port =
    or_else (parsed net x.address port)
      (or_else (broadcast_address net x.itf port) (net.parse "<broadcast>" port))
address_for net x multicast port = parsed net x.address port

abbrev pub set_group : UdpServer → UdpServer
set_group x = record x { group = true }

abbrev pub set_watches : UdpServer → UdpServer
set_watches x = record x { watches = true }

-- address and interface
abbrev pub set_address : String → UdpServer → UdpServer
set_address text x = record x { address = some text }

abbrev pub set_interface : Option String → ℕ → UdpServer → UdpServer
set_interface itf family x = record x { itf = itf; family = family }

-- The stream of a name expires.
abbrev pub forget_stream : String → UdpServer → UdpServer
forget_stream name x = record x { streams = erase name x.streams }

-- A change of one stream, if it is there.
abbrev pub changed : String → (UdpStream → UdpStream) → Option UdpStream → UdpServer → UdpServer
changed name f none x = x
changed name f (some c) x = record x { streams = put name (f c) x.streams }

abbrev pub on_stream : String → (UdpStream → UdpStream) → UdpServer → UdpServer
on_stream name f x = changed name f (find name x.streams) x

abbrev pub set_writeable : Bool → UdpStream → UdpStream
set_writeable b c = record c { is_writeable = b }

abbrev pub count : String → ℕ → UdpStream → UdpStream
count name n c = record c { cnt = add name n c.cnt }

abbrev pub shut : UdpStream → UdpStream
shut c = record c { stream_fd = none; is_writeable = false }

-- UDPServerStream
abbrev pub new_stream : String → Option ℕ → UdpStream
new_stream name d = record {
  stream_fd = d;
  is_writeable = true;
  cnt = record { name = "tcpcli"; tags = ("endpoint", name) ∷ []; values = [] };
}

-- The sender of the datagram that was read last.
unfoldable pub sender_of : Net → U String
sender_of net s = (net.sender s.history, s)

module _ ⦃os : Os⦄ where
  -- on_close of every stream of the table
  unfoldable pub close_streams : Map String UdpStream → U (Unit {0})
  close_streams [] = pure tt
  close_streams ((name, c) ∷ streams) = do
    event (fired (named_close name))
    modify (on_stream name shut)
    close_streams streams

  -- What close gives is reported; the object is being destroyed.
  unfoldable pub closed_with : Answer → U (Unit {0})
  closed_with (ok n) = pure tt
  closed_with (failed e) = do event (fired error); pure tt

  -- ~UdpServerImpl
  unfoldable pub destroy : U (Unit {0})
  destroy = do
    end
    k ← fd_of
    streams ← gets (λ x. x.streams)
    when_open k (do call poll_del; close_streams streams; ret ← close_fd; closed_with ret; forget)

  unfoldable pub on_error : U (Unit {0})
  on_error = fire destroy error

  unfoldable pub report : Answer → U (Unit {0})
  report (ok n) = pure tt
  report (failed e) = on_error

  -- FD: what happens to the descriptor where setup_fd returns.
  unfoldable pub leave_setup : Answer → U Answer
  leave_setup (ok n) = pure (ok 0)
  leave_setup (failed e) = do close_fd; forget; pure (failed e)

  unfoldable pub then_call : Call → Answer → U Answer
  then_call c (failed e) = pure (failed e)
  then_call c (ok n) = call c

  unfoldable pub reused : Answer → U Answer
  reused (ok n) = call bind >>= then_call add_membership
  reused (failed e) = call reuse_address >>= then_call bind >>= then_call add_membership

  -- Why there is no address is not told apart: 99 is EADDRNOTAVAIL.
  unfoldable pub setup_for : Mode → Option Address → U Answer
  setup_for mode none = pure (failed 99)
  setup_for unicast (some a) = call bind
  setup_for broadcast (some a) = call reuse_address >>= then_call bind
  setup_for multicast (some a) = call reuse_port >>= reused

  unfoldable pub socket_made : Mode → Option Address → Answer → U Answer
  socket_made mode a (failed e) = pure (failed e)
  socket_made mode a (ok k) = setup_for mode a >>= leave_setup

  unfoldable pub drop_socket : U (Unit {0})
  drop_socket = do k ← fd_of; when_open k (do close_fd; forget; call_at none poll_del; pure tt)

  -- setup_fd
  unfoldable pub setup_fd : Net → ℕ → Mode → U Answer
  setup_fd net port mode = do
    drop_socket
    x ← gets (λ x. x)
    a ← open_fd
    socket_made mode (address_for net x mode port) a

  -- The callbacks of the group.
  unfoldable pub added : Answer → U Answer
  added (ok n) = ask commit_group
  added (failed e) = do on_error; ask reset_group

  unfoldable pub create_service : U (Unit {0})
  create_service = do a ← ask add_service; ec ← added a; report ec

  unfoldable pub on_established : U (Unit {0})
  on_established = call poll_add >>= report

  unfoldable pub announce : U Answer
  announce = do
    g ← gets (λ x. x.group)
    choose g (ask reset_group) (do modify set_group; pure (ok 0))
    ask create_group
    w ← gets (λ x. x.watches)
    when (not w) (do modify set_watches; ask watch_services; pure tt)
    pure (ok 0)

  unfoldable pub set_up : Bool → Answer → U Answer
  set_up z (failed e) = pure (failed e)
  set_up z (ok n) = choose z announce (call poll_add)

  -- init; 22 is EINVAL
  unfoldable pub init : Net → ℕ → Mode → U Answer
  init net port mode = do
    z ← gets (λ x. x.zeroconf)
    choose (not z && (port == 0)) (pure (failed 22)) (setup_fd net port mode >>= set_up z)

  unfoldable pub on_collision : Net → ℕ → Mode → U (Unit {0})
  on_collision net port mode = do ask reset_group; ret ← init net port mode; report ret

  -- UDPServerStream::write, for the stream of a name
  unfoldable pub sent : String → Answer → U Answer
  sent name (failed e) = do on_error; modify (on_stream name (set_writeable false)); pure (failed e)
  sent name (ok n) = do modify (on_stream name (count "write" n)); pure (ok n)

  unfoldable pub write_at : String → Bytes → Option ℕ → U Answer
  write_at name buf none = pure (failed 0)
  write_at name buf (some k) = call_at (some k) (send buf) >>= sent name

  unfoldable pub write_on : String → Bytes → Option UdpStream → U Answer
  write_on name buf none = pure (failed 0)
  write_on name buf (some c) =
      choose c.is_writeable (write_at name buf c.stream_fd) (pure (failed 0))

  unfoldable pub write : String → Bytes → U Answer
  write name buf = do c ← gets (λ x. find name x.streams); write_on name buf c

  -- The stream for a name, made where there is none.
  unfoldable pub make_stream : String → Option UdpStream → U (Unit {0})
  make_stream name (some c) = pure tt
  make_stream name none = do
    ask register_report
    d ← fd_of
    modify (λ x. record x { streams = put name (new_stream name d) x.streams })
    fire destroy (connected 0)

  -- on_read of the stream
  unfoldable pub deliver : String → Bytes → U (Unit {0})
  deliver name bytes = do
    fire destroy (delivered name bytes)
    modify (on_stream name (count "read" (length bytes)))

  -- `if (!_exists) return STOP`, and otherwise `rest`
  unfoldable pub while_alive : U (Option Handling) → U (Option Handling)
  while_alive rest = do there ← alive; choose there rest (pure (some stop))

  unfoldable pub received : String → Answer → U (Option Handling) → U (Option Handling)
  received name (failed e) again = choose (e == eagain) (pure (some handled)) (do on_error; again)
  received name (ok n) again = do
    bytes ← newest
    c ← gets (λ x. find name x.streams)
    make_stream name c
    while_alive (do deliver name (take n bytes); while_alive again)

  -- Where the amount cannot be read the loop goes on.
  unfoldable pub queried : Net → Answer → U (Option Handling) → U (Option Handling)
  queried net (failed e) again = do on_error; again
  queried net (ok zero) again = pure (some handled)
  queried net (ok (suc size)) again = do
    n ← call (receive (suc size))
    name ← sender_of net
    z ← gets (λ x. x.zeroconf)
    when z (do ask query_name; pure tt)
    received name n again

  unfoldable pub epoll_in : Net → ℕ → U (Option Handling)
  epoll_in net zero = pure none
  epoll_in net (suc fuel) = do size ← call query_size; queried net size (epoll_in net fuel)

  -- writeable() of the streams
  unfoldable pub wake : String → Option UdpStream → U (Unit {0})
  wake name none = pure tt
  wake name (some c) =
      when (not c.is_writeable)
        (do modify (on_stream name (set_writeable true)); fire destroy (named_writeable name))

  unfoldable pub wake_all : Map String UdpStream → U (Option Handling)
  wake_all [] = pure (some handled)
  wake_all ((name, c) ∷ streams) = do
    now ← gets (λ x. find name x.streams)
    wake name now
    while_alive (wake_all streams)

  unfoldable pub epoll_out : U (Option Handling)
  epoll_out = do streams ← gets (λ x. x.streams); wake_all streams

  -- svc_removed
  unfoldable pub remove_stream : String → Option UdpStream → U (Unit {0})
  remove_stream name none = pure tt
  remove_stream name (some c) = do
    fire destroy (named_close name)
    modify (on_stream name shut)
    modify (λ x. record x { streams = erase name x.streams })

  unfoldable pub svc_removed : String → U (Unit {0})
  svc_removed name = do c ← gets (λ x. find name x.streams); remove_stream name c

  unfoldable pub poll_methods : Net → ℕ → IoPollable UdpServer
  poll_methods net fuel = record {
    epoll_event = λ evs. pure false;
    epoll_in = epoll_in net fuel;
    epoll_out = epoll_out;
    epoll_pri = pure (some not_handled);
    epoll_err = pure (some not_handled);
    epoll_hup = pure (some not_handled);
    epoll_rdhup = pure (some not_handled);
  }

-- UdpServerImpl
unfoldable pub construct : Bool → Handle UdpServer
construct zeroconf = record {
  fd = none;
  exists = true;
  history = [];
  own = record {
    address = none;
    itf = none;
    family = 2;
    zeroconf = zeroconf;
    group = false;
    watches = false;
    streams = [];
  };
}
