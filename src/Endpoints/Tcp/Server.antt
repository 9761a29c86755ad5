-- ===== src/Endpoints/Tcp/Server.antt =====
-- Class TcpServerImpl in src/src/impl/tcpsvr.h: the listening socket, its registration with zeroconf,
-- and the acceptance of connections. What SockAddr reads from text is given from outside.
pub mod Holding
pub mod Sound
pub mod Accepts
use Prim.Native.String.{String}
use uav_router.Base.{
  ℕ, zero, suc, ◌==◌, Bool, true, false, ◌||◌, Option, none, some, List, [], ◌∷◌, if◌then◌else◌,
}
use uav_router.Endpoints.Os.{
  Os, Call, Callback, Answer, ok, failed, eagain, called, opened, given, fired, poll_add, poll_del,
  bind, listen, accept, set_keepalive, get_flags, set_nonblock, socket_error, error, connected,
  arm_timer, resolve, query_name, create_group, reset_group, commit_group, add_service,
}
use uav_router.Endpoints.Handle.{
  Handle, M, run, ◌>>=◌, ◌>>◌, pure, fd_of, alive, gets, modify, end, forget, when, when_open,
  choose, event, call, call_on, close_on, close_fd, ask, open_fd, fire,
}
use uav_router.Endpoints.Dispatch.{Events, Handling, handled, not_handled, stop, IoPollable}

-- A SockAddr whose len() is not 0.
pub record Address : Type 0 where
  pub family : ℕ
  pub host : String
  pub port : ℕ

abbrev pub any : ℕ → ℕ → Address
any family port = record { family = family; host = ""; port = port }

-- `zeroconf` is whether the loop has a zeroconf client; `address` is `_address`, `none` where empty.
pub record TcpServer : Type 0 where
  pub addr : Option Address
  pub address : Option String
  pub group : Bool
  pub zeroconf : Bool

abbrev pub T : Type 0 → Type 0
T = M TcpServer

abbrev pub set_addr : Option Address → TcpServer → TcpServer
set_addr a x = record x { addr = a }

abbrev pub set_group : Bool → TcpServer → TcpServer
set_group b x = record x { group = b }

-- `_addr.port()`
abbrev pub port_of : Option Address → ℕ
port_of none = 0
port_of (some a) = a.port

-- The address that init leaves: `_addr` with the port, or any address
abbrev pub with_port : Option Address → ℕ → ℕ → Address
with_port none family port = any family port
with_port (some a) family port = record a { port = port }

-- The address that the resolver's callback takes from the list it is given.
abbrev pub resolved_address : List Address → ℕ → ℕ → Address
resolved_address [] family port = any family port
resolved_address (a ∷ []) family port = any family port
resolved_address (a ∷ b ∷ as_) family port = a

-- `found` is what SockAddrList finds for an interface.
abbrev pub interface_address : List Address → ℕ → Address
interface_address [] family = any family 0
interface_address (a ∷ []) family = a
interface_address (a ∷ b ∷ as_) family = any family 0

-- address and interface
unfoldable pub set_address : String → T (Unit {0})
set_address text = modify (λ x. record x { address = some text })

unfoldable pub set_interface : List Address → ℕ → T (Unit {0})
set_interface found family = modify (set_addr (some (interface_address found family)))

-- TcpServerImpl: `zeroconf` is whether the loop has a zeroconf client
unfoldable pub construct : Bool → Handle TcpServer
construct zeroconf = record {
  fd = none;
  exists = true;
  history = [];
  own = record { addr = none; address = none; group = false; zeroconf = zeroconf };
}

module _ ⦃os : Os⦄ where
  unfoldable pub cleanup : T (Unit {0})
  cleanup = do k ← fd_of; when_open k (do close_fd; forget)

  -- ~TcpServerImpl
  unfoldable pub destroy : T (Unit {0})
  destroy = do end; cleanup

  unfoldable pub on_error : T (Unit {0})
  on_error = fire destroy error

  -- `if (on_error(ec)) { if (!_exists) return; ... }`, where `failing` is what stands at the dots
  unfoldable pub if_error : Answer → T (Unit {0}) → T (Unit {0}) → T (Unit {0})
  if_error (ok n) failing rest = rest
  if_error (failed e) failing rest = do on_error; there ← alive; when there failing

  -- `_timer->arm_oneshoot(3s)`
  unfoldable pub arm : T (Unit {0})
  arm = do ask arm_timer; pure tt

  unfoldable pub listened : Answer → T Answer
  listened (failed e) = do close_fd; forget; pure (failed e)
  listened (ok n) = call poll_add

  unfoldable pub listen_socket : T Answer
  listen_socket = call listen >>= listened

  unfoldable pub bound : Bool → Answer → T Answer
  bound listens (failed e) = do close_fd; forget; pure (failed e)
  bound listens (ok n) = choose listens listen_socket (pure (ok 0))

  unfoldable pub socket_made : Bool → Answer → T Answer
  socket_made listens (failed e) = pure (failed e)
  socket_made listens (ok k) = call bind >>= bound listens

  -- What create_socket does with a descriptor that it still has.
  unfoldable pub drop_socket : T (Unit {0})
  drop_socket = do k ← fd_of; when_open k (do call poll_del; close_fd; pure tt)

  unfoldable pub create_socket : Bool → T Answer
  create_socket listens = do drop_socket; a ← open_fd; socket_made listens a

  unfoldable pub added : Answer → T Answer
  added (ok n) = ask commit_group
  added (failed e) = do on_error; ask reset_group

  -- create_service
  unfoldable pub create_service : T (Unit {0})
  create_service = do
    ret ← create_socket false
    if_error ret arm (do a ← ask add_service; ec ← added a; if_error ec arm (pure tt))

  unfoldable pub registered : Bool → T Answer
  registered true = do create_service; pure (ok 0)
  registered false = do modify (set_group true); ask create_group; pure (ok 0)

  -- Whether the port is taken: the name that zeroconf has for it is not empty.
  unfoldable pub named : Answer → T Answer
  named (ok (suc n)) = pure (failed 98)
  named (ok zero) = do g ← gets (λ x. x.group); registered g
  named (failed e) = do g ← gets (λ x. x.group); registered g

  unfoldable pub claimed : ℕ → T Answer
  claimed zero = do g ← gets (λ x. x.group); registered g
  claimed (suc port) = ask query_name >>= named

  unfoldable pub create_prim : T Answer
  create_prim = do
    z ← gets (λ x. x.zeroconf)
    port ← gets (λ x. port_of x.addr)
    choose z (claimed port) (create_socket true)

  -- create, which the timer calls too
  unfoldable pub create : T (Unit {0})
  create = do ec ← create_prim; if_error ec arm (pure tt)

  -- `parsed` is what `_addr.init(_address, port)` makes of the text.
  unfoldable pub use_address : ℕ → ℕ → T Answer
  use_address port family = do
    a ← gets (λ x. x.addr)
    modify (set_addr (some (with_port a family port)))
    create
    pure (ok 0)

  unfoldable pub init_with : ℕ → ℕ → Option String → Option Address → T Answer
  init_with port family none parsed = use_address port family
  init_with port family (some text) none = ask resolve
  init_with port family (some text) (some a) = do
    modify (set_addr (some a))
    use_address port family

  -- init
  unfoldable pub init : (String → ℕ → Option Address) → ℕ → ℕ → T Answer
  init parse port family = do
    address ← gets (λ x. x.address)
    init_with port family address (elim address [ none ↦ none | some text ↦ parse text port ])

  -- The callback of the resolver.
  unfoldable pub resolved : List Address → ℕ → ℕ → T (Unit {0})
  resolved found family port = do
    modify (set_addr (some (resolved_address found family port)))
    create

  -- The callbacks of the group.
  unfoldable pub on_collision : T (Unit {0})
  on_collision = do ask reset_group; arm

  unfoldable pub on_established : T (Unit {0})
  on_established = do ec ← listen_socket; if_error ec arm (pure tt)

  unfoldable pub on_failure : T (Unit {0})
  on_failure = do on_error; there ← alive; when there (do modify (set_group false); arm)

  -- check
  unfoldable pub error_of : Answer → Answer
  error_of (failed e) = failed e
  error_of (ok zero) = ok zero
  error_of (ok (suc e)) = failed (suc e)

  unfoldable pub check : T Answer
  check = do ret ← call socket_error; pure (error_of ret)

  -- `if (!_exists) return STOP; return HANDLED;`
  unfoldable pub finish : T (Option Handling)
  finish = do there ← alive; pure (some (if there then handled else stop))

  -- A client that cannot be set up is closed.
  unfoldable pub refuse : ℕ → T (Option Handling)
  refuse client = do on_error; close_on client; finish

  -- on_connect, after which the loop goes on: the stream owns the descriptor.
  unfoldable pub hand_over : ℕ → T (Option Handling) → T (Option Handling)
  hand_over client again = do event (given client); fire destroy (connected client); again

  unfoldable pub identify : ℕ → T (Option Handling) → T (Option Handling)
  identify client again = do
    z ← gets (λ x. x.zeroconf)
    when z (do ask query_name; pure tt)
    hand_over client again

  unfoldable pub flags_set : ℕ → T (Option Handling) → Answer → T (Option Handling)
  flags_set client again (failed e) = refuse client
  flags_set client again (ok n) = identify client again

  unfoldable pub flags_read : ℕ → T (Option Handling) → Answer → T (Option Handling)
  flags_read client again (failed e) = refuse client
  flags_read client again (ok n) = call_on client set_nonblock >>= flags_set client again

  unfoldable pub kept_alive : ℕ → T (Option Handling) → Answer → T (Option Handling)
  kept_alive client again (failed e) = refuse client
  kept_alive client again (ok n) = call_on client get_flags >>= flags_read client again

  -- `accept`: -1, or the descriptor of a client
  unfoldable pub client_of : Answer → T Answer
  client_of (failed e) = pure (failed e)
  client_of (ok k) = do event (opened k); pure (ok k)

  unfoldable pub accepted : T (Option Handling) → Answer → T (Option Handling)
  accepted again (failed e) = choose (e == eagain) (pure (some handled)) (do on_error; finish)
  accepted again (ok client) = call_on client set_keepalive >>= kept_alive client again

  -- The loop of epollIN, with fuel for its rounds.
  unfoldable pub accept_all : ℕ → T (Option Handling)
  accept_all zero = pure none
  accept_all (suc fuel) = do
    a ← call accept
    client ← client_of a
    accepted (accept_all fuel) client

  unfoldable pub checked : ℕ → Answer → T (Option Handling)
  checked fuel (failed e) = do on_error; finish
  checked fuel (ok n) = accept_all fuel

  unfoldable pub epoll_in : ℕ → T (Option Handling)
  epoll_in fuel = check >>= checked fuel

  unfoldable pub report : Answer → T (Unit {0})
  report (ok n) = pure tt
  report (failed e) = on_error

  unfoldable pub epoll_err : T (Option Handling)
  epoll_err = do ret ← check; report ret; finish

  unfoldable pub poll_methods : ℕ → IoPollable TcpServer
  poll_methods fuel = record {
    epoll_event = λ evs. pure false;
    epoll_in = epoll_in fuel;
    epoll_out = pure (some not_handled);
    epoll_pri = pure (some not_handled);
    epoll_err = epoll_err;
    epoll_hup = pure (some not_handled);
    epoll_rdhup = pure (some not_handled);
  }
