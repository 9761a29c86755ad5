-- ===== src/Endpoints/Tcp/Server/Sound.antt =====
-- The descriptors of TcpServerImpl in src/src/impl/tcpsvr.h through every method and callback.
use Prim.Native.String.{String}
use uav_router.Base.{ℕ, zero, suc, Bool, true, false, Option, none, some, List, ◌≡◌, refl}
use uav_router.Endpoints.Os.{Os, Answer, ok, failed, poll_del}
use uav_router.Endpoints.Handle.{Handle, run, ◌>>=◌, ◌>>◌, pure, call, close_fd, when_open, fd_of}
use uav_router.Endpoints.Triples.{
  Ensures, Preserves, >>=-Ensures, >>-Ensures, >>=-Preserves, pure-Preserves, gets-Preserves,
}
use uav_router.Endpoints.Descriptors.{
  keeping, Sound, Idle, call-Sound, ask-Sound, open_fd-Sound, close_fd-Idle,
}
use uav_router.Endpoints.Closing.{close-forget-then-Sound, unheld-Idle}
use uav_router.Endpoints.Tcp.Server.{
  TcpServer, T, Address, cleanup, destroy, on_error, if_error, arm, listened, listen_socket, bound,
  socket_made, drop_socket, create_socket, added, create_service, registered, named, claimed,
  create_prim, create, use_address, init_with, init, resolved, on_collision, on_established,
  on_failure,
}

module _ ⦃os : Os⦄ where
  pub destroy-Sound : Preserves Sound destroy
  unfolding destroy cleanup
  destroy-Sound = search (keeping)

  pub on_error-Sound : Preserves Sound on_error
  unfolding on_error
  on_error-Sound = search (keeping, destroy-Sound)

  if_error-Sound :
      (a : Answer) {m k : T (Unit {0})}
      → Preserves Sound m
      → Preserves Sound k
      → Preserves Sound (if_error a m k)
  unfolding if_error
  if_error-Sound (ok n) hm hk = hk
  if_error-Sound (failed e) hm hk = search (keeping, on_error-Sound)

  arm-Sound : Preserves Sound arm
  unfolding arm
  arm-Sound = search (keeping)

  listened-Sound : (a : Answer) → Preserves Sound (listened a)
  unfolding listened
  listened-Sound (ok n) = call-Sound _
  listened-Sound (failed e) = close-forget-then-Sound (pure-Preserves (failed e))

  listen_socket-Sound : Preserves Sound listen_socket
  unfolding listen_socket
  listen_socket-Sound = search (keeping, listened-Sound)

  bound-Sound : (b : Bool) (a : Answer) → Preserves Sound (bound b a)
  unfolding bound
  bound-Sound b (ok n) = search (keeping, listen_socket-Sound)
  bound-Sound b (failed e) = close-forget-then-Sound (pure-Preserves (failed e))

  socket_made-Sound : (b : Bool) (a : Answer) → Preserves Sound (socket_made b a)
  unfolding socket_made
  socket_made-Sound b (ok k) = >>=-Preserves (call-Sound _) (bound-Sound b)
  socket_made-Sound b (failed e) = pure-Preserves (failed e)

  dropped-Idle :
      (s : Handle TcpServer)
      → Sound s
      → (d : Option ℕ) → s.fd ≡ d
      → Idle (run (when_open d (call poll_del >> (close_fd >> pure tt))) s)
  unfolding when_open pure
  dropped-Idle s p none n = unheld-Idle s n p
  dropped-Idle s p (some k) e =
      (>>-Ensures (call-Sound poll_del) (>>-Ensures close_fd-Idle (pure-Preserves tt))).leads s p

  drop_socket-Idle : Ensures Sound drop_socket Idle
  unfolding drop_socket ◌>>=◌ fd_of
  drop_socket-Idle = record { leads = λ s p. dropped-Idle s p s.fd refl }

  create_socket-Sound : (b : Bool) → Preserves Sound (create_socket b)
  unfolding create_socket
  create_socket-Sound b =
      >>-Ensures drop_socket-Idle (>>=-Ensures open_fd-Sound (socket_made-Sound b))

  added-Sound : (a : Answer) → Preserves Sound (added a)
  unfolding added
  added-Sound (ok n) = ask-Sound _
  added-Sound (failed e) = search (keeping, on_error-Sound)

  pub create_service-Sound : Preserves Sound create_service
  unfolding create_service
  create_service-Sound =
      search (keeping, create_socket-Sound, if_error-Sound, arm-Sound, added-Sound) depth 9

  registered-Sound : (b : Bool) → Preserves Sound (registered b)
  unfolding registered
  registered-Sound true = search (keeping, create_service-Sound)
  registered-Sound false = search (keeping)

  named-Sound : (a : Answer) → Preserves Sound (named a)
  unfolding named
  named-Sound (ok zero) = search (keeping, registered-Sound)
  named-Sound (ok (suc n)) = search (keeping)
  named-Sound (failed e) = search (keeping, registered-Sound)

  claimed-Sound : (n : ℕ) → Preserves Sound (claimed n)
  unfolding claimed
  claimed-Sound zero = search (keeping, registered-Sound)
  claimed-Sound (suc n) = search (keeping, named-Sound)

  pub create-Sound : Preserves Sound create
  unfolding create create_prim
  create-Sound =
      search (keeping, create_socket-Sound, claimed-Sound, if_error-Sound, arm-Sound) depth 9

  use_address-Sound : (port family : ℕ) → Preserves Sound (use_address port family)
  unfolding use_address
  use_address-Sound port family = search (keeping, create-Sound)

  init_with-Sound :
      (port family : ℕ) (text : Option String) (a : Option Address)
      → Preserves Sound (init_with port family text a)
  unfolding init_with
  init_with-Sound port family none a = use_address-Sound port family
  init_with-Sound port family (some text) none = ask-Sound _
  init_with-Sound port family (some text) (some a) = search (keeping, use_address-Sound)

  pub init-Sound :
      (parse : String → ℕ → Option Address) (port family : ℕ)
      → Preserves Sound (init parse port family)
  unfolding init
  init-Sound parse port family =
      >>=-Preserves (gets-Preserves _) (λ text. init_with-Sound port family text _)

  pub resolved-Sound :
      (found : List Address) (family port : ℕ) → Preserves Sound (resolved found family port)
  unfolding resolved
  resolved-Sound found family port = search (keeping, create-Sound)

  pub on_collision-Sound : Preserves Sound on_collision
  unfolding on_collision
  on_collision-Sound = search (keeping, arm-Sound)

  pub on_established-Sound : Preserves Sound on_established
  unfolding on_established
  on_established-Sound = search (keeping, listen_socket-Sound, if_error-Sound, arm-Sound)

  pub on_failure-Sound : Preserves Sound on_failure
  unfolding on_failure
  on_failure-Sound = search (keeping, on_error-Sound, arm-Sound)
