-- ===== src/Endpoints/Udp/Server/Owned.antt =====
-- The descriptor of UdpServerImpl in src/src/impl/udpsvr.h through every method and callback.
use mathlib.Core.Option.{none-ne-some}
use Prim.Native.String.{String}
use uav_router.Base.{ℕ, Bool, Option, none, some, [], ◌∷◌, Map, ◌≡◌, refl}
use uav_router.Endpoints.Os.{Os, Call, Answer, ok, failed, error, poll_del}
use uav_router.Endpoints.Handle.{
  Handle, run, ◌>>=◌, ◌>>◌, pure, event, call, call_at, forget, close_fd, fd_of, when_open, end,
  gets,
}
use uav_router.Endpoints.Triples.{
  Ensures, Preserves, >>=-Ensures, >>-Ensures, >>=-Preserves, >>-Preserves, pure-Preserves,
  fd_of-Preserves, gets-Preserves, when_open-Preserves,
}
use uav_router.Endpoints.Descriptors.{
  keeping, Owned, Freed, call-Sound, ask-Sound, fired-Sound, open_fd-Sound, end-Sound, modify-Sound,
  close_fd-Idle, forget-Sound,
}
use uav_router.Endpoints.Closing.{close-forget-then-Sound, unheld-Idle, forget-Idle, fired-Idle}
use uav_router.Endpoints.Tcp.Server.{Address}
use uav_router.Endpoints.Udp.Server.{
  UdpServer, UdpStream, Net, Mode, unicast, broadcast, multicast, close_streams, closed_with,
  destroy, on_error, report, leave_setup, then_call, reused, setup_for, socket_made, drop_socket,
  setup_fd, added, create_service, on_established, announce, set_up, init, on_collision,
}

module _ ⦃os : Os⦄ where
  close_streams-Owned : (m : Map String UdpStream) → Preserves Owned (close_streams m)
  unfolding close_streams
  close_streams-Owned [] = pure-Preserves tt
  close_streams-Owned ((name, c) ∷ m) =
      >>-Preserves (fired-Sound _) (>>-Preserves (modify-Sound _) (close_streams-Owned m))

  closed_with-Freed : (a : Answer) → Preserves Freed (closed_with a)
  unfolding closed_with
  closed_with-Freed (ok n) = pure-Preserves tt
  closed_with-Freed (failed e) = >>-Preserves (fired-Idle error) (pure-Preserves tt)

  pub call_at-Owned : (d : Option ℕ) (c : Call) → Preserves {X = UdpServer} Owned (call_at d c)
  unfolding call_at event
  call_at-Owned d c = record {
    leads = λ s p. record {
      disciplined = (λ k h. absurd (none-ne-some k h), p.disciplined);
      held = p.held;
      only = p.only;
    };
  }

  shutting :
      {Q : Handle UdpServer → Type 0} (m : Map String UdpStream)
      → Ensures Freed forget Q
      → Ensures Owned
          (call poll_del >> (close_streams m >> (close_fd >>= λ ret. closed_with ret >> forget)))
          Q
  shutting m h = >>-Ensures (call-Sound poll_del) (
      >>-Ensures (close_streams-Owned m)
        (>>=-Ensures close_fd-Idle (λ ret. >>-Ensures (closed_with-Freed ret) h)))

  pub destroy-Owned : Preserves Owned destroy
  unfolding destroy
  destroy-Owned = >>-Preserves end-Sound (
      >>=-Preserves fd_of-Preserves (λ k.
        >>=-Preserves (gets-Preserves _) (λ m. when_open-Preserves k (shutting m forget-Sound))))

  when_open-Freed :
      (s : Handle UdpServer)
      → Owned s
      → (m : Map String UdpStream) (d : Option ℕ) → s.fd ≡ d
      → Freed (
          run
            (when_open d (
              call poll_del
              >> (close_streams m >> (close_fd >>= λ ret. closed_with ret >> forget))))
            s)
  unfolding when_open pure
  when_open-Freed s p m none n = unheld-Idle s n p
  when_open-Freed s p m (some k) e = (shutting m forget-Idle).leads s p

  pub destroy-Freed : Ensures Owned destroy Freed
  unfolding destroy ◌>>◌ ◌>>=◌ fd_of gets end
  destroy-Freed = record {
    leads = λ s p. when_open-Freed _ (end-Sound.leads s p) s.own.streams s.fd refl;
  }

  pub on_error-Owned : Preserves Owned on_error
  unfolding on_error
  on_error-Owned = search (keeping, destroy-Owned)

  report-Owned : (a : Answer) → Preserves Owned (report a)
  unfolding report
  report-Owned (ok n) = pure-Preserves tt
  report-Owned (failed e) = on_error-Owned

  leave_setup-Owned : (a : Answer) → Preserves Owned (leave_setup a)
  unfolding leave_setup
  leave_setup-Owned (ok n) = pure-Preserves (ok 0)
  leave_setup-Owned (failed e) = close-forget-then-Sound (pure-Preserves (failed e))

  then_call-Owned : (c : Call) (a : Answer) → Preserves Owned (then_call c a)
  unfolding then_call
  then_call-Owned c (ok n) = call-Sound c
  then_call-Owned c (failed e) = pure-Preserves (failed e)

  reused-Owned : (a : Answer) → Preserves Owned (reused a)
  unfolding reused
  reused-Owned (ok n) = search (keeping, then_call-Owned)
  reused-Owned (failed e) = search (keeping, then_call-Owned) depth 9

  setup_for-Owned : (mode : Mode) (a : Option Address) → Preserves Owned (setup_for mode a)
  unfolding setup_for
  setup_for-Owned mode none = pure-Preserves (failed 99)
  setup_for-Owned unicast (some a) = call-Sound _
  setup_for-Owned broadcast (some a) = search (keeping, then_call-Owned)
  setup_for-Owned multicast (some a) = search (keeping, reused-Owned)

  socket_made-Owned :
      (mode : Mode) (a : Option Address) (r : Answer) → Preserves Owned (socket_made mode a r)
  unfolding socket_made
  socket_made-Owned mode a (ok k) = >>=-Preserves (setup_for-Owned mode a) leave_setup-Owned
  socket_made-Owned mode a (failed e) = pure-Preserves (failed e)

  call_at-Freed : (d : Option ℕ) (c : Call) → Preserves {X = UdpServer} Freed (call_at d c)
  unfolding call_at event
  call_at-Freed d c = record {
    leads = λ s p. record {
      disciplined = (λ k h. absurd (none-ne-some k h), p.disciplined);
      all_closed = p.all_closed;
    };
  }

  dropped-Freed :
      (s : Handle UdpServer)
      → Owned s
      → (d : Option ℕ) → s.fd ≡ d
      → Freed (run (when_open d (close_fd >> (forget >> (call_at none poll_del >> pure tt)))) s)
  unfolding when_open pure
  dropped-Freed s p none n = unheld-Idle s n p
  dropped-Freed s p (some k) e =
      (>>-Ensures close_fd-Idle (
          >>-Ensures forget-Idle
            (>>-Ensures (call_at-Freed none poll_del) (pure-Preserves tt)))).leads
        s p

  drop_socket-Freed : Ensures Owned drop_socket Freed
  unfolding drop_socket ◌>>=◌ fd_of
  drop_socket-Freed = record { leads = λ s p. dropped-Freed s p s.fd refl }

  setup_fd-Owned : (net : Net) (port : ℕ) (mode : Mode) → Preserves Owned (setup_fd net port mode)
  unfolding setup_fd
  setup_fd-Owned net port mode =
      >>-Ensures drop_socket-Freed
        (>>=-Ensures (gets-Preserves _) (λ x. >>=-Ensures open_fd-Sound (socket_made-Owned mode _)))

  added-Owned : (a : Answer) → Preserves Owned (added a)
  unfolding added
  added-Owned (ok n) = ask-Sound _
  added-Owned (failed e) = search (keeping, on_error-Owned)

  pub create_service-Owned : Preserves Owned create_service
  unfolding create_service
  create_service-Owned = search (keeping, added-Owned, report-Owned)

  pub on_established-Owned : Preserves Owned on_established
  unfolding on_established
  on_established-Owned = search (keeping, report-Owned)

  announce-Owned : Preserves Owned announce
  unfolding announce
  announce-Owned = search (keeping) depth 12

  set_up-Owned : (z : Bool) (a : Answer) → Preserves Owned (set_up z a)
  unfolding set_up
  set_up-Owned z (ok n) = search (keeping, announce-Owned)
  set_up-Owned z (failed e) = pure-Preserves (failed e)

  pub init-Owned : (net : Net) (port : ℕ) (mode : Mode) → Preserves Owned (init net port mode)
  unfolding init
  init-Owned net port mode = search (keeping, setup_fd-Owned, set_up-Owned) depth 9

  pub on_collision-Owned :
      (net : Net) (port : ℕ) (mode : Mode) → Preserves Owned (on_collision net port mode)
  unfolding on_collision
  on_collision-Owned net port mode = search (keeping, init-Owned, report-Owned)
