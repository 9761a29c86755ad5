-- ===== src/Endpoints/Udp/Server/Streams.antt =====
-- The descriptor of UdpServerImpl in src/src/impl/udpsvr.h while its streams are read and written,
-- and in the events of the loop.
use Prim.Native.String.{String}
use uav_router.Base.{ℕ, zero, suc, false, Option, none, some, [], ◌∷◌, Bytes, Map}
use uav_router.Endpoints.Os.{Os, Answer, ok, failed}
use uav_router.Endpoints.Triples.{
  Preserves, >>=-Preserves, >>-Preserves, pure-Preserves, gets-Preserves, choose-Preserves,
}
use uav_router.Endpoints.Descriptors.{keeping, Owned, call-Sound}
use uav_router.Endpoints.Dispatch.{Handling, handled, not_handled}
use uav_router.Endpoints.Dispatched.{Kept}
use uav_router.Endpoints.Udp.Server.{
  UdpStream, U, Net, sent, write_at, write_on, write, make_stream, deliver, while_alive, received,
  queried, epoll_in, wake, wake_all, epoll_out, remove_stream, svc_removed, poll_methods, sender_of,
}
use uav_router.Endpoints.Udp.Server.Owned.{call_at-Owned, destroy-Owned, on_error-Owned}

module _ ⦃os : Os⦄ where
  sent-Owned : (name : String) (a : Answer) → Preserves Owned (sent name a)
  unfolding sent
  sent-Owned name (ok n) = search (keeping)
  sent-Owned name (failed e) = search (keeping, on_error-Owned)

  write_at-Owned :
      (name : String) (buf : Bytes) (d : Option ℕ) → Preserves Owned (write_at name buf d)
  unfolding write_at
  write_at-Owned name buf none = pure-Preserves (failed 0)
  write_at-Owned name buf (some k) = >>=-Preserves (call_at-Owned _ _) (sent-Owned name)

  write_on-Owned :
      (name : String) (buf : Bytes) (c : Option UdpStream) → Preserves Owned (write_on name buf c)
  unfolding write_on
  write_on-Owned name buf none = pure-Preserves (failed 0)
  write_on-Owned name buf (some c) =
      choose-Preserves _ (write_at-Owned name buf c.stream_fd) (pure-Preserves (failed 0))

  pub write-Owned : (name : String) (buf : Bytes) → Preserves Owned (write name buf)
  unfolding write
  write-Owned name buf = search (keeping, write_on-Owned)

  make_stream-Owned : (name : String) (c : Option UdpStream) → Preserves Owned (make_stream name c)
  unfolding make_stream
  make_stream-Owned name (some c) = pure-Preserves tt
  make_stream-Owned name none = search (keeping, destroy-Owned) depth 9

  deliver-Owned : (name : String) (bytes : Bytes) → Preserves Owned (deliver name bytes)
  unfolding deliver
  deliver-Owned name bytes = search (keeping, destroy-Owned)

  while_alive-Owned :
      {rest : U (Option Handling)} → Preserves Owned rest → Preserves Owned (while_alive rest)
  unfolding while_alive
  while_alive-Owned h = search (keeping)

  received-Owned :
      (name : String) (a : Answer) {again : U (Option Handling)}
      → Preserves Owned again
      → Preserves Owned (received name a again)
  unfolding received
  received-Owned name (failed e) h = search (keeping, on_error-Owned)
  received-Owned name (ok n) h =
      search (keeping, make_stream-Owned, deliver-Owned, while_alive-Owned) depth 12

  sender_of-Owned : (net : Net) → Preserves Owned (sender_of net)
  unfolding sender_of
  sender_of-Owned net = record { leads = λ s p. p }

  queried-Owned :
      (net : Net) (a : Answer) {again : U (Option Handling)}
      → Preserves Owned again
      → Preserves Owned (queried net a again)
  unfolding queried
  queried-Owned net (failed e) h = search (keeping, on_error-Owned)
  queried-Owned net (ok zero) h = pure-Preserves (some handled)
  queried-Owned net (ok (suc size)) h = search (keeping, sender_of-Owned, received-Owned) depth 12

  epoll_in-Owned : (net : Net) (fuel : ℕ) → Preserves Owned (epoll_in net fuel)
  unfolding epoll_in
  epoll_in-Owned net zero = pure-Preserves none
  epoll_in-Owned net (suc fuel) =
      >>=-Preserves (call-Sound _) (λ a. queried-Owned net a (epoll_in-Owned net fuel))

  wake-Owned : (name : String) (c : Option UdpStream) → Preserves Owned (wake name c)
  unfolding wake
  wake-Owned name none = pure-Preserves tt
  wake-Owned name (some c) = search (keeping, destroy-Owned) depth 9

  wake_all-Owned : (m : Map String UdpStream) → Preserves Owned (wake_all m)
  unfolding wake_all
  wake_all-Owned [] = pure-Preserves (some handled)
  wake_all-Owned ((name, c) ∷ m) =
      >>=-Preserves (gets-Preserves _)
        (λ now. >>-Preserves (wake-Owned name now) (while_alive-Owned (wake_all-Owned m)))

  remove_stream-Owned :
      (name : String) (c : Option UdpStream) → Preserves Owned (remove_stream name c)
  unfolding remove_stream
  remove_stream-Owned name none = pure-Preserves tt
  remove_stream-Owned name (some c) = search (keeping, destroy-Owned) depth 9

  pub svc_removed-Owned : (name : String) → Preserves Owned (svc_removed name)
  unfolding svc_removed
  svc_removed-Owned name = search (keeping, remove_stream-Owned)

  pub methods-Owned : (net : Net) (fuel : ℕ) → Kept Owned (poll_methods net fuel)
  unfolding poll_methods epoll_out
  methods-Owned net fuel = record {
    epoll_event = λ evs. pure-Preserves false;
    epoll_in = epoll_in-Owned net fuel;
    epoll_out = >>=-Preserves (gets-Preserves _) wake_all-Owned;
    epoll_pri = pure-Preserves (some not_handled);
    epoll_err = pure-Preserves (some not_handled);
    epoll_hup = pure-Preserves (some not_handled);
    epoll_rdhup = pure-Preserves (some not_handled);
  }
