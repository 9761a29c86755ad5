-- ===== src/Endpoints/Tcp/Client/Streams.antt =====
-- The descriptor of TcpClientImpl in src/src/impl/tcpcli.h while its stream is read and written, and
-- in the events of the loop.
use mathlib.Core.Option.{none-ne-some}
use uav_router.Base.{ℕ, zero, suc, false, Option, none, some, List, [], ◌∷◌, Bytes}
use uav_router.Endpoints.Os.{Os, Call, Callback, Answer, ok, failed}
use uav_router.Endpoints.Handle.{event, call_at}
use uav_router.Endpoints.Triples.{Preserves, >>=-Preserves, >>-Preserves, pure-Preserves}
use uav_router.Endpoints.Descriptors.{keeping, Owned, call-Sound}
use uav_router.Endpoints.Dispatch.{Handling, handled, not_handled}
use uav_router.Endpoints.Dispatched.{Kept}
use uav_router.Endpoints.Tcp.Client.{
  TcpClient, C, ClientStream, Naming, sent, write_on, write, write_each, call_back, make_if, cli,
  received, queried, read_all, failing, epoll_in, epoll_out, epoll_err, poll_methods,
}
use uav_router.Endpoints.Tcp.Client.Owned.{
  SparesClose, destroy-Owned, on_error-Owned, epoll_rdhup-Owned,
}

module _ ⦃os : Os⦄ (spares : SparesClose os) where
  sent-Owned : (buf : Bytes) (a : Answer) → Preserves Owned (sent buf a)
  unfolding sent
  sent-Owned buf (ok n) = search (keeping)
  sent-Owned buf (failed e) = search (keeping, on_error-Owned)

  -- A write goes to the descriptor that the stream remembers, and opens and closes none.
  call_at-Owned : (d : Option ℕ) (c : Call) → Preserves {X = TcpClient} Owned (call_at d c)
  unfolding call_at event
  call_at-Owned d c = record {
    leads = λ s p. record {
      disciplined = (λ k h. absurd (none-ne-some k h), p.disciplined);
      held = p.held;
      only = p.only;
    };
  }

  write_on-Owned : (buf : Bytes) (c : Option ClientStream) → Preserves Owned (write_on buf c)
  unfolding write_on
  write_on-Owned buf none = pure-Preserves (ok 0)
  write_on-Owned buf (some c) = search (keeping, call_at-Owned, sent-Owned)

  pub write-Owned : (buf : Bytes) → Preserves Owned (write buf)
  unfolding write
  write-Owned buf = search (keeping, write_on-Owned)

  write_each-Owned : (bufs : List Bytes) → Preserves Owned (write_each bufs)
  unfolding write_each
  write_each-Owned [] = pure-Preserves tt
  write_each-Owned (buf ∷ bufs) = >>-Preserves (write-Owned buf) (write_each-Owned bufs)

  call_back-Owned : (c : Callback) → Preserves Owned (call_back c)
  unfolding call_back
  call_back-Owned c = search (keeping, write_each-Owned, destroy-Owned) depth 9

  make_if-Owned : (c : Option ClientStream) → Preserves Owned (make_if c)
  unfolding make_if
  make_if-Owned (some c) = pure-Preserves tt
  make_if-Owned none = search (keeping, call_back-Owned) depth 12

  cli-Owned : Preserves Owned cli
  unfolding cli
  cli-Owned = search (keeping, make_if-Owned)

  received-Owned :
      (a : Answer) {again : C (Option Handling)}
      → Preserves Owned again
      → Preserves Owned (received a again)
  unfolding received
  received-Owned (failed e) h = search (keeping, on_error-Owned) depth 9
  received-Owned (ok n) h = search (keeping, cli-Owned, call_back-Owned) depth 12

  queried-Owned :
      (a : Answer) {again : C (Option Handling)}
      → Preserves Owned again
      → Preserves Owned (queried a again)
  unfolding queried
  queried-Owned (failed e) h = search (keeping, on_error-Owned) depth 9
  queried-Owned (ok zero) h = pure-Preserves (some handled)
  queried-Owned (ok (suc size)) h = search (keeping, received-Owned)

  read_all-Owned : (fuel : ℕ) → Preserves Owned (read_all fuel)
  unfolding read_all
  read_all-Owned zero = pure-Preserves none
  read_all-Owned (suc fuel) =
      >>=-Preserves (call-Sound _) (λ a. queried-Owned a (read_all-Owned fuel))

  failing-Owned : (a : Answer) → Preserves Owned (failing a)
  unfolding failing
  failing-Owned (ok n) = pure-Preserves false
  failing-Owned (failed e) = search (keeping, on_error-Owned)

  pub methods-Owned : (naming : Naming) (fuel : ℕ) → Kept Owned (poll_methods naming fuel)
  unfolding poll_methods epoll_in epoll_out epoll_err
  methods-Owned naming fuel = record {
    epoll_event = λ evs. pure-Preserves false;
    epoll_in = search (keeping, failing-Owned, read_all-Owned) depth 9;
    epoll_out = search (keeping, cli-Owned) depth 9;
    epoll_pri = pure-Preserves (some not_handled);
    epoll_err = search (keeping, failing-Owned) depth 9;
    epoll_hup = epoll_rdhup-Owned spares naming;
    epoll_rdhup = epoll_rdhup-Owned spares naming;
  }
