-- ===== src/Endpoints/Tcp/Stream/Plain.antt =====
-- The methods of TCPServerStream in src/src/impl/tcpsvr.h, for any predicate on the stream that their
-- parts preserve.
use Prim.Native.String.{String}
use uav_router.Base.{ℕ, zero, suc, Option, none, some, List, [], ◌∷◌, Bytes, ◌≡◌, refl}
use uav_router.Endpoints.Os.{Os, Call, Callback, Answer, ok, failed, fired}
use uav_router.Endpoints.Handle.{Handle, M, ◌>>◌, call, close_fd, forget, event, modify}
use uav_router.Endpoints.Triples.{
  triples, Preserves, >>=-Preserves, >>-Preserves, pure-Preserves, fd_of-Preserves,
}
use uav_router.Endpoints.Dispatch.{Events, Handling, handled, not_handled}
use uav_router.Endpoints.Dispatched.{Kept}
use uav_router.Endpoints.Tcp.Stream.{
  ServerStream, set_writeable, count, hup_if, poll_methods, cleanup, destroy, on_error, on_failure,
  on_close, send_failed, sent, write, write_each, call_back, writeable_again, received, drained,
  queried, epoll_in, epoll_out, epoll_err, closing, hung_up, epoll_hup, check, epoll_event,
}

pub record Parts ⦃os : Os⦄ (P : Handle ServerStream → Type 0) : Type 0 where
  pub calls : (c : Call) → Preserves P (call c)
  pub fires : (c : Callback) → Preserves P (event (fired c))
  pub shuts : Preserves P (close_fd >> forget)
  pub destroys : Preserves P destroy

-- The flag that write looks at is left as it is.
abbrev pub Leaves : (ServerStream → ServerStream) → Type 0
Leaves f = (x : ServerStream) → (f x).sends ≡ x.sends

pub record Plain ⦃os : Os⦄ (P : Handle ServerStream → Type 0) : Type 0 where
  pub modifies : (f : ServerStream → ServerStream) → Leaves f → Preserves P (modify f)
  pub writes : (buf : Bytes) → Preserves P (write buf)

module _ ⦃os : Os⦄ {P : Handle ServerStream → Type 0} ⦃b : Parts P⦄ where
  pub call-Plain : (c : Call) → Preserves P (call c)
  call-Plain = b.calls

  fired-Plain : (c : Callback) → Preserves P (event (fired c))
  fired-Plain = b.fires

  shut-Plain : Preserves P (close_fd >> forget)
  shut-Plain = b.shuts

  destroy-Plain : Preserves P destroy
  destroy-Plain = b.destroys

  ruleset parts = (triples, call-Plain, fired-Plain, shut-Plain, destroy-Plain)

  cleanup-Plain : Preserves P cleanup
  unfolding cleanup
  cleanup-Plain = search (parts)

  pub on_error-Plain : Preserves P on_error
  unfolding on_error
  on_error-Plain = search (parts)

  pub on_close-Plain : Preserves P on_close
  unfolding on_close
  on_close-Plain = search (parts)

  pub on_failure-Plain : (a : Answer) → Preserves P (on_failure a)
  unfolding on_failure
  on_failure-Plain (ok n) = search (parts)
  on_failure-Plain (failed e) = on_error-Plain

  ruleset callbacks = (parts, cleanup-Plain, on_error-Plain, on_close-Plain, on_failure-Plain)

  pub send_failed-Plain : (e : ℕ) → Preserves P (send_failed e)
  unfolding send_failed
  send_failed-Plain e = search (callbacks) depth 9

  module _ (all : (f : ServerStream → ServerStream) → Preserves P (modify f)) where
    sent-Plain : (buf : Bytes) (a : Answer) → Preserves P (sent buf a)
    unfolding sent
    sent-Plain buf (failed e) = search (callbacks, all, send_failed-Plain)
    sent-Plain buf (ok n) = search (callbacks, all)

    pub write-Parts : (buf : Bytes) → Preserves P (write buf)
    unfolding write
    write-Parts buf = search (callbacks, sent-Plain)

module _ ⦃os : Os⦄ {P : Handle ServerStream → Type 0} ⦃b : Parts P⦄ ⦃w : Plain P⦄ where
  write-Plain : (buf : Bytes) → Preserves P (write buf)
  write-Plain = w.writes

  set_writeable-Plain : Preserves P (modify set_writeable)
  set_writeable-Plain = w.modifies set_writeable (λ x. refl)

  count-Plain : (name : String) (n : ℕ) → Preserves P (modify (count name n))
  count-Plain name n = w.modifies (count name n) (λ x. refl)

  write_each-Plain : (bufs : List Bytes) → Preserves P (write_each bufs)
  unfolding write_each
  write_each-Plain [] = search (callbacks)
  write_each-Plain (buf ∷ bufs) = >>-Preserves (write-Plain buf) (write_each-Plain bufs)

  pub call_back-Plain : (c : Callback) → Preserves P (call_back c)
  unfolding call_back
  call_back-Plain c = search (callbacks, write_each-Plain) depth 9

  epoll_out-Plain : Preserves P epoll_out
  unfolding epoll_out writeable_again
  epoll_out-Plain = search (callbacks, set_writeable-Plain, call_back-Plain)

  received-Plain :
      (size : ℕ) (a : Answer) {again : M ServerStream (Option Handling)}
      → Preserves P again
      → Preserves P (received size a again)
  unfolding received
  received-Plain size (failed e) h = search (callbacks)
  received-Plain size (ok n) h = search (callbacks, count-Plain, call_back-Plain) depth 9

  queried-Plain :
      (a : Answer) {again : M ServerStream (Option Handling)}
      → Preserves P again
      → Preserves P (queried a again)
  unfolding queried drained
  queried-Plain (failed e) h = search (callbacks)
  queried-Plain (ok zero) h = search (callbacks)
  queried-Plain (ok (suc size)) h = search (callbacks, received-Plain)

  pub epoll_in-Plain : (fuel : ℕ) → Preserves P (epoll_in fuel)
  unfolding epoll_in
  epoll_in-Plain zero = search (parts)
  epoll_in-Plain (suc fuel) =
      >>=-Preserves (call-Plain _) (λ a. queried-Plain a (epoll_in-Plain fuel))

  closing-Plain : Preserves P closing
  unfolding closing
  closing-Plain = search (callbacks)

  hung_up-Plain : (a : Answer) → Preserves P (hung_up a)
  unfolding hung_up
  hung_up-Plain (ok n) = closing-Plain
  hung_up-Plain (failed e) = search (callbacks, closing-Plain)

  hup_if-Plain : (k : Option ℕ) → Preserves P (hup_if k)
  unfolding hup_if
  hup_if-Plain none = pure-Preserves (some handled)
  hup_if-Plain (some j) = >>=-Preserves (call-Plain _) hung_up-Plain

  epoll_hup-Plain : Preserves P epoll_hup
  unfolding epoll_hup
  epoll_hup-Plain = >>=-Preserves fd_of-Preserves hup_if-Plain

  epoll_event-Plain : (evs : Events) → Preserves P (epoll_event evs)
  unfolding epoll_event check
  epoll_event-Plain evs = search (callbacks) depth 9

  pub methods-Plain : (fuel : ℕ) → Kept P (poll_methods fuel)
  unfolding poll_methods epoll_err
  methods-Plain fuel = record {
    epoll_event = epoll_event-Plain;
    epoll_in = epoll_in-Plain fuel;
    epoll_out = epoll_out-Plain;
    epoll_pri = pure-Preserves (some not_handled);
    epoll_err = pure-Preserves (some handled);
    epoll_hup = epoll_hup-Plain;
    epoll_rdhup = pure-Preserves (some not_handled);
  }
