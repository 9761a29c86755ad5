-- ===== src/Endpoints/Tcp/Stream.antt =====
-- Class TCPServerStream in src/src/impl/tcpsvr.h: the stream of one accepted connection, and
-- `writeable()` of src/src/inc/endpoints.h. A callback may write to the stream while it is called
-- with data or with the news that the stream is writeable, and any callback may destroy the stream.
pub mod Plain
pub mod Sound
pub mod Steps
pub mod Basics
pub mod Releases
pub mod Calm
pub mod Closes
pub mod Once
pub mod Silent
pub mod Drains
use Prim.Native.String.{String}
use uav_router.Base.{
  ℕ, zero, suc, ◌==◌, Bool, true, false, not, ◌||◌, Option, none, some, List, [], ◌∷◌, Bytes,
  length, take, if◌then◌else◌,
}
use uav_router.Stats.Counters.{StatCounters, add}
use uav_router.Endpoints.Os.{
  Os, Callback, Answer, ok, failed, eagain, epipe, query_size, receive, send, socket_error,
  poll_add, poll_del, error, writeable, close, read, opened, fired, register_report,
}
use uav_router.Endpoints.Handle.{
  Handle, M, run, ◌>>=◌, ◌>>◌, pure, fd_of, alive, gets, modify, end, forget, when, when_open,
  choose, event, call, ask, close_fd, ended, fire, newest, replies,
}
use uav_router.Endpoints.Dispatch.{Events, Handling, handled, not_handled, stop, IoPollable}

-- The class declares a flag `_is_writeable` of its own, here `sends`, that hides the one of
-- Writeable.
pub record ServerStream : Type 0 where
  pub is_writeable : Bool
  pub sends : Bool
  pub cnt : StatCounters

abbrev pub S : Type 0 → Type 0
S = M ServerStream

abbrev pub set_writeable : ServerStream → ServerStream
set_writeable x = record x { is_writeable = true }

abbrev pub set_sends : Bool → ServerStream → ServerStream
set_sends b x = record x { sends = b }

abbrev pub count : String → ℕ → ServerStream → ServerStream
count name n x = record x { cnt = add name n x.cnt }

module _ ⦃os : Os⦄ where
  -- cleanup
  unfoldable pub cleanup : S (Unit {0})
  cleanup = do k ← fd_of; when_open k (do close_fd; forget)

  -- ~TCPServerStream
  unfoldable pub destroy : S (Unit {0})
  destroy = do end; cleanup

  unfoldable pub on_error : S (Unit {0})
  on_error = fire destroy error

  -- `on_error(ret)`, which calls back where `ret` is an error
  unfoldable pub on_failure : Answer → S (Unit {0})
  on_failure (ok n) = pure tt
  on_failure (failed e) = on_error

  unfoldable pub on_close : S (Unit {0})
  on_close = fire destroy close

  -- The branch of write for a `send` that returned -1.
  unfoldable pub send_failed : ℕ → S (Unit {0})
  send_failed e =
      when (not (e == eagain))
        (do when (e == epipe) (do call poll_del; cleanup; on_close); on_error)

  unfoldable pub sent : Bytes → Answer → S Answer
  sent buf (failed e) = do modify (set_sends false); send_failed e; pure (failed e)
  sent buf (ok n) = do modify (set_sends (n == length buf)); modify (count "write" n); pure (ok n)

  -- write
  unfoldable pub write : Bytes → S Answer
  write buf = do
    w ← gets (λ x. x.sends)
    choose w (do n ← call (send buf); sent buf n) (pure (ok 0))

  -- What a callback writes to the stream.
  unfoldable pub write_each : List Bytes → S (Unit {0})
  write_each [] = pure tt
  write_each (buf ∷ bufs) = do write buf; write_each bufs

  -- A callback that may write to the stream before it returns.
  unfoldable pub call_back : Callback → S (Unit {0})
  call_back c = do event (fired c); gone ← ended; bufs ← replies; write_each bufs; when gone destroy

  -- writeable
  unfoldable pub writeable_again : S (Unit {0})
  writeable_again = do
    w ← gets (λ x. x.is_writeable)
    when (not w) (do modify (set_writeable); call_back writeable)

  -- The branch of the loop of epollIN for a `recv`, and the rest of the loop.
  unfoldable pub received : ℕ → Answer → S (Option Handling) → S (Option Handling)
  received size (failed e) again =
      choose (e == eagain) again (do on_error; there ← alive; choose there again (pure (some stop)))
  received size (ok n) again = do
    bytes ← newest
    call_back (read (take n bytes))
    modify (count "read" n)
    there ← alive
    choose there again (pure (some stop))

  -- No more is there to be read.
  unfoldable pub drained : S (Option Handling)
  drained = do ret ← call poll_del; on_failure ret; cleanup; on_close; pure (some stop)

  unfoldable pub queried : Answer → S (Option Handling) → S (Option Handling)
  queried (failed e) again = do
    on_error
    there ← alive
    pure (some (if there then handled else stop))
  queried (ok zero) again = drained
  queried (ok (suc size)) again = do n ← call (receive (suc size)); received (suc size) n again

  -- epollIN, with fuel for its rounds
  unfoldable pub epoll_in : ℕ → S (Option Handling)
  epoll_in zero = pure none
  epoll_in (suc fuel) = do size ← call query_size; queried size (epoll_in fuel)

  unfoldable pub epoll_out : S (Option Handling)
  epoll_out = do writeable_again; there ← alive; pure (some (if there then handled else stop))

  unfoldable pub epoll_err : S (Option Handling)
  epoll_err = pure (some handled)

  -- The branch of epollHUP for a descriptor that is open.
  unfoldable pub closing : S (Option Handling)
  closing = do cleanup; on_close; pure (some handled)

  unfoldable pub hung_up : Answer → S (Option Handling)
  hung_up (ok n) = closing
  hung_up (failed e) = do on_error; there ← alive; choose there closing (pure (some stop))

  unfoldable pub hup_if : Option ℕ → S (Option Handling)
  hup_if none = pure (some handled)
  hup_if (some j) = call poll_del >>= hung_up

  unfoldable pub epoll_hup : S (Option Handling)
  epoll_hup = fd_of >>= hup_if

  -- check: the error that the socket holds, or why it cannot be read
  unfoldable pub error_of : Answer → Answer
  error_of (failed e) = failed e
  error_of (ok zero) = ok zero
  error_of (ok (suc e)) = failed (suc e)

  unfoldable pub check : S Answer
  check = do ret ← call socket_error; pure (error_of ret)

  unfoldable pub epoll_event : Events → S Bool
  epoll_event evs = do when (evs.in_ || evs.err) (do err ← check; on_failure err); pure false

  unfoldable pub poll_methods : ℕ → IoPollable ServerStream
  poll_methods fuel = record {
    epoll_event = epoll_event;
    epoll_in = epoll_in fuel;
    epoll_out = epoll_out;
    epoll_pri = pure (some not_handled);
    epoll_err = epoll_err;
    epoll_hup = epoll_hup;
    epoll_rdhup = pure (some not_handled);
  }

  -- TCPServerStream: the stream of descriptor k, which is open
  unfoldable pub construct : String → ℕ → Bool → List (String × String) → Handle ServerStream
  construct name k counted tags =
      run (do call poll_add; when counted (do ask register_report; pure tt))
        (record {
          fd = some k;
          exists = true;
          history = opened k ∷ [];
          own = record {
            is_writeable = false;
            sends = true;
            cnt = record { name = "tcpsvr"; tags = ("endpoint", name) ∷ tags; values = [] };
          };
        })
