-- ===== src/Endpoints/Dispatched.antt =====
-- What the methods of an object keep, the event loop of src/src/loop.cpp keeps.
use uav_router.Base.{Bool, true, false, Option, none, some}
use uav_router.Endpoints.Handle.{Handle, M}
use uav_router.Endpoints.Triples.{Preserves, >>=-Preserves, pure-Preserves, choose-Preserves}
use uav_router.Endpoints.Dispatch.{
  Handling, handled, not_handled, stop, Events, IoPollable, on_bit, unless_stopped, bits, dispatch,
}

-- Every method preserves P.
pub record Kept {X : Type 0} (P : Handle X → Type 0) (obj : IoPollable X) : Type 0 where
  pub epoll_event : (evs : Events) → Preserves P (obj.epoll_event evs)
  pub epoll_in : Preserves P obj.epoll_in
  pub epoll_out : Preserves P obj.epoll_out
  pub epoll_pri : Preserves P obj.epoll_pri
  pub epoll_err : Preserves P obj.epoll_err
  pub epoll_hup : Preserves P obj.epoll_hup
  pub epoll_rdhup : Preserves P obj.epoll_rdhup

module _ {X : Type 0} {P : Handle X → Type 0} where
  unless_stopped-Preserves :
      {rest : M X (Option Handling)}
      → Preserves P rest
      → (r : Option Handling) → Preserves P (unless_stopped rest r)
  unfolding unless_stopped
  unless_stopped-Preserves h none = pure-Preserves none
  unless_stopped-Preserves h (some stop) = pure-Preserves (some stop)
  unless_stopped-Preserves h (some handled) = h
  unless_stopped-Preserves h (some not_handled) = h

  on_bit-Preserves :
      (b : Bool) {handler rest : M X (Option Handling)}
      → Preserves P handler
      → Preserves P rest
      → Preserves P (on_bit b handler rest)
  unfolding on_bit
  on_bit-Preserves false h k = k
  on_bit-Preserves true h k = >>=-Preserves h (unless_stopped-Preserves k)

  pub dispatch-Preserves :
      {obj : IoPollable X} → Kept P obj → (evs : Events) → Preserves P (dispatch obj evs)
  unfolding dispatch bits
  dispatch-Preserves h evs = >>=-Preserves (h.epoll_event evs) (λ skip.
      choose-Preserves skip (pure-Preserves (some handled)) (
        on_bit-Preserves evs.in_ h.epoll_in (
          on_bit-Preserves evs.out h.epoll_out (
            on_bit-Preserves evs.pri h.epoll_pri (
              on_bit-Preserves evs.err h.epoll_err (
                on_bit-Preserves evs.hup h.epoll_hup
                  (on_bit-Preserves evs.rdhup h.epoll_rdhup (pure-Preserves (some handled)))))))))
