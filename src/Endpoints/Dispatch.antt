-- ===== src/Endpoints/Dispatch.antt =====
-- The methods of IOPollable (src/src/inc/poll.h), and what run of src/src/loop.cpp does with the
-- events that epoll reports for one object.
use uav_router.Base.{Bool, true, false, Option, none, some}
use uav_router.Endpoints.Handle.{M, ◌>>=◌, pure, choose}

pub data Handling : Type 0 where
  not_handled handled stop : Handling

-- The bits of `events[i].events`.
pub record Events : Type 0 where
  pub in_ : Bool
  pub out : Bool
  pub pri : Bool
  pub err : Bool
  pub hup : Bool
  pub rdhup : Bool

-- A method is `none` where the loop in it has used up its fuel.
pub record IoPollable (X : Type 0) : Type 0 where
  pub epoll_event : Events → M X Bool
  pub epoll_in : M X (Option Handling)
  pub epoll_out : M X (Option Handling)
  pub epoll_pri : M X (Option Handling)
  pub epoll_err : M X (Option Handling)
  pub epoll_hup : M X (Option Handling)
  pub epoll_rdhup : M X (Option Handling)

module _ {X : Type 0} where
  unfoldable pub unless_stopped : M X (Option Handling) → Option Handling → M X (Option Handling)
  unfolding pure
  unless_stopped rest none = pure none
  unless_stopped rest (some stop) = pure (some stop)
  unless_stopped rest (some handled) = rest
  unless_stopped rest (some not_handled) = rest

  -- The body of one `if (evs & ...)` and what follows it; STOP leaves the rest out.
  unfoldable pub on_bit :
      Bool → M X (Option Handling) → M X (Option Handling) → M X (Option Handling)
  unfolding ◌>>=◌ unless_stopped
  on_bit false handler rest = rest
  on_bit true handler rest = handler >>= unless_stopped rest

  -- The body of the loop over the events, for the object `obj`.
  unfoldable pub bits : IoPollable X → Events → M X (Option Handling)
  bits obj evs = on_bit evs.in_ obj.epoll_in (
      on_bit evs.out obj.epoll_out (
        on_bit evs.pri obj.epoll_pri (
          on_bit evs.err obj.epoll_err (
            on_bit evs.hup obj.epoll_hup
              (on_bit evs.rdhup obj.epoll_rdhup (pure (some handled)))))))

  unfoldable pub dispatch : IoPollable X → Events → M X (Option Handling)
  unfolding ◌>>=◌ choose bits
  dispatch obj evs = do skip ← obj.epoll_event evs; choose skip (pure (some handled)) (bits obj evs)
