-- ===== src/Endpoints/Tcp/Stream/Steps.antt =====
-- What can happen to a stream of TCPServerStream in src/src/impl/tcpsvr.h: the event loop reports
-- events, others write to it, and its owner lets it go.
use uav_router.Base.{ℕ, List, [], ◌∷◌, Bytes}
use uav_router.Endpoints.Os.{Os}
use uav_router.Endpoints.Handle.{Handle, ◌>>◌, pure}
use uav_router.Endpoints.Triples.{Preserves, >>-Preserves, pure-Preserves}
use uav_router.Endpoints.Dispatch.{Events, dispatch}
use uav_router.Endpoints.Dispatched.{Kept, dispatch-Preserves}
use uav_router.Endpoints.Tcp.Stream.{ServerStream, S, poll_methods, write, destroy}

-- `polled` has the fuel for epollIN.
pub data Step : Type 0 where
  polled : ℕ → Events → Step
  written : Bytes → Step
  released : Step

module _ ⦃os : Os⦄ where
  unfoldable pub perform : Step → S (Unit {0})
  unfolding ◌>>◌ pure poll_methods write destroy dispatch
  perform (polled fuel evs) = do dispatch (poll_methods fuel) evs; pure tt
  perform (written buf) = do write buf; pure tt
  perform released = destroy

  unfoldable pub perform_all : List Step → S (Unit {0})
  unfolding ◌>>◌ pure
  perform_all [] = pure tt
  perform_all (step ∷ steps) = do perform step; perform_all steps

  module _ {P : Handle ServerStream → Type 0} (methods : (fuel : ℕ) → Kept P (poll_methods fuel))
      (writes : (buf : Bytes) → Preserves P (write buf)) (releases : Preserves P destroy) where
    perform-Preserves : (step : Step) → Preserves P (perform step)
    unfolding perform
    perform-Preserves (polled fuel evs) =
        >>-Preserves (dispatch-Preserves (methods fuel) evs) (pure-Preserves tt)
    perform-Preserves (written buf) = >>-Preserves (writes buf) (pure-Preserves tt)
    perform-Preserves released = releases

    pub perform_all-Preserves : (steps : List Step) → Preserves P (perform_all steps)
    unfolding perform_all
    perform_all-Preserves [] = pure-Preserves tt
    perform_all-Preserves (step ∷ steps) =
        >>-Preserves (perform-Preserves step) (perform_all-Preserves steps)
