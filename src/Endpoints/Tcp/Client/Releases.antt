-- ===== src/Endpoints/Tcp/Client/Releases.antt =====
-- What can happen to a TcpClientImpl of src/src/impl/tcpcli.h, and its descriptors.
use mathlib.Core.Option.{none-ne-some}
use mathlib.Core.Bool.{false≢true}
use Prim.Native.String.{String}
use uav_router.Base.{ℕ, Bool, none, List, [], ◌∷◌, Bytes}
use uav_router.Endpoints.Os.{Os}
use uav_router.Endpoints.Handle.{run, ◌>>◌, pure, modify}
use uav_router.Endpoints.Triples.{Preserves, >>-Ensures, >>-Preserves, pure-Preserves}
use uav_router.Endpoints.Descriptors.{Owned, Freed, ask-Sound, modify-Sound}
use uav_router.Endpoints.Dispatch.{Events, dispatch}
use uav_router.Endpoints.Dispatched.{dispatch-Preserves}
use uav_router.Endpoints.Tcp.Server.{Address}
use uav_router.Endpoints.Tcp.Client.{
  C, Naming, set_client, init, init_service, resolved, timed, on_create, on_collision,
  on_established, on_failure, svc_resolved, svc_removed, write, destroy, poll_methods, construct,
}
use uav_router.Endpoints.Tcp.Client.Owned.{
  SparesClose, destroy-Owned, destroy-Freed, resolved-Owned, init_service-Owned, timed-Owned,
  on_create-Owned, on_collision-Owned, on_established-Owned, on_failure-Owned, svc_resolved-Owned,
  svc_removed-Owned,
}
use uav_router.Endpoints.Tcp.Client.Streams.{write-Owned, methods-Owned}

-- `dropped`: nobody holds the stream any more.
pub data Step : Type 0 where
  initialized timed_out group_created collided established group_lost dropped released : Step
  service_wanted : String → List Address → Step
  looked_up : List Address → Step
  service_found : String → ℕ → Address → Step
  service_gone : String → Step
  written : Bytes → Step
  polled : ℕ → Events → Step

module _ ⦃os : Os⦄ (naming : Naming) where
  unfoldable pub perform : Step → C (Unit {0})
  unfolding ◌>>◌ pure
  perform initialized = do init naming; pure tt
  perform (service_wanted name known) = do init_service naming name known; pure tt
  perform (looked_up found) = resolved naming found
  perform timed_out = timed naming
  perform group_created = on_create naming
  perform collided = on_collision naming
  perform established = on_established naming
  perform group_lost = on_failure naming
  perform (service_found name itf a) = svc_resolved naming name itf a
  perform (service_gone name) = svc_removed naming name
  perform (written buf) = do write buf; pure tt
  perform dropped = modify (set_client none)
  perform released = destroy
  perform (polled fuel evs) = do dispatch (poll_methods naming fuel) evs; pure tt

  unfoldable pub perform_all : List Step → C (Unit {0})
  unfolding ◌>>◌ pure
  perform_all [] = pure tt
  perform_all (step ∷ steps) = do perform step; perform_all steps

  module _ (spares : SparesClose os) where
    perform-Owned : (step : Step) → Preserves Owned (perform step)
    unfolding perform init
    perform-Owned initialized = >>-Preserves (ask-Sound _) (pure-Preserves tt)
    perform-Owned (service_wanted name known) =
        >>-Preserves (init_service-Owned spares naming name known) (pure-Preserves tt)
    perform-Owned (looked_up found) = resolved-Owned spares naming found
    perform-Owned timed_out = timed-Owned spares naming
    perform-Owned group_created = on_create-Owned spares naming
    perform-Owned collided = on_collision-Owned spares naming
    perform-Owned established = on_established-Owned spares naming
    perform-Owned group_lost = on_failure-Owned spares naming
    perform-Owned (service_found name itf a) = svc_resolved-Owned spares naming name itf a
    perform-Owned (service_gone name) = svc_removed-Owned spares naming name
    perform-Owned (written buf) = >>-Preserves (write-Owned spares buf) (pure-Preserves tt)
    perform-Owned dropped = modify-Sound _
    perform-Owned released = destroy-Owned spares
    perform-Owned (polled fuel evs) =
        >>-Preserves (dispatch-Preserves (methods-Owned spares naming fuel) evs) (pure-Preserves tt)

    perform_all-Owned : (steps : List Step) → Preserves Owned (perform_all steps)
    unfolding perform_all
    perform_all-Owned [] = pure-Preserves tt
    perform_all-Owned (step ∷ steps) = >>-Preserves (perform-Owned step) (perform_all-Owned steps)

  -- Where an error callback that reports a failure of `close` does not destroy the client, a client
  -- that connects again and again, through failures of every kind, closes each of its sockets once at
  -- most and has one open at most, its own; after its destructor has run last, none is open.
  pub client-Owned :
      SparesClose os
      → (zeroconf counted : Bool) (tags : List (String × String)) (steps : List Step)
      → Owned (run (perform_all steps) (construct zeroconf counted tags))
        × Freed (run (perform_all steps >> destroy) (construct zeroconf counted tags))
  unfolding construct
  client-Owned spares zeroconf counted tags steps =
      let start : Owned (construct zeroconf counted tags) = record {
        disciplined = tt;
        held = λ k h. absurd (none-ne-some k h);
        only = λ k o. absurd (false≢true o);
      } in
      (
        (perform_all-Owned spares steps).leads _ start,
        (>>-Ensures (perform_all-Owned spares steps) (destroy-Freed spares)).leads _ start,
      )
