-- ===== src/Endpoints/Udp/Server/Releases.antt =====
-- What can happen to a UdpServerImpl of src/src/impl/udpsvr.h, and its descriptors.
use mathlib.Core.Option.{none-ne-some}
use mathlib.Core.Bool.{false≢true}
use Prim.Native.String.{String}
use uav_router.Base.{ℕ, Bool, Option, List, [], ◌∷◌, Bytes}
use uav_router.Endpoints.Os.{Os}
use uav_router.Endpoints.Handle.{run, ◌>>◌, pure, modify}
use uav_router.Endpoints.Triples.{Preserves, >>-Ensures, >>-Preserves, pure-Preserves}
use uav_router.Endpoints.Descriptors.{Owned, Freed, modify-Sound}
use uav_router.Endpoints.Dispatch.{Events, dispatch}
use uav_router.Endpoints.Dispatched.{dispatch-Preserves}
use uav_router.Endpoints.Udp.Server.{
  U, Net, Mode, init, create_service, on_established, on_collision, on_error, svc_removed, write,
  destroy, poll_methods, construct, set_address, set_interface, forget_stream,
}
use uav_router.Endpoints.Udp.Server.Owned.{
  destroy-Owned, destroy-Freed, init-Owned, create_service-Owned, on_established-Owned,
  on_collision-Owned, on_error-Owned,
}
use uav_router.Endpoints.Udp.Server.Streams.{svc_removed-Owned, write-Owned, methods-Owned}

-- `dropped`: nobody holds the stream of a name any more.
pub data Step : Type 0 where
  group_created established group_lost released : Step
  addressed dropped service_gone : String → Step
  interfaced : Option String → ℕ → Step
  initialized collided : ℕ → Mode → Step
  written : String → Bytes → Step
  polled : ℕ → Events → Step

module _ ⦃os : Os⦄ (net : Net) where
  unfoldable pub perform : Step → U (Unit {0})
  unfolding ◌>>◌ pure
  perform (addressed text) = modify (set_address text)
  perform (interfaced itf family) = modify (set_interface itf family)
  perform (initialized port mode) = do init net port mode; pure tt
  perform group_created = create_service
  perform established = on_established
  perform (collided port mode) = on_collision net port mode
  perform group_lost = on_error
  perform (service_gone name) = svc_removed name
  perform (written name buf) = do write name buf; pure tt
  perform (dropped name) = modify (forget_stream name)
  perform released = destroy
  perform (polled fuel evs) = do dispatch (poll_methods net fuel) evs; pure tt

  unfoldable pub perform_all : List Step → U (Unit {0})
  unfolding ◌>>◌ pure
  perform_all [] = pure tt
  perform_all (step ∷ steps) = do perform step; perform_all steps

  perform-Owned : (step : Step) → Preserves Owned (perform step)
  unfolding perform
  perform-Owned (addressed text) = modify-Sound _
  perform-Owned (interfaced itf family) = modify-Sound _
  perform-Owned (initialized port mode) =
      >>-Preserves (init-Owned net port mode) (pure-Preserves tt)
  perform-Owned group_created = create_service-Owned
  perform-Owned established = on_established-Owned
  perform-Owned (collided port mode) = on_collision-Owned net port mode
  perform-Owned group_lost = on_error-Owned
  perform-Owned (service_gone name) = svc_removed-Owned name
  perform-Owned (written name buf) = >>-Preserves (write-Owned name buf) (pure-Preserves tt)
  perform-Owned (dropped name) = modify-Sound _
  perform-Owned released = destroy-Owned
  perform-Owned (polled fuel evs) =
      >>-Preserves (dispatch-Preserves (methods-Owned net fuel) evs) (pure-Preserves tt)

  perform_all-Owned : (steps : List Step) → Preserves Owned (perform_all steps)
  unfolding perform_all
  perform_all-Owned [] = pure-Preserves tt
  perform_all-Owned (step ∷ steps) = >>-Preserves (perform-Owned step) (perform_all-Owned steps)

  -- Whatever the kernel and the callbacks answer, on every path through the set-up of the socket and
  -- its repetition after a collision, a server closes each of its sockets once at most and has one
  -- open at most, its own; destroyed, it leaves none open.
  pub udp_server-Owned :
      (zeroconf : Bool) (steps : List Step)
      → Owned (run (perform_all steps) (construct zeroconf))
        × Freed (run (perform_all steps >> destroy) (construct zeroconf))
  unfolding construct
  udp_server-Owned zeroconf steps =
      let start : Owned (construct zeroconf) = record {
        disciplined = tt;
        held = λ k h. absurd (none-ne-some k h);
        only = λ k o. absurd (false≢true o);
      } in
      (
        (perform_all-Owned steps).leads _ start,
        (>>-Ensures (perform_all-Owned steps) destroy-Freed).leads _ start,
      )
