-- ===== src/Endpoints/Udp/Tests.antt =====
-- Examples for src/src/impl/udpsvr.h.
use uav_router.Base.{false, none, some, List, [], ◌∷◌}
use uav_router.Endpoints.Handle.{run, ◌>>◌}
use uav_router.Endpoints.Descriptors.{Owned, Freed}
use uav_router.Endpoints.Tcp.Tests.{kernel, readable}
use uav_router.Endpoints.Tcp.Server.{any}
use uav_router.Endpoints.Udp.Server
use uav_router.Endpoints.Udp.Server.{Net, unicast}
use uav_router.Endpoints.Udp.Server.Releases.{
  Step, initialized, polled, written, collided, service_gone, perform_all, udp_server-Owned,
}

abbrev net : Net
net = record {
  parse = λ text port. none;
  local_of = λ itf family port. none;
  broadcast_of = λ itf port. none;
  any_of = λ family port. some (any family port);
  sender = λ h. "10.0.0.1:14550";
}

-- A datagram arrives, is answered, the socket is made again, and the peer goes.
abbrev steps : List Step
steps =
    initialized 14550 unicast
    ∷ polled 4 readable
    ∷ written "10.0.0.1:14550" (7 ∷ 8 ∷ [])
    ∷ collided 14550 unicast
    ∷ service_gone "10.0.0.1:14550"
    ∷ []

udp_server-Owned_example :
    Owned (run (perform_all net steps) (Server.construct false))
    × Freed (run (perform_all net steps >> Server.destroy) (Server.construct false))
udp_server-Owned_example = udp_server-Owned net false steps
