-- ===== src/Endpoints/Tcp/Stream/Sound.antt =====
-- The descriptor of a stream of TCPServerStream in src/src/impl/tcpsvr.h through every method.
use uav_router.Endpoints.Os.{Os}
use uav_router.Endpoints.Triples.{
  Preserves, >>=-Preserves, >>-Preserves, fd_of-Preserves, when_open-Preserves,
}
use uav_router.Endpoints.Descriptors.{
  Sound, call-Sound, fired-Sound, close-forget-Sound, end-Sound, modify-Sound,
}
use uav_router.Endpoints.Tcp.Stream.{cleanup, destroy}
use uav_router.Endpoints.Tcp.Stream.Plain.{Parts, Plain, write-Parts}

module _ ⦃os : Os⦄ where
  pub destroy-Sound : Preserves Sound destroy
  unfolding destroy cleanup
  destroy-Sound =
      >>-Preserves end-Sound
        (>>=-Preserves fd_of-Preserves (λ k. when_open-Preserves k close-forget-Sound))

  instance abbrev pub Sound-Parts : Parts Sound
  Sound-Parts = record {
    calls = call-Sound;
    fires = fired-Sound;
    shuts = close-forget-Sound;
    destroys = destroy-Sound;
  }

  instance abbrev pub Sound-Plain : Plain Sound
  Sound-Plain = record { modifies = λ f h. modify-Sound f; writes = write-Parts modify-Sound }
