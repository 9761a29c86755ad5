-- ===== src/Endpoints/Tcp/Stream/Releases.antt =====
-- The stream of an accepted connection (TCPServerStream in src/src/impl/tcpsvr.h) and its descriptor.
use Prim.Native.String.{String}
use uav_router.Base.{ℕ, Bool, List, refl}
use uav_router.Endpoints.Os.{Os, poll_add, register_report}
use uav_router.Endpoints.Handle.{Handle, run, ◌>>=◌, ◌>>◌, fd_of}
use uav_router.Endpoints.Triples.{Ensures, >>-Ensures, >>-Preserves, when-Preserves, pure-Preserves}
use uav_router.Endpoints.Descriptors.{
  Sound, Idle, call-Sound, ask-Sound, end-Sound, opened-Sound, modify-Sound,
}
use uav_router.Endpoints.Closing.{when_open-Idle}
use uav_router.Endpoints.Tcp.Stream.{ServerStream, cleanup, destroy, construct}
use uav_router.Endpoints.Tcp.Stream.Plain.{methods-Plain, write-Parts}
use uav_router.Endpoints.Tcp.Stream.Sound.{destroy-Sound, Sound-Parts, Sound-Plain}
use uav_router.Endpoints.Tcp.Stream.Steps.{Step, perform_all, perform_all-Preserves}

module _ ⦃os : Os⦄ where
  cleaned-Idle : (s : Handle ServerStream) → Sound s → Idle (run cleanup s)
  unfolding cleanup ◌>>=◌ fd_of
  cleaned-Idle s p = when_open-Idle s p s.fd refl

  pub cleanup-Idle : Ensures Sound cleanup Idle
  cleanup-Idle = record { leads = cleaned-Idle }

  pub destroy-Idle : Ensures Sound destroy Idle
  unfolding destroy
  destroy-Idle = >>-Ensures end-Sound cleanup-Idle

  pub construct-Sound :
      (name : String) (k : ℕ) (counted : Bool) (tags : List (String × String))
      → Sound (construct name k counted tags)
  unfolding construct
  construct-Sound name k counted tags =
      (>>-Ensures (call-Sound poll_add) (
          when-Preserves counted
            (>>-Preserves (ask-Sound register_report) (pure-Preserves tt)))).leads
        _ (opened-Sound k _)

  -- Whatever the kernel and the callbacks answer and whatever happens to a stream, it uses its
  -- descriptor only while that is open and closes it once at most; and once the stream is destroyed
  -- the descriptor is closed.
  pub steps-Sound :
      (name : String) (k : ℕ) (counted : Bool) (tags : List (String × String)) (steps : List Step)
      → Sound (run (perform_all steps) (construct name k counted tags))
        × Idle (run (perform_all steps >> destroy) (construct name k counted tags))
  steps-Sound name k counted tags steps =
      let sound =
        (perform_all-Preserves methods-Plain (write-Parts modify-Sound) destroy-Sound steps) in
      (
        sound.leads _ (construct-Sound name k counted tags),
        (>>-Ensures sound destroy-Idle).leads _ (construct-Sound name k counted tags),
      )
