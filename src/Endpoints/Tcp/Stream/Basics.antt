-- ===== src/Endpoints/Tcp/Stream/Basics.antt =====
-- The parts that the methods of TCPServerStream in src/src/impl/tcpsvr.h share, for any predicate
-- that the calls, a callback on_error and the closing of the descriptor preserve.
use uav_router.Endpoints.Os.{Os, Call, Answer, ok, failed, fired, error}
use uav_router.Endpoints.Handle.{Handle, ◌>>◌, call, close_fd, forget, end, event}
use uav_router.Endpoints.Triples.{
  Preserves, >>=-Preserves, >>-Preserves, pure-Preserves, fd_of-Preserves, when_open-Preserves,
  fire-Preserves,
}
use uav_router.Endpoints.Tcp.Stream.{ServerStream, cleanup, destroy, on_error, on_failure}

pub record Basic ⦃os : Os⦄ (P : Handle ServerStream → Type 0) : Type 0 where
  pub calls : (c : Call) → Preserves P (call c)
  pub errors : Preserves P (event (fired error))
  pub shuts : Preserves P (close_fd >> forget)
  pub ends : Preserves P end

module _ ⦃os : Os⦄ {P : Handle ServerStream → Type 0} (b : Basic P) where
  pub cleanup-Preserves : Preserves P cleanup
  unfolding cleanup
  cleanup-Preserves = >>=-Preserves fd_of-Preserves (λ k. when_open-Preserves k b.shuts)

  pub destroy-Preserves : Preserves P destroy
  unfolding destroy
  destroy-Preserves = >>-Preserves b.ends cleanup-Preserves

  pub on_error-Preserves : Preserves P on_error
  unfolding on_error
  on_error-Preserves = fire-Preserves error b.errors destroy-Preserves

  pub on_failure-Preserves : (a : Answer) → Preserves P (on_failure a)
  unfolding on_failure
  on_failure-Preserves (ok n) = pure-Preserves tt
  on_failure-Preserves (failed e) = on_error-Preserves
