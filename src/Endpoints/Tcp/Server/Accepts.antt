-- ===== src/Endpoints/Tcp/Server/Accepts.antt =====
-- The connections that TcpServerImpl in src/src/impl/tcpsvr.h accepts, and what can happen to a
-- server from its construction on.
use Prim.Native.String.{String}
use mathlib.Core.Option.{none-ne-some}
use mathlib.Core.Bool.{false≢true}
use uav_router.Base.{ℕ, zero, suc, Bool, false, Option, none, some, List, [], ◌∷◌, ◌≡◌, refl}
use uav_router.Endpoints.Os.{
  Os, History, Answer, ok, failed, accept, called, error, connected, set_nonblock, get_flags,
  set_keepalive,
}
use uav_router.Endpoints.Handle.{Handle, run, ◌>>=◌, ◌>>◌, pure, event, call, fd_of}
use uav_router.Endpoints.Triples.{
  Ensures, Preserves, >>=-Ensures, >>-Ensures, >>=-Preserves, >>-Preserves, pure-Preserves,
  fd_of-Preserves, alive-Preserves, gets-Preserves, when-Preserves, when_open-Preserves,
  choose-Preserves, fire-Preserves,
}
use uav_router.Endpoints.Descriptors.{
  Sound, Idle, is_open, call-Sound, fired-Sound, modify-Sound, end-Sound,
}
use uav_router.Endpoints.Closing.{when_open-Idle}
use uav_router.Endpoints.Dispatch.{Events, Handling, handled, not_handled, dispatch}
use uav_router.Endpoints.Dispatched.{Kept, dispatch-Preserves}
use uav_router.Endpoints.Tcp.Server.{
  TcpServer, T, Address, set_address, set_interface, construct, create_service, cleanup, destroy,
  on_error, create, init, resolved, on_collision, on_established, on_failure, check, finish, refuse,
  hand_over, identify, flags_set, flags_read, kept_alive, client_of, accepted, accept_all, checked,
  epoll_in, report, epoll_err, poll_methods,
}
use uav_router.Endpoints.Tcp.Server.Holding.{
  Holding, call_on-Holding, fired-Holding, ask-Holding, end-Holding, close-forget-Holding,
  close_on-Sound, given-Sound, opened-Holding,
}
use uav_router.Endpoints.Tcp.Server.Sound.{
  destroy-Sound, on_error-Sound, create-Sound, init-Sound, resolved-Sound, create_service-Sound,
  on_collision-Sound, on_established-Sound, on_failure-Sound,
}

-- The kernel gives a new connection a descriptor that is not in use.
abbrev pub Fresh : Os → Type 0
Fresh os =
    (d : Option ℕ) (h : History) (k : ℕ)
    → os.answer (called accept d ∷ h) ≡ ok k
    → is_open k h ≡ false

module _ ⦃os : Os⦄ {k : ℕ} {again : T (Option Handling)} (rest : Preserves Sound again) where
  destroy-Holding : Preserves (Holding k) destroy
  unfolding destroy cleanup
  destroy-Holding =
      >>-Preserves end-Holding
        (>>=-Preserves fd_of-Preserves (λ d. when_open-Preserves d close-forget-Holding))

  refuse-Sound : Ensures (Holding k) (refuse k) Sound
  unfolding refuse on_error finish
  refuse-Sound =
      >>-Ensures (fire-Preserves error (fired-Holding error) destroy-Holding)
        (>>-Ensures close_on-Sound (>>=-Preserves alive-Preserves (λ there. pure-Preserves _)))

  hand_over-Sound : Ensures (Holding k) (hand_over k again) Sound
  unfolding hand_over
  hand_over-Sound =
      >>-Ensures given-Sound
        (>>-Preserves (fire-Preserves (connected k) (fired-Sound (connected k)) destroy-Sound) rest)

  identify-Sound : Ensures (Holding k) (identify k again) Sound
  unfolding identify
  identify-Sound = >>=-Ensures (gets-Preserves _) (λ z.
      >>-Ensures (when-Preserves z (>>-Preserves (ask-Holding _) (pure-Preserves tt)))
        hand_over-Sound)

  flags_set-Sound : (a : Answer) → Ensures (Holding k) (flags_set k again a) Sound
  unfolding flags_set
  flags_set-Sound (failed e) = refuse-Sound
  flags_set-Sound (ok n) = identify-Sound

  flags_read-Sound : (a : Answer) → Ensures (Holding k) (flags_read k again a) Sound
  unfolding flags_read
  flags_read-Sound (failed e) = refuse-Sound
  flags_read-Sound (ok n) = >>=-Ensures (call_on-Holding set_nonblock) flags_set-Sound

  kept_alive-Sound : (a : Answer) → Ensures (Holding k) (kept_alive k again a) Sound
  unfolding kept_alive
  kept_alive-Sound (failed e) = refuse-Sound
  kept_alive-Sound (ok n) = >>=-Ensures (call_on-Holding get_flags) flags_read-Sound

module _ ⦃os : Os⦄ where
  finish-Sound : Preserves Sound finish
  unfolding finish
  finish-Sound = >>=-Preserves alive-Preserves (λ there. pure-Preserves _)

  taken-Sound :
      {again : T (Option Handling)}
      → Preserves Sound again
      → (a : Answer) (s : Handle TcpServer) → Sound s
      → ((k : ℕ) → a ≡ ok k → is_open k s.history ≡ false)
      → Sound (run (client_of a >>= accepted again) s)
  unfolding client_of accepted ◌>>=◌ ◌>>◌ pure
  taken-Sound rest (failed e) s p new =
      (choose-Preserves _ (pure-Preserves (some handled))
          (>>-Preserves on_error-Sound finish-Sound)).leads
        s p
  taken-Sound rest (ok k) s p new =
      (>>=-Ensures (call_on-Holding set_keepalive) (kept_alive-Sound rest)).leads _
        (opened-Holding s p (new k refl))

  round-Sound :
      Fresh os
      → {again : T (Option Handling)} → Preserves Sound again
      → Preserves Sound (call accept >>= λ a. client_of a >>= λ client. accepted again client)
  unfolding ◌>>=◌ call event
  round-Sound fresh rest = record {
    leads = λ s p. taken-Sound rest _ _ ((call-Sound accept).leads s p) (fresh s.fd s.history);
  }

  accept_all-Sound : Fresh os → (fuel : ℕ) → Preserves Sound (accept_all fuel)
  unfolding accept_all
  accept_all-Sound fresh zero = pure-Preserves none
  accept_all-Sound fresh (suc fuel) = round-Sound fresh (accept_all-Sound fresh fuel)

  checked-Sound : Fresh os → (fuel : ℕ) (a : Answer) → Preserves Sound (checked fuel a)
  unfolding checked
  checked-Sound fresh fuel (failed e) = >>-Preserves on_error-Sound finish-Sound
  checked-Sound fresh fuel (ok n) = accept_all-Sound fresh fuel

  report-Sound : (a : Answer) → Preserves Sound (report a)
  unfolding report
  report-Sound (ok n) = pure-Preserves tt
  report-Sound (failed e) = on_error-Sound

  check-Sound : Preserves Sound check
  unfolding check
  check-Sound = >>=-Preserves (call-Sound _) (λ a. pure-Preserves _)

  methods-Sound : Fresh os → (fuel : ℕ) → Kept Sound (poll_methods fuel)
  unfolding poll_methods epoll_in epoll_err
  methods-Sound fresh fuel = record {
    epoll_event = λ evs. pure-Preserves false;
    epoll_in = >>=-Preserves check-Sound (checked-Sound fresh fuel);
    epoll_out = pure-Preserves (some not_handled);
    epoll_pri = pure-Preserves (some not_handled);
    epoll_err = >>=-Preserves check-Sound (λ a. >>-Preserves (report-Sound a) finish-Sound);
    epoll_hup = pure-Preserves (some not_handled);
    epoll_rdhup = pure-Preserves (some not_handled);
  }

-- What is done with a server: its settings and init, its timer, the answers of the resolver and of
-- the group, the events of the loop, and its destruction.
pub data Step : Type 0 where
  addressed : String → Step
  interfaced : List Address → ℕ → Step
  initialized : (String → ℕ → Option Address) → ℕ → ℕ → Step
  looked_up : List Address → ℕ → ℕ → Step
  timed established collided group_created group_lost released : Step
  polled : ℕ → Events → Step

module _ ⦃os : Os⦄ where
  unfoldable pub perform : Step → T (Unit {0})
  unfolding ◌>>◌ pure
  perform (addressed text) = set_address text
  perform (interfaced found family) = set_interface found family
  perform (initialized parse port family) = do init parse port family; pure tt
  perform (looked_up found family port) = resolved found family port
  perform timed = create
  perform established = on_established
  perform collided = on_collision
  perform group_created = create_service
  perform group_lost = on_failure
  perform released = destroy
  perform (polled fuel evs) = do dispatch (poll_methods fuel) evs; pure tt

  unfoldable pub perform_all : List Step → T (Unit {0})
  unfolding ◌>>◌ pure
  perform_all [] = pure tt
  perform_all (step ∷ steps) = do perform step; perform_all steps

  perform-Sound : Fresh os → (step : Step) → Preserves Sound (perform step)
  unfolding perform set_address set_interface
  perform-Sound fresh (addressed text) = modify-Sound _
  perform-Sound fresh (interfaced found family) = modify-Sound _
  perform-Sound fresh (initialized parse port family) =
      >>-Preserves (init-Sound parse port family) (pure-Preserves tt)
  perform-Sound fresh (looked_up found family port) = resolved-Sound found family port
  perform-Sound fresh timed = create-Sound
  perform-Sound fresh established = on_established-Sound
  perform-Sound fresh collided = on_collision-Sound
  perform-Sound fresh group_created = create_service-Sound
  perform-Sound fresh group_lost = on_failure-Sound
  perform-Sound fresh released = destroy-Sound
  perform-Sound fresh (polled fuel evs) =
      >>-Preserves (dispatch-Preserves (methods-Sound fresh fuel) evs) (pure-Preserves tt)

  perform_all-Sound : Fresh os → (steps : List Step) → Preserves Sound (perform_all steps)
  unfolding perform_all
  perform_all-Sound fresh [] = pure-Preserves tt
  perform_all-Sound fresh (step ∷ steps) =
      >>-Preserves (perform-Sound fresh step) (perform_all-Sound fresh steps)

  cleaned-Idle : (s : Handle TcpServer) → Sound s → Idle (run cleanup s)
  unfolding cleanup ◌>>=◌ fd_of
  cleaned-Idle s p = when_open-Idle s p s.fd refl

  destroy-Idle : Ensures Sound destroy Idle
  unfolding destroy
  destroy-Idle = >>-Ensures end-Sound (record { leads = cleaned-Idle })

  -- Where the kernel gives new connections unused descriptors, a server uses a descriptor only while
  -- it is open and closes it once at most, whatever happens to it and whatever fails; between two
  -- steps nothing is open but its own descriptor, so every client was handed over or closed, and a
  -- destroyed server leaves nothing open.
  pub server-Sound :
      Fresh os
      → (zeroconf : Bool) (steps : List Step)
      → Sound (run (perform_all steps) (construct zeroconf))
        × Idle (run (perform_all steps >> destroy) (construct zeroconf))
  unfolding construct
  server-Sound fresh zeroconf steps =
      let start : Sound (construct zeroconf) = record {
        disciplined = tt;
        held = λ k h. absurd (none-ne-some k h);
        only = λ k o. absurd (false≢true o);
      } in
      (
        (perform_all-Sound fresh steps).leads _ start,
        (>>-Ensures (perform_all-Sound fresh steps) destroy-Idle).leads _ start,
      )
