-- ===== src/Endpoints/Tcp/Client/Owned.antt =====
-- The descriptor of TcpClientImpl in src/src/impl/tcpcli.h, through every method and callback.
use mathlib.Core.Path.{subst}
use mathlib.Core.Option.{none-ne-some}
use mathlib.Core.Bool.{false≢true}
use Prim.Native.String.{String}
use uav_router.Base.{
  ℕ, zero, suc, false, Option, none, some, List, [], ◌∷◌, ◌≡◌, refl, sym, ap, ◌∙◌, ◌⊎◌, inl, inr,
}
use uav_router.Endpoints.Os.{Os, History, Answer, ok, failed, closed, fired, error}
use uav_router.Endpoints.Handle.{
  Handle, run, ◌>>=◌, ◌>>◌, pure, event, forget, close_fd, fd_of, when_open, when, fire, ended,
}
use uav_router.Endpoints.Triples.{
  Ensures, Preserves, Ensures-weaken, Ensures-strengthen, choose-Ensures, >>=-Ensures, >>-Ensures,
  >>=-Preserves, >>-Preserves, pure-Preserves, alive-Preserves, choose-Preserves,
}
use uav_router.Endpoints.Descriptors.{
  keeping, Owned, Freed, call-Sound, ask-Sound, open_fd-Sound, end-Sound, modify-Sound,
  close_fd-Idle, forget-Sound,
}
use uav_router.Endpoints.Closing.{close-forget-then-Sound, unheld-Idle, forget-Idle, fired-Idle}
use uav_router.Endpoints.Tcp.Server.{Address}
use uav_router.Endpoints.Tcp.Client.{
  TcpClient, C, Naming, closed_with, cleanup, leave_loop, destroy, on_error, report, polled,
  connecting, connect_to_peer, watch, bound, named, kept_alive, socket_made, make_socket,
  create_after, create_connection, destroy_inside, try_next, connect_from, connect_any, connect_now,
  connect_to_peer_retry, resolved, init_service, timed, service_added, on_create, on_collision,
  on_established, on_failure, left, leave, reconnect, epoll_rdhup, svc_resolved, svc_removed,
}

-- An error callback that reports a failure of `close` does not destroy the client.
abbrev pub SparesClose : Os → Type 0
SparesClose os =
    (k e : ℕ) (h : History)
    → os.answer (closed (some k) ∷ h) ≡ failed e
    → os.ends (fired error ∷ closed (some k) ∷ h) ≡ false

Answer-cases : (a : Answer) → ((n : ℕ) × (a ≡ ok n)) ⊎ ((e : ℕ) × (a ≡ failed e))
Answer-cases (ok n) = inl (n, refl)
Answer-cases (failed e) = inr (e, refl)

-- Without a descriptor, and with none open.
record Clear (s : Handle TcpClient) : Type 0 where
  freed : Freed s
  no_fd : s.fd ≡ none

Clear-Owned : (s : Handle TcpClient) → Clear s → Owned s
Clear-Owned s p = record {
  disciplined = p.freed.disciplined;
  held = λ k h. absurd (none-ne-some k (sym p.no_fd ∙ h));
  only = λ k o. absurd (false≢true (sym (p.freed.all_closed k) ∙ o));
}

module _ ⦃os : Os⦄ (spares : SparesClose os) where
  spared :
      (s : Handle TcpClient) (k e : ℕ)
      → s.fd ≡ some k
      → os.answer (closed s.fd ∷ s.history) ≡ failed e
      → os.ends (fired error ∷ closed s.fd ∷ s.history) ≡ false
  spared s k e f a =
      subst (λ d. os.ends (fired error ∷ closed d ∷ s.history) ≡ false) (sym f)
        (spares k e s.history (ap (λ d. os.answer (closed d ∷ s.history)) (sym f) ∙ a))

  -- `close(_fd); _fd = -1` with the report of what close gives between them.
  close_reported :
      {Q : Handle TcpClient → Type 0}
      → ((s : Handle TcpClient) → s.fd ≡ none → Owned s → Q s)
      → Ensures Freed forget Q
      → (s : Handle TcpClient) → Owned s
      → (d : Option ℕ) → s.fd ≡ d
      → Q (run (when_open d (close_fd >>= λ ret. closed_with ret >> forget)) s)
  unfolding when_open close_fd event closed_with fire ended when ◌>>=◌ ◌>>◌ pure
  close_reported {Q} hn hf s p none n = hn s n p
  close_reported {Q} hn hf s p (some k) f =
      let t : Handle TcpClient = record s { history = closed s.fd ∷ s.history } in
      let u : Handle TcpClient = record s { history = fired error ∷ closed s.fd ∷ s.history } in
      let idle = close_fd-Idle.leads s p in
      elim (Answer-cases (os.answer (closed s.fd ∷ s.history))) [
        | inl (n, a) ↦ subst (λ r. Q (run (closed_with r >> forget) t)) (sym a) (hf.leads t idle)
        | inr (e, a) ↦
            subst (λ r. Q (run (closed_with r >> forget) t)) (sym a)
              (subst (λ gone. Q (run (when gone destroy_inside >> forget) u))
                (sym (spared s k e f a)) (hf.leads u ((fired-Idle error).leads t idle)))
      ]

  cleanup-Owned : Preserves Owned cleanup
  unfolding cleanup ◌>>=◌ fd_of
  cleanup-Owned = record { leads = λ s p. close_reported (λ t n q. q) forget-Sound s p s.fd refl }

  forget-Clear : Ensures Freed forget Clear
  unfolding forget
  forget-Clear = record {
    leads = λ s p. record { freed = (forget-Idle {b = false}).leads s p; no_fd = refl };
  }

  cleanup-Clear : Ensures Owned cleanup Clear
  unfolding cleanup ◌>>=◌ fd_of
  cleanup-Clear = record {
    leads = λ s p.
        close_reported (λ t n q. record { freed = unheld-Idle t n q; no_fd = n }) forget-Clear s p
          s.fd refl;
  }

  leave_loop-Owned : Preserves Owned leave_loop
  unfolding leave_loop
  leave_loop-Owned = search (keeping) depth 9

  pub destroy-Owned : Preserves Owned destroy
  unfolding destroy
  destroy-Owned = search (keeping, leave_loop-Owned, cleanup-Owned)

  pub destroy-Freed : Ensures Owned destroy Freed
  unfolding destroy
  destroy-Freed =
      >>-Ensures end-Sound
        (>>-Ensures leave_loop-Owned (Ensures-weaken (λ s p. p.freed) cleanup-Clear))

  pub on_error-Owned : Preserves Owned on_error
  unfolding on_error
  on_error-Owned = search (keeping, destroy-Owned)

  report-Owned : (a : Answer) → Preserves Owned (report a)
  unfolding report
  report-Owned (ok n) = pure-Preserves tt
  report-Owned (failed e) = on_error-Owned

  polled-Owned : (a : Answer) → Preserves Owned (polled a)
  unfolding polled
  polled-Owned (ok n) = pure-Preserves (ok 0)
  polled-Owned (failed e) = close-forget-then-Sound (pure-Preserves (failed e))

  connecting-Owned : (a : Answer) → Preserves Owned (connecting a)
  unfolding connecting
  connecting-Owned (ok n) = search (keeping, polled-Owned)
  connecting-Owned (failed e) =
      choose-Preserves _ (>>=-Preserves (call-Sound _) polled-Owned)
        (close-forget-then-Sound (pure-Preserves (failed e)))

  connect_to_peer-Owned : Preserves Owned connect_to_peer
  unfolding connect_to_peer
  connect_to_peer-Owned = search (keeping, connecting-Owned)

  watch-Owned : Preserves Owned watch
  unfolding watch
  watch-Owned = search (keeping) depth 9

  bound-Owned : (a : Answer) → Preserves Owned (bound a)
  unfolding bound
  bound-Owned (ok n) = search (keeping)
  bound-Owned (failed e) = search (keeping)

  named-Owned :
      (text : String) (names : String × String) (a : Answer) → Preserves Owned (named text names a)
  unfolding named
  named-Owned text names (ok zero) = search (keeping, connect_to_peer-Owned)
  named-Owned text names (ok (suc n)) = search (keeping, watch-Owned, bound-Owned)
  named-Owned text names (failed e) = search (keeping, connect_to_peer-Owned)

  kept_alive-Owned :
      (text : String) (names : String × String) (a : Answer)
      → Preserves Owned (kept_alive text names a)
  unfolding kept_alive
  kept_alive-Owned text names (ok n) = search (keeping, connect_to_peer-Owned, named-Owned) depth 9
  kept_alive-Owned text names (failed e) = pure-Preserves (failed e)

  socket_made-Owned :
      (text : String) (names : String × String) (a : Answer)
      → Preserves Owned (socket_made text names a)
  unfolding socket_made
  socket_made-Owned text names (ok k) = search (keeping, kept_alive-Owned)
  socket_made-Owned text names (failed e) = pure-Preserves (failed e)

  make_socket-Owned :
      (text : String) (names : String × String) → Ensures Freed (make_socket text names) Owned
  unfolding make_socket
  make_socket-Owned text names = >>=-Ensures open_fd-Sound (socket_made-Owned text names)

  -- A new descriptor comes only where there is none.
  create_after-Owned :
      (text : String) (names : String × String) (s : Handle TcpClient)
      → Owned s
      → (d : Option ℕ) → s.fd ≡ d
      → Owned (run (create_after text names d) s)
  unfolding create_after
  create_after-Owned text names s p none n =
      (make_socket-Owned text names).leads s (unheld-Idle s n p)
  create_after-Owned text names s p (some k) e =
      (>>-Ensures cleanup-Clear (
          >>=-Ensures alive-Preserves (λ there.
            choose-Ensures there
              (Ensures-strengthen (λ t q. q.freed) (make_socket-Owned text names))
              (Ensures-weaken Clear-Owned (pure-Preserves (ok 0)))))).leads
        s p

  create_connection-Owned :
      (text : String) (names : String × String) → Preserves Owned (create_connection text names)
  unfolding create_connection ◌>>=◌ fd_of
  create_connection-Owned text names = record {
    leads = λ s p. create_after-Owned text names s p s.fd refl;
  }

  module _ (naming : Naming) where
    try_next-Owned :
        {again : C (Unit {0})}
        → Preserves Owned again
        → (a : Answer) → Preserves Owned (try_next naming again a)
    unfolding try_next
    try_next-Owned h (ok n) = pure-Preserves tt
    try_next-Owned h (failed e) = search (keeping, on_error-Owned)

    connect_from-Owned : (as_ : List Address) → Preserves Owned (connect_from naming as_)
    unfolding connect_from
    connect_from-Owned [] = >>-Preserves (ask-Sound _) (modify-Sound _)
    connect_from-Owned (a ∷ as_) =
        >>=-Preserves (create_connection-Owned _ _) (try_next-Owned (connect_from-Owned as_))

    connect_any-Owned : (as_ : List Address) → Preserves Owned (connect_any naming as_)
    unfolding connect_any
    connect_any-Owned [] = search (keeping)
    connect_any-Owned (a ∷ as_) = search (keeping, connect_from-Owned)

    pub connect_now-Owned : Preserves Owned (connect_now naming)
    unfolding connect_now
    connect_now-Owned = search (keeping, connect_any-Owned)

    retry-Owned : Preserves Owned (connect_to_peer_retry naming)
    unfolding connect_to_peer_retry
    retry-Owned = >>=-Preserves connect_to_peer-Owned (try_next-Owned connect_now-Owned)

    pub resolved-Owned : (found : List Address) → Preserves Owned (resolved naming found)
    unfolding resolved
    resolved-Owned found = search (keeping, connect_now-Owned)

    pub init_service-Owned :
        (name : String) (known : List Address) → Preserves Owned (init_service naming name known)
    unfolding init_service
    init_service-Owned name known = search (keeping, watch-Owned, resolved-Owned) depth 9

    pub timed-Owned : Preserves Owned (timed naming)
    unfolding timed
    timed-Owned = search (keeping, retry-Owned, connect_now-Owned) depth 9

    service_added-Owned : (a : Answer) → Preserves Owned (service_added naming a)
    unfolding service_added
    service_added-Owned (ok n) = search (keeping, report-Owned)
    service_added-Owned (failed e) =
        search (keeping, on_error-Owned, report-Owned, retry-Owned) depth 9

    pub on_create-Owned : Preserves Owned (on_create naming)
    unfolding on_create
    on_create-Owned = search (keeping, service_added-Owned)

    pub on_collision-Owned : Preserves Owned (on_collision naming)
    unfolding on_collision
    on_collision-Owned = search (keeping, retry-Owned)

    pub on_established-Owned : Preserves Owned (on_established naming)
    unfolding on_established
    on_established-Owned = search (keeping)

    pub on_failure-Owned : Preserves Owned (on_failure naming)
    unfolding on_failure
    on_failure-Owned = search (keeping, on_error-Owned, retry-Owned)

    left-Owned : (a : Answer) → Preserves Owned (left naming a)
    unfolding left
    left-Owned (ok n) = search (keeping, cleanup-Owned)
    left-Owned (failed e) = search (keeping, on_error-Owned, cleanup-Owned) depth 9

    leave-Owned : (d : Option ℕ) → Preserves Owned (leave naming d)
    unfolding leave
    leave-Owned none = search (keeping, cleanup-Owned)
    leave-Owned (some k) = search (keeping, left-Owned)

    reconnect-Owned : Preserves Owned (reconnect naming)
    unfolding reconnect
    reconnect-Owned = search (keeping, connect_now-Owned) depth 9

    pub epoll_rdhup-Owned : Preserves Owned (epoll_rdhup naming)
    unfolding epoll_rdhup
    epoll_rdhup-Owned = search (keeping, leave-Owned, reconnect-Owned) depth 9

    pub svc_resolved-Owned :
        (name : String) (itf : ℕ) (a : Address) → Preserves Owned (svc_resolved naming name itf a)
    unfolding svc_resolved
    svc_resolved-Owned name itf a = search (keeping, connect_now-Owned) depth 12

    pub svc_removed-Owned : (name : String) → Preserves Owned (svc_removed naming name)
    unfolding svc_removed
    svc_removed-Owned name = search (keeping, leave-Owned) depth 9
