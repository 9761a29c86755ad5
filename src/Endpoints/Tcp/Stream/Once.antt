-- ===== src/Endpoints/Tcp/Stream/Once.antt =====
-- The callback on_close of a stream (TCPServerStream in src/src/impl/tcpsvr.h).
use Prim.Native.String.{String}
use mathlib.Core.Path.{subst}
use uav_router.Base.{
  ℕ, zero, suc, ◌≤◌, ◌==◌, not, Bool, false, Option, none, some, List, [], ◌∷◌, Bytes, ◌≡◌, refl,
  sym, ap, ◌∙◌, Option-cases, inl, inr, arith,
}
use uav_router.Endpoints.Os.{
  Os, Call, Callback, History, Answer, ok, failed, eagain, epipe, called, fired, writeable,
  poll_del, poll_add, query_size, send, register_report,
}
use uav_router.Endpoints.Handle.{Handle, run, ◌>>=◌, ◌>>◌, event, call, ask, modify, when, fd_of}
use uav_router.Endpoints.Triples.{
  Ensures, Preserves, Ensures-weaken, Ensures-strengthen, >>=-Ensures, >>-Ensures, >>=-Preserves,
  >>-Preserves, pure-Preserves, alive-Preserves, gets-Preserves, when-Preserves, when-Ensures,
  choose-Preserves, choose-Ensures, newest-Preserves, replies-Preserves, ended-Preserves,
}
use uav_router.Endpoints.Dispatch.{Events, Handling, handled, not_handled, stop}
use uav_router.Endpoints.Dispatched.{Kept}
use uav_router.Endpoints.Tcp.Stream.{
  ServerStream, S, hup_if, poll_methods, cleanup, on_error, on_close, send_failed, sent, write,
  write_each, call_back, writeable_again, received, drained, queried, epoll_in, epoll_out,
  epoll_err, hung_up, epoll_hup, check, epoll_event, construct,
}
use uav_router.Endpoints.Tcp.Stream.Basics.{
  destroy-Preserves, on_error-Preserves, on_failure-Preserves,
}
use uav_router.Endpoints.Descriptors.{opened-Sound}
use uav_router.Endpoints.Tcp.Stream.Calm.{
  closes, Quiet, fired-closes-Quiet, fired-Calm, modify-Calm, ask-Calm,
}
use uav_router.Endpoints.Tcp.Stream.Closes.{
  Once, Unclosed, Once-Basic, Unclosed-Basic, Unclosed-Once, Over-Once, modify-Unclosed,
  cleanup-Shut, on_close-Over, closing-Once,
}
use uav_router.Endpoints.Tcp.Stream.Steps.{Step, perform_all, perform_all-Preserves}

-- The kernel refuses calls on -1 with EBADF.
abbrev pub Refuses : Os → Type 0
Refuses os = (c : Call) (h : History) → os.answer (called c none ∷ h) ≡ failed 9

module _ ⦃os : Os⦄ where
  -- A call finds its descriptor refused, or on_close has not been called.
  call->>=-Once :
      Refuses os
      → {A : Type 0} (c : Call) {f : Answer → S A} → Preserves Once (f (failed 9))
      → ((a : Answer) → Ensures Unclosed (f a) Once)
      → Preserves Once (call c >>= f)
  unfolding ◌>>=◌ call event
  call->>=-Once r c {f} hf ho = record {
    leads = λ s p. elim (Option-cases s.fd) [
      | inl n ↦
          let s' : Handle ServerStream = record s { history = called c s.fd ∷ s.history } in
          subst (λ a. Once (run (f a) s'))
            (sym (ap (λ d. os.answer (called c d ∷ s.history)) n ∙ r c s.history))
            (hf.leads s' ((Once-Basic.calls c).leads s p))
      | inr (k, e) ↦
          (ho _).leads _
            ((Unclosed-Basic.calls c).leads s (record { none_yet = p.before k e; calm = p.calm }))
    ];
  }

  on_error-Once : Preserves Once on_error
  on_error-Once = on_error-Preserves Once-Basic

  fired-Once : (c : Callback) → closes (fired c ∷ []) ≡ 0 → Preserves Once (event (fired c))
  unfolding event
  fired-Once c n = record {
    leads = λ s p.
        let same = (fired-closes-Quiet c s.history n p.calm.quiet).0 in
        record {
          at_most = omega (arith, same, p.at_most);
          before = λ k h. same ∙ p.before k h;
          calm = (fired-Calm c n).leads s p.calm;
        };
  }

  modify-Once : (g : ServerStream → ServerStream) → Preserves Once (modify g)
  unfolding modify
  modify-Once g = record {
    leads = λ s p. record {
      at_most = p.at_most;
      before = p.before;
      calm = (modify-Calm g).leads s p.calm;
    };
  }

  broken_pipe-Once : Ensures Unclosed (call poll_del >> (cleanup >> on_close)) Once
  broken_pipe-Once =
      >>-Ensures (Unclosed-Basic.calls poll_del)
        (>>-Ensures cleanup-Shut (Ensures-weaken Over-Once on_close-Over))

  send_failed-Once : (e : ℕ) → Ensures Unclosed (send_failed e) Once
  unfolding send_failed
  send_failed-Once e =
      when-Ensures (not (e == eagain)) Unclosed-Once
        (>>-Ensures (when-Ensures (e == epipe) Unclosed-Once broken_pipe-Once) on_error-Once)

  refused-Once : Preserves Once (send_failed 9)
  unfolding send_failed when
  refused-Once = >>-Preserves (pure-Preserves tt) on_error-Once

  refused_sent : (buf : Bytes) → Preserves Once (sent buf (failed 9))
  unfolding sent
  refused_sent buf =
      >>-Preserves (modify-Once _) (>>-Preserves refused-Once (pure-Preserves (failed 9)))

  sent-Once : (buf : Bytes) (a : Answer) → Ensures Unclosed (sent buf a) Once
  unfolding sent
  sent-Once buf (failed e) =
      >>-Ensures (modify-Unclosed _) (>>-Ensures (send_failed-Once e) (pure-Preserves (failed e)))
  sent-Once buf (ok n) =
      Ensures-strengthen Unclosed-Once
        (>>-Preserves (modify-Once _) (>>-Preserves (modify-Once _) (pure-Preserves (ok n))))

  hung_up-Once : (a : Answer) → Ensures Unclosed (hung_up a) Once
  unfolding hung_up
  hung_up-Once (ok n) = closing-Once
  hung_up-Once (failed e) = >>-Ensures (on_error-Preserves Unclosed-Basic) (
      >>=-Ensures alive-Preserves (λ there.
        choose-Ensures there closing-Once
          (Ensures-strengthen Unclosed-Once (pure-Preserves (some stop)))))

  hup_if-Once :
      (s : Handle ServerStream) → Once s → (d : Option ℕ) → s.fd ≡ d → Once (run (hup_if d) s)
  unfolding hup_if
  hup_if-Once s p none n = (pure-Preserves {P = Once} (some handled)).leads s p
  hup_if-Once s p (some k) e =
      (>>=-Ensures (Unclosed-Basic.calls poll_del) hung_up-Once).leads s
        (record { none_yet = p.before k e; calm = p.calm })

  epoll_hup-Once : Preserves Once epoll_hup
  unfolding epoll_hup ◌>>=◌ fd_of
  epoll_hup-Once = record { leads = λ s p. hup_if-Once s p s.fd refl }

  drained-Once : Ensures Unclosed drained Once
  unfolding drained
  drained-Once = >>=-Ensures (Unclosed-Basic.calls poll_del) (λ ret.
      >>-Ensures (on_failure-Preserves Unclosed-Basic ret) (
        >>-Ensures cleanup-Shut
          (>>-Ensures (Ensures-weaken Over-Once on_close-Over) (pure-Preserves (some stop)))))

  ask-Once : Preserves Once (ask register_report)
  unfolding ask event
  ask-Once = record {
    leads =
        λ s p. record { at_most = p.at_most; before = p.before; calm = ask-Calm.leads s p.calm };
  }

  epoll_event-Once : (evs : Events) → Preserves Once (epoll_event evs)
  unfolding epoll_event check
  epoll_event-Once evs =
      >>-Preserves
        (when-Preserves _ (
          >>=-Preserves (>>=-Preserves (Once-Basic.calls _) (λ a. pure-Preserves _))
            (on_failure-Preserves Once-Basic)))
        (pure-Preserves false)

  construct-Once :
      (name : String) (k : ℕ) (counted : Bool) (tags : List (String × String))
      → Once (construct name k counted tags)
  unfolding construct
  construct-Once name k counted tags =
      (>>-Preserves (Once-Basic.calls poll_add)
          (when-Preserves counted (>>-Preserves ask-Once (pure-Preserves tt)))).leads
        _
        (record {
          at_most = omega arith;
          before = λ j h. refl;
          calm = record { sound = opened-Sound k _; quiet = tt };
        })

module _ ⦃os : Os⦄ (refuses : Refuses os) where
  write-Once : (buf : Bytes) → Preserves Once (write buf)
  unfolding write
  write-Once buf = >>=-Preserves (gets-Preserves _) (λ w.
      choose-Preserves w (call->>=-Once refuses (send buf) (refused_sent buf) (sent-Once buf))
        (pure-Preserves (ok 0)))

  write_each-Once : (bufs : List Bytes) → Preserves Once (write_each bufs)
  unfolding write_each
  write_each-Once [] = pure-Preserves tt
  write_each-Once (buf ∷ bufs) = >>-Preserves (write-Once buf) (write_each-Once bufs)

  call_back-Once : (c : Callback) → closes (fired c ∷ []) ≡ 0 → Preserves Once (call_back c)
  unfolding call_back
  call_back-Once c h = >>-Preserves (fired-Once c h) (
      >>=-Preserves ended-Preserves (λ gone. >>=-Preserves replies-Preserves (λ bufs.
        >>-Preserves (write_each-Once bufs) (when-Preserves gone (destroy-Preserves Once-Basic)))))

  epoll_out-Once : Preserves Once epoll_out
  unfolding epoll_out writeable_again
  epoll_out-Once =
      >>-Preserves
        (>>=-Preserves (gets-Preserves _)
          (λ w. when-Preserves _ (>>-Preserves (modify-Once _) (call_back-Once writeable refl))))
        (>>=-Preserves alive-Preserves (λ there. pure-Preserves _))

  received-Once :
      (size : ℕ) (a : Answer) {again : S (Option Handling)}
      → Preserves Once again
      → Preserves Once (received size a again)
  unfolding received
  received-Once size (failed e) h = choose-Preserves _ h (
      >>-Preserves on_error-Once (
        >>=-Preserves alive-Preserves
          (λ there. choose-Preserves there h (pure-Preserves (some stop)))))
  received-Once size (ok n) h = >>=-Preserves newest-Preserves (λ bytes.
      >>-Preserves (call_back-Once _ refl) (
        >>-Preserves (modify-Once _) (
          >>=-Preserves alive-Preserves
            (λ there. choose-Preserves there h (pure-Preserves (some stop))))))

  queried_failed-Once :
      (e : ℕ) (again : S (Option Handling)) → Preserves Once (queried (failed e) again)
  unfolding queried
  queried_failed-Once e again =
      >>-Preserves on_error-Once (>>=-Preserves alive-Preserves (λ there. pure-Preserves _))

  queried-Once :
      (a : Answer) {again : S (Option Handling)}
      → Preserves Once again
      → Ensures Unclosed (queried a again) Once
  unfolding queried
  queried-Once (failed e) {again} h = Ensures-strengthen Unclosed-Once (queried_failed-Once e again)
  queried-Once (ok zero) h = drained-Once
  queried-Once (ok (suc size)) h =
      Ensures-strengthen Unclosed-Once
        (>>=-Preserves (Once-Basic.calls _) (λ a. received-Once (suc size) a h))

  epoll_in-Once : (fuel : ℕ) → Preserves Once (epoll_in fuel)
  unfolding epoll_in
  epoll_in-Once zero = pure-Preserves none
  epoll_in-Once (suc fuel) =
      call->>=-Once refuses query_size (queried_failed-Once 9 (epoll_in fuel))
        (λ a. queried-Once a (epoll_in-Once fuel))

  methods-Once : (fuel : ℕ) → Kept Once (poll_methods fuel)
  unfolding poll_methods epoll_err
  methods-Once fuel = record {
    epoll_event = epoll_event-Once;
    epoll_in = epoll_in-Once fuel;
    epoll_out = epoll_out-Once;
    epoll_pri = pure-Preserves (some not_handled);
    epoll_err = pure-Preserves (some handled);
    epoll_hup = epoll_hup-Once;
    epoll_rdhup = pure-Preserves (some not_handled);
  }

  -- Where the kernel refuses calls on the descriptor -1, and whatever happens to a stream, it calls
  -- on_close at most once, and not yet as long as it has its descriptor; and wherever it called
  -- on_close, no descriptor was open.
  pub steps-Once :
      (name : String) (k : ℕ) (counted : Bool) (tags : List (String × String)) (steps : List Step)
      → let s = run (perform_all steps) (construct name k counted tags) in
        (closes s.history ≤ 1) × ((j : ℕ) → s.fd ≡ some j → closes s.history ≡ 0) × Quiet s.history
  steps-Once name k counted tags steps =
      let once =
        (perform_all-Preserves (methods-Once) (write-Once) (destroy-Preserves Once-Basic)
            steps).leads
          _ (construct-Once name k counted tags) in
      (once.at_most, once.before, once.calm.quiet)
