-- ===== src/Endpoints/Tcp/Stream/Drains.antt =====
-- What epollIN of TCPServerStream in src/src/impl/tcpsvr.h leaves behind: the loop reads until the
-- kernel has no more data, and takes that for the end of the connection.
use mathlib.Core.Path.{subst}
use uav_router.Base.{
  ℕ, zero, suc, ◌+◌, ◌≤◌, ◌==◌, Bool, true, false, Option, none, some, [], ◌∷◌, ◌≡◌, ◌≢◌, ◌⊎◌, refl,
  sym, ap, ◌∙◌, inl, inr, Option-cases, if◌then◌else◌, arith,
}
use uav_router.Endpoints.Os.{
  Os, Call, History, Answer, ok, failed, eagain, called, poll_del, query_size, receive,
}
use uav_router.Endpoints.Handle.{
  Handle, run, ◌>>=◌, ◌>>◌, pure, event, call, close_fd, forget, end, modify, alive, choose, fd_of,
  when_open,
}
use uav_router.Endpoints.Triples.{Ensures, newest-Preserves, alive-Preserves}
use uav_router.Endpoints.Dispatch.{Handling, handled, stop}
use uav_router.Endpoints.Tcp.Stream.{
  ServerStream, S, cleanup, destroy, received, drained, queried, epoll_in,
}
use uav_router.Endpoints.Tcp.Stream.Plain.{
  Parts, Plain, write-Parts, call-Plain, on_error-Plain, on_failure-Plain, on_close-Plain,
  call_back-Plain,
}
use uav_router.Endpoints.Tcp.Stream.Once.{Refuses}

abbrev reads : Call → ℕ
reads (receive n) = 1
reads c = 0

-- How often the program has asked for data.
abbrev pub receives : History → ℕ
receives [] = 0
receives (called c d ∷ h) = reads c + receives h
receives (e ∷ h) = receives h

-- The kernel says how much there is to be read, and after `rounds` reads there is no more.
pub record RunsDry (os : Os) (rounds : ℕ) : Type 0 where
  pub says : (k : ℕ) (h : History) → (n : ℕ) × (os.answer (called query_size (some k) ∷ h) ≡ ok n)
  pub dry :
      (k : ℕ) (h : History)
      → rounds ≤ receives h
      → os.answer (called query_size (some k) ∷ h) ≡ ok 0

pub failed≢ok : {e n : ℕ} → failed e ≢ ok n
failed≢ok h = cc

size_zero : {n : ℕ} → ok (suc n) ≢ ok 0
size_zero h = cc

-- A stream that is destroyed has no descriptor.
abbrev pub Ended : Handle ServerStream → Type 0
Ended s = s.exists ≡ false → s.fd ≡ none

-- After `m` reads at least.
record Read (m : ℕ) (s : Handle ServerStream) : Type 0 where
  at_least : m ≤ receives s.history
  ended : Ended s

abbrev NoFd : Handle ServerStream → Type 0
NoFd s = s.fd ≡ none

closed_over :
    (m : ℕ) (c : Call) (d : Option ℕ) (h : History) → m ≤ receives h → m ≤ receives (called c d ∷ h)
closed_over m c d h p = omega arith

module _ ⦃os : Os⦄ where
  when_open-NoFd :
      (s : Handle ServerStream) (d : Option ℕ)
      → s.fd ≡ d
      → (run (when_open d (close_fd >> forget)) s).fd ≡ none
  unfolding when_open pure close_fd forget event ◌>>◌
  when_open-NoFd s none n = n
  when_open-NoFd s (some k) e = refl

  cleaned : (s : Handle ServerStream) → (run cleanup s).fd ≡ none
  unfolding cleanup ◌>>=◌ fd_of
  cleaned s = when_open-NoFd s s.fd refl

  guarded_receives :
      (s : Handle ServerStream) (d : Option ℕ)
      → receives (run (when_open d (close_fd >> forget)) s).history ≡ receives s.history
  unfolding when_open pure close_fd forget event ◌>>◌
  guarded_receives s none = refl
  guarded_receives s (some k) = refl

  destroyed : (m : ℕ) (s : Handle ServerStream) → Read m s → Read m (run destroy s)
  unfolding destroy end ◌>>◌ cleanup ◌>>=◌ fd_of
  destroyed m s p = record {
    at_least =
        subst (λ n. m ≤ n) (sym (guarded_receives (record s { exists = false }) s.fd)) p.at_least;
    ended = λ e. when_open-NoFd (record s { exists = false }) s.fd refl;
  }

  instance abbrev Read-Parts : {m : ℕ} → Parts (Read m)
  unfolding call event modify close_fd forget ◌>>◌
  Read-Parts {m} = record {
    calls = λ c. record {
      leads =
          λ s p. record { at_least = closed_over m c s.fd s.history p.at_least; ended = p.ended };
    };
    fires = λ c. record { leads = λ s p. record { at_least = p.at_least; ended = p.ended } };
    shuts = record { leads = λ s p. record { at_least = p.at_least; ended = λ e. refl } };
    destroys = record { leads = destroyed m };
  }

  instance abbrev NoFd-Parts : Parts NoFd
  unfolding call event modify close_fd forget ◌>>◌ destroy
  NoFd-Parts = record {
    calls = λ c. record { leads = λ s p. p };
    fires = λ c. record { leads = λ s p. p };
    shuts = record { leads = λ s p. refl };
    destroys = record { leads = λ s p. cleaned (end s).1 };
  }

  modify-Read : {m : ℕ} (f : ServerStream → ServerStream) → Ensures (Read m) (modify f) (Read m)
  unfolding modify
  modify-Read f = record { leads = λ s p. record { at_least = p.at_least; ended = p.ended } }

  instance abbrev Read-Plain : {m : ℕ} → Plain (Read m)
  Read-Plain {m} = record { modifies = λ f h. modify-Read f; writes = write-Parts modify-Read }

  -- From P, `m` ends with a result, and leaves no descriptor.
  record Closes (P : Handle ServerStream → Type 0) (m : S (Option Handling)) : Type 0 where
    closes :
        (s : Handle ServerStream)
        → P s
        → (r : Handling) × ((m s).0 ≡ some r) × ((run m s).fd ≡ none)

  >>=-Closes :
      {A : Type 0} {P Q : Handle ServerStream → Type 0} {m : S A} {f : A → S (Option Handling)}
      → Ensures P m Q
      → ((a : A) → Closes Q (f a))
      → Closes P (m >>= f)
  unfolding ◌>>=◌
  >>=-Closes {m} hm hf = record { closes = λ s p. (hf (m s).0).closes (m s).1 (hm.leads s p) }

  >>-Closes :
      {A : Type 0} {P Q : Handle ServerStream → Type 0} {m : S A} {k : S (Option Handling)}
      → Ensures P m Q
      → Closes Q k
      → Closes P (m >> k)
  unfolding ◌>>◌
  >>-Closes {m} hm hk = record { closes = λ s p. hk.closes (m s).1 (hm.leads s p) }

  pure-Closes : (r : Handling) → Closes NoFd (pure (some r))
  unfolding pure
  pure-Closes r = record { closes = λ s p. (r, refl, p) }

  -- `if (!_exists) return STOP`, and otherwise the next round
  again_or_stop :
      {m : ℕ} {again : S (Option Handling)}
      → Closes (Read m) again
      → (s : Handle ServerStream) → Read m s
      → (b : Bool) → s.exists ≡ b
      → (r : Handling) × ((choose b again (pure (some stop)) s).0 ≡ some r)
        × ((run (choose b again (pure (some stop))) s).fd ≡ none)
  unfolding choose pure
  again_or_stop h s p true e = h.closes s p
  again_or_stop h s p false e = (stop, refl, p.ended e)

  choose-Closes :
      {P : Handle ServerStream → Type 0} (b : Bool) {m k : S (Option Handling)}
      → Closes P m
      → Closes P k
      → Closes P (choose b m k)
  unfolding choose
  choose-Closes true hm hk = hm
  choose-Closes false hm hk = hk

  alive-Closes :
      {m : ℕ} {again : S (Option Handling)}
      → Closes (Read m) again
      → Closes (Read m) (alive >>= λ there. choose there again (pure (some stop)))
  unfolding ◌>>=◌ alive
  alive-Closes h = record { closes = λ s p. again_or_stop h s p s.exists refl }

  received-Closes :
      {m : ℕ} (size : ℕ) (a : Answer) {again : S (Option Handling)}
      → Closes (Read m) again
      → Closes (Read m) (received size a again)
  unfolding received
  received-Closes size (failed e) h =
      choose-Closes (e == eagain) h (>>-Closes on_error-Plain (alive-Closes h))
  received-Closes size (ok n) h =
      >>=-Closes newest-Preserves
        (λ bytes. >>-Closes (call_back-Plain _) (>>-Closes (modify-Read _) (alive-Closes h)))

  drained-Closes : {m : ℕ} → Closes (Read m) drained
  unfolding drained
  drained-Closes = >>=-Closes (call-Plain poll_del) (λ ret. >>-Closes (on_failure-Plain ret) (
      >>-Closes (record { leads = λ s p. cleaned s })
        (>>-Closes on_close-Plain (pure-Closes stop))))

  call_receive : {m : ℕ} (n : ℕ) → Ensures (Read m) (call (receive n)) (Read (suc m))
  unfolding call event
  call_receive n = record {
    leads = λ s p. record { at_least = omega (arith, p.at_least); ended = p.ended };
  }

  -- The answer to the query on an open descriptor.
  answered-Closes :
      {m : ℕ} (a : Answer) {again : S (Option Handling)}
      → (n : ℕ) × (a ≡ ok n)
      → (a ≡ ok 0) ⊎ Closes (Read (suc m)) again
      → Closes (Read m) (queried a again)
  unfolding queried
  answered-Closes (failed e) (n, h) more = absurd (failed≢ok h)
  answered-Closes (ok zero) says more = drained-Closes
  answered-Closes (ok (suc size)) says (inl h) = absurd (size_zero h)
  answered-Closes (ok (suc size)) says (inr h) =
      >>=-Closes (call_receive (suc size)) (λ a. received-Closes (suc size) a h)

  refused-Closes : (e : ℕ) (again : S (Option Handling)) → Closes NoFd (queried (failed e) again)
  unfolding queried
  refused-Closes e again =
      >>-Closes on_error-Plain
        (>>=-Closes alive-Preserves (λ there. pure-Closes (if there then handled else stop)))

  module _ (refuses : Refuses os) (rounds : ℕ) (runs_dry : RunsDry os rounds) where
    query-Closes :
        {m : ℕ} (again : S (Option Handling))
        → (rounds ≤ m) ⊎ Closes (Read (suc m)) again
        → Closes (Read m) (call query_size >>= λ size. queried size again)
    unfolding ◌>>=◌ call event
    query-Closes {m} again more = record {
      closes = λ s p.
          let s' : Handle ServerStream = record s {
            history = called query_size s.fd ∷ s.history;
          } in
          let Left : Answer → Type 0 = λ a.
            (r : Handling) × ((queried a again s').0 ≡ some r)
            × ((run (queried a again) s').fd ≡ none) in
          elim (Option-cases s.fd) [
            | inl n ↦
                subst Left
                  (sym (
                    ap (λ d. os.answer (called query_size d ∷ s.history)) n
                    ∙ refuses query_size s.history))
                  ((refused-Closes 9 again).closes s' n)
            | inr (k, e) ↦
                let same = ap (λ d. os.answer (called query_size d ∷ s.history)) e in
                let says = runs_dry.says k s.history in
                (answered-Closes _ (says.0, same ∙ says.1) (dried more s k same p)).closes s'
                  (record {
                    at_least = closed_over m query_size s.fd s.history p.at_least;
                    ended = p.ended;
                  })
          ];
    }
      where
        dried :
            (rounds ≤ m) ⊎ Closes (Read (suc m)) again
            → (s : Handle ServerStream) (k : ℕ)
            → os.answer (called query_size s.fd ∷ s.history)
              ≡ os.answer (called query_size (some k) ∷ s.history)
            → Read m s
            → (os.answer (called query_size s.fd ∷ s.history) ≡ ok 0) ⊎ Closes (Read (suc m)) again
        dried (inr h) s k same p = inr h
        dried (inl le) s k same p =
            inl (same ∙ runs_dry.dry k s.history (omega (arith, le, p.at_least)))

    epoll_in-Closes : (fuel m : ℕ) → rounds ≤ fuel + m → Closes (Read m) (epoll_in (suc fuel))
    unfolding epoll_in
    epoll_in-Closes zero m h = query-Closes (epoll_in zero) (inl (omega (arith, h)))
    epoll_in-Closes (suc fuel) m h =
        query-Closes (epoll_in (suc fuel)) (inr (epoll_in-Closes fuel (suc m) (omega (arith, h))))

  -- Where the kernel refuses calls on the descriptor -1 and, for an open one, tells the amount that
  -- is to be read and has no more after some reads, epollIN with fuel for one round more returns, and
  -- leaves the stream without a descriptor: the stream is closed once its data is read.
  pub epoll_in-closes :
      Refuses os
      → (rounds : ℕ) → RunsDry os rounds
      → (fuel : ℕ) (s : Handle ServerStream) → Ended s
      → rounds ≤ fuel + receives s.history
      → (r : Handling) × ((epoll_in (suc fuel) s).0 ≡ some r)
        × ((run (epoll_in (suc fuel)) s).fd ≡ none)
  epoll_in-closes refuses rounds dry fuel s ended h =
      (epoll_in-Closes refuses rounds dry fuel (receives s.history) h).closes s
        (record { at_least = omega arith; ended = ended })
