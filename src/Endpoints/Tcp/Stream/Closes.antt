-- ===== src/Endpoints/Tcp/Stream/Closes.antt =====
-- The states of a stream (TCPServerStream in src/src/impl/tcpsvr.h) around its callback on_close.
use mathlib.Core.Option.{none-ne-some}
use uav_router.Base.{ℕ, ◌≤◌, Option, none, some, ◌≡◌, refl, sym, ◌∙◌, arith}
use uav_router.Endpoints.Os.{Os, fired, close}
use uav_router.Endpoints.Handle.{
  Handle, run, ◌>>=◌, ◌>>◌, pure, event, call, close_fd, forget, end, modify, fire, when_open,
  fd_of,
}
use uav_router.Endpoints.Triples.{
  Ensures, Preserves, Ensures-weaken, >>-Ensures, >>=-Preserves, pure-Preserves, when-Preserves,
  ended-Preserves,
}
use uav_router.Endpoints.Dispatch.{handled}
use uav_router.Endpoints.Tcp.Stream.{ServerStream, cleanup, on_close, closing}
use uav_router.Endpoints.Tcp.Stream.Basics.{Basic, destroy-Preserves}
use uav_router.Endpoints.Tcp.Stream.Calm.{closes, Calm, Calm-Basic, closed-Calm, modify-Calm}

pub record Once (s : Handle ServerStream) : Type 0 where
  pub at_most : closes s.history ≤ 1
  pub before : (k : ℕ) → s.fd ≡ some k → closes s.history ≡ 0
  pub calm : Calm s

pub record Unclosed (s : Handle ServerStream) : Type 0 where
  pub none_yet : closes s.history ≡ 0
  pub calm : Calm s

pub record Shut (s : Handle ServerStream) : Type 0 where
  pub no_fd : s.fd ≡ none
  pub unclosed : Unclosed s

pub record Over (s : Handle ServerStream) : Type 0 where
  pub no_fd : s.fd ≡ none
  pub once : closes s.history ≤ 1
  pub calm : Calm s

module _ ⦃os : Os⦄ where
  pub Once-Basic : Basic Once
  unfolding call event close_fd forget end ◌>>◌
  Once-Basic = record {
    calls = λ c. record {
      leads = λ s p. record {
        at_most = p.at_most;
        before = p.before;
        calm = (Calm-Basic.calls c).leads s p.calm;
      };
    };
    errors = record {
      leads = λ s p. record {
        at_most = p.at_most;
        before = p.before;
        calm = Calm-Basic.errors.leads s p.calm;
      };
    };
    shuts = record {
      leads = λ s p. record {
        at_most = p.at_most;
        before = λ k h. absurd (none-ne-some k h);
        calm = Calm-Basic.shuts.leads s p.calm;
      };
    };
    ends = record {
      leads = λ s p. record {
        at_most = p.at_most;
        before = p.before;
        calm = Calm-Basic.ends.leads s p.calm;
      };
    };
  }

  pub Unclosed-Basic : Basic Unclosed
  unfolding call event close_fd forget end ◌>>◌
  Unclosed-Basic = record {
    calls = λ c. record {
      leads = λ s p. record { none_yet = p.none_yet; calm = (Calm-Basic.calls c).leads s p.calm };
    };
    errors = record {
      leads = λ s p. record { none_yet = p.none_yet; calm = Calm-Basic.errors.leads s p.calm };
    };
    shuts = record {
      leads = λ s p. record { none_yet = p.none_yet; calm = Calm-Basic.shuts.leads s p.calm };
    };
    ends = record {
      leads = λ s p. record { none_yet = p.none_yet; calm = Calm-Basic.ends.leads s p.calm };
    };
  }

  pub Over-Basic : Basic Over
  unfolding call event close_fd forget end ◌>>◌
  Over-Basic = record {
    calls = λ c. record {
      leads = λ s p. record {
        no_fd = p.no_fd;
        once = p.once;
        calm = (Calm-Basic.calls c).leads s p.calm;
      };
    };
    errors = record {
      leads =
          λ s p. record { no_fd = p.no_fd; once = p.once; calm = Calm-Basic.errors.leads s p.calm };
    };
    shuts = record {
      leads = λ s p. record { no_fd = refl; once = p.once; calm = Calm-Basic.shuts.leads s p.calm };
    };
    ends = record {
      leads =
          λ s p. record { no_fd = p.no_fd; once = p.once; calm = Calm-Basic.ends.leads s p.calm };
    };
  }

  pub Unclosed-Once : (s : Handle ServerStream) → Unclosed s → Once s
  Unclosed-Once s p = record {
    at_most = omega (arith, p.none_yet);
    before = λ k h. p.none_yet;
    calm = p.calm;
  }

  pub Over-Once : (s : Handle ServerStream) → Over s → Once s
  Over-Once s p = record {
    at_most = p.once;
    before = λ k h. absurd (none-ne-some k (sym p.no_fd ∙ h));
    calm = p.calm;
  }

  pub when_open-Shut :
      (s : Handle ServerStream)
      → Unclosed s
      → (d : Option ℕ) → s.fd ≡ d
      → Shut (run (when_open d (close_fd >> forget)) s)
  unfolding when_open pure close_fd forget event ◌>>◌
  when_open-Shut s p none n = record { no_fd = n; unclosed = p }
  when_open-Shut s p (some k) e = record { no_fd = refl; unclosed = Unclosed-Basic.shuts.leads s p }

  pub modify-Unclosed : (g : ServerStream → ServerStream) → Preserves Unclosed (modify g)
  unfolding modify
  modify-Unclosed g = record {
    leads = λ s p. record { none_yet = p.none_yet; calm = (modify-Calm g).leads s p.calm };
  }

  pub cleanup-Shut : Ensures Unclosed cleanup Shut
  unfolding cleanup ◌>>=◌ fd_of
  cleanup-Shut = record { leads = λ s p. when_open-Shut s p s.fd refl }

  pub closed-Over : Ensures Shut (event (fired close)) Over
  unfolding event
  closed-Over = record {
    leads = λ s p. record {
      no_fd = p.no_fd;
      once = omega (arith, p.unclosed.none_yet);
      calm = closed-Calm s p.no_fd p.unclosed.calm;
    };
  }

  pub on_close-Over : Ensures Shut on_close Over
  unfolding on_close fire
  on_close-Over =
      >>-Ensures closed-Over
        (>>=-Preserves ended-Preserves (λ gone. when-Preserves gone (destroy-Preserves Over-Basic)))

  pub closing-Once : Ensures Unclosed closing Once
  unfolding closing
  closing-Once =
      >>-Ensures cleanup-Shut
        (>>-Ensures (Ensures-weaken Over-Once on_close-Over) (pure-Preserves (some handled)))
