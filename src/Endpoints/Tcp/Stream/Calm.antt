-- ===== src/Endpoints/Tcp/Stream/Calm.antt =====
-- When a stream calls on_close (TCPServerStream in src/src/impl/tcpsvr.h), and which descriptors are
-- open then.
use uav_router.Base.{ℕ, suc, none, false, [], ◌∷◌, ◌≡◌, refl, arith}
use uav_router.Endpoints.Os.{
  Os, Callback, History, fired, error, close, read, writeable, connected, delivered,
  named_writeable, named_close, register_report,
}
use uav_router.Endpoints.Handle.{Handle, run, ◌>>◌, event, call, ask, close_fd, forget, end, modify}
use uav_router.Endpoints.Triples.{Preserves}
use uav_router.Endpoints.Descriptors.{
  Sound, is_open, call-Sound, ask-Sound, fired-Sound, close-forget-Sound, end-Sound, modify-Sound,
}
use uav_router.Endpoints.Closing.{unheld-Idle}
use uav_router.Endpoints.Tcp.Stream.{ServerStream}
use uav_router.Endpoints.Tcp.Stream.Basics.{Basic}

-- How often on_close has been called.
abbrev pub closes : History → ℕ
closes [] = 0
closes (fired close ∷ h) = suc (closes h)
closes (e ∷ h) = closes h

-- Wherever on_close was called, no descriptor was open.
abbrev pub Quiet : History → Type 0
Quiet [] = Unit {0}
Quiet (fired close ∷ h) = ((k : ℕ) → is_open k h ≡ false) × Quiet h
Quiet (e ∷ h) = Quiet h

-- A callback that is not on_close.
pub fired-closes-Quiet :
    (c : Callback) (h : History)
    → closes (fired c ∷ []) ≡ 0
    → Quiet h
    → (closes (fired c ∷ h) ≡ closes h) × Quiet (fired c ∷ h)
fired-closes-Quiet (read buf) h n q = (refl, q)
fired-closes-Quiet writeable h n q = (refl, q)
fired-closes-Quiet error h n q = (refl, q)
fired-closes-Quiet close h n q = absurd (omega (arith, n))
fired-closes-Quiet (connected k) h n q = (refl, q)
fired-closes-Quiet (delivered name buf) h n q = (refl, q)
fired-closes-Quiet (named_writeable name) h n q = (refl, q)
fired-closes-Quiet (named_close name) h n q = (refl, q)

-- The discipline of the descriptor, with the calls of on_close.
pub record Calm (s : Handle ServerStream) : Type 0 where
  pub sound : Sound s
  pub quiet : Quiet s.history

module _ ⦃os : Os⦄ where
  pub Calm-Basic : Basic Calm
  unfolding call event close_fd forget end ◌>>◌
  Calm-Basic = record {
    calls = λ c. record {
      leads = λ s p. record { sound = (call-Sound c).leads s p.sound; quiet = p.quiet };
    };
    errors = record {
      leads = λ s p. record { sound = (fired-Sound error).leads s p.sound; quiet = p.quiet };
    };
    shuts = record {
      leads = λ s p. record { sound = close-forget-Sound.leads s p.sound; quiet = p.quiet };
    };
    ends = record { leads = λ s p. record { sound = end-Sound.leads s p.sound; quiet = p.quiet } };
  }

  pub fired-Calm : (c : Callback) → closes (fired c ∷ []) ≡ 0 → Preserves Calm (event (fired c))
  unfolding event
  fired-Calm c n = record {
    leads = λ s p. record {
      sound = (fired-Sound c).leads s p.sound;
      quiet = (fired-closes-Quiet c s.history n p.quiet).1;
    };
  }

  -- on_close, where the stream has no descriptor.
  pub closed-Calm :
      (s : Handle ServerStream) → s.fd ≡ none → Calm s → Calm (run (event (fired close)) s)
  unfolding event
  closed-Calm s n p = record {
    sound = (fired-Sound close).leads s p.sound;
    quiet = ((unheld-Idle s n p.sound).all_closed, p.quiet);
  }

  pub modify-Calm : (g : ServerStream → ServerStream) → Preserves Calm (modify g)
  unfolding modify
  modify-Calm g = record {
    leads = λ s p. record { sound = (modify-Sound g).leads s p.sound; quiet = p.quiet };
  }

  pub ask-Calm : Preserves Calm (ask register_report)
  unfolding ask event
  ask-Calm = record {
    leads = λ s p. record { sound = (ask-Sound register_report).leads s p.sound; quiet = p.quiet };
  }
