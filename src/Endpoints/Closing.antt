-- ===== src/Endpoints/Closing.antt =====
-- How the endpoints of src/src/impl close their descriptor: `close(_fd); _fd = -1`, guarded or not.
use mathlib.Core.Option.{none-ne-some}
use uav_router.Base.{Bool, ℕ, Option, none, some, ◌≡◌, sym, ◌∙◌, inl, inr, Bool-cases}
use uav_router.Endpoints.Os.{Os, Callback, fired}
use uav_router.Endpoints.Handle.{Handle, M, run, ◌>>◌, when_open, close_fd, forget, pure, event}
use uav_router.Endpoints.Triples.{Ensures, Preserves, >>-Ensures}
use uav_router.Endpoints.Descriptors.{Guarded, Vacant, is_open, close_fd-Idle, forget-Sound}

module _ ⦃os : Os⦄ {X : Type 0} {b : Bool} where
  pub close-forget-then-Sound :
      {A : Type 0} {k : M X A}
      → Preserves (Guarded b) k
      → Preserves (Guarded b) (close_fd >> (forget >> k))
  close-forget-then-Sound h = >>-Ensures close_fd-Idle (>>-Ensures forget-Sound h)

  pub forget-Idle : Preserves {X = X} (Vacant b) forget
  unfolding forget
  forget-Idle = record {
    leads = λ s p. record { disciplined = p.disciplined; all_closed = p.all_closed };
  }

  pub fired-Idle : (c : Callback) → Preserves {X = X} (Vacant b) (event (fired c))
  unfolding event
  fired-Idle c = record {
    leads = λ s p. record {
      disciplined = (λ k h. absurd (none-ne-some k h), p.disciplined);
      all_closed = p.all_closed;
    };
  }

  closing-Idle : Ensures {X = X} (Guarded b) (close_fd >> forget) (Vacant b)
  closing-Idle = >>-Ensures close_fd-Idle forget-Idle

  pub unheld-Idle : (s : Handle X) → s.fd ≡ none → Guarded b s → Vacant b s
  unheld-Idle s n p = record {
    disciplined = p.disciplined;
    all_closed = λ k. elim (Bool-cases (is_open k s.history)) [
      | inl o ↦ absurd (none-ne-some k (sym n ∙ p.only k o))
      | inr o ↦ o
    ];
  }

  -- What `if (_fd!=-1)` guards, with what the test has found.
  pub when_open-Idle :
      (s : Handle X)
      → Guarded b s
      → (d : Option ℕ) → s.fd ≡ d
      → Vacant b (run (when_open d (close_fd >> forget)) s)
  unfolding when_open pure
  when_open-Idle s p none n = unheld-Idle s n p
  when_open-Idle s p (some k) e = closing-Idle.leads s p
