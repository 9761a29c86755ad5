-- ===== src/Endpoints/Tcp/Stream/Silent.antt =====
-- The stream of TCPServerStream in src/src/impl/tcpsvr.h after a write that the kernel took only in
-- part.
use mathlib.Core.Path.{subst}
use uav_router.Base.{
  ℕ, ◌==◌, ◌<◌, true, false, List, ◌∷◌, Bytes, length, ◌≡◌, refl, sym, ◌∙◌, arith,
}
use uav_router.Endpoints.Os.{Os, Answer, ok, failed, called, send}
use uav_router.Endpoints.Handle.{
  Handle, run, ◌>>=◌, ◌>>◌, pure, event, call, close_fd, forget, end, modify, gets, choose,
}
use uav_router.Endpoints.Triples.{
  Ensures, Preserves, >>=-Preserves, >>-Preserves, fd_of-Preserves, when_open-Preserves, >>-Ensures,
  pure-Preserves,
}
use uav_router.Endpoints.Tcp.Stream.{ServerStream, cleanup, destroy, sent, write}
use uav_router.Endpoints.Tcp.Stream.Plain.{Parts, Plain, methods-Plain, send_failed-Plain}
use uav_router.Endpoints.Tcp.Stream.Steps.{Step, perform_all, perform_all-Preserves}

abbrev Silent : Handle ServerStream → Type 0
Silent s = s.own.sends ≡ false

abbrev Any : Handle ServerStream → Type 0
Any s = Unit

short : {n k : ℕ} → n < k → (n == k) ≡ false
short h = ground arith

module _ ⦃os : Os⦄ where
  shut-Silent : Preserves Silent (close_fd >> forget)
  unfolding close_fd forget event ◌>>◌
  shut-Silent = record { leads = λ s p. p }

  end-Silent : Preserves Silent end
  unfolding end
  end-Silent = record { leads = λ s p. p }

  destroy-Silent : Preserves Silent destroy
  unfolding destroy cleanup
  destroy-Silent =
      >>-Preserves end-Silent
        (>>=-Preserves fd_of-Preserves (λ k. when_open-Preserves k shut-Silent))

  instance abbrev Silent-Parts : Parts Silent
  unfolding call event
  Silent-Parts = record {
    calls = λ c. record { leads = λ s p. p };
    fires = λ c. record { leads = λ s p. p };
    shuts = shut-Silent;
    destroys = destroy-Silent;
  }

  write_silent : (buf : Bytes) (s : Handle ServerStream) → Silent s → write buf s ≡ (ok 0, s)
  unfolding write ◌>>=◌ gets choose pure
  write_silent buf s h = rw h refl

  write-Silent : (buf : Bytes) → Preserves Silent (write buf)
  write-Silent buf = record {
    leads = λ s h. subst (λ t. Silent t.1) (sym (write_silent buf s h)) h;
  }

  instance abbrev Silent-Plain : Plain Silent
  unfolding modify
  Silent-Plain = record {
    modifies = λ f leaves. record { leads = λ s h. leaves s.own ∙ h };
    writes = write-Silent;
  }

  -- A `send` that does not take every byte.
  abbrev pub Short : Bytes → Answer → Type 0
  Short buf (ok n) = n < length buf
  Short buf (failed e) = Unit

  sent-Silent : (buf : Bytes) (a : Answer) → Short buf a → Ensures Any (sent buf a) Silent
  unfolding sent modify
  sent-Silent buf (failed e) h =
      >>-Ensures (record { leads = λ s p. refl })
        (>>-Preserves (send_failed-Plain e) (pure-Preserves (failed e)))
  sent-Silent buf (ok n) h =
      >>-Ensures (record { leads = λ s p. short h })
        (>>-Preserves (record { leads = λ s p. p }) (pure-Preserves (ok n)))

  first_write :
      (buf : Bytes) (s : Handle ServerStream)
      → s.own.sends ≡ true
      → Short buf (os.answer (called (send buf) s.fd ∷ s.history))
      → Silent (run (write buf) s)
  unfolding write ◌>>=◌ gets choose call event
  first_write buf s sends h = rw sends ((sent-Silent buf _ h).leads _ tt)

  -- The first write that the kernel does not take whole is the last: whatever happens to the stream
  -- afterwards, a later write sends nothing and returns 0.
  pub steps-Silent :
      (buf : Bytes) (s : Handle ServerStream)
      → s.own.sends ≡ true
      → Short buf (os.answer (called (send buf) s.fd ∷ s.history))
      → (steps : List Step) (later : Bytes)
      → write later (run (write buf >> perform_all steps) s)
        ≡ (ok 0, run (write buf >> perform_all steps) s)
  unfolding ◌>>◌
  steps-Silent buf s sends short steps later = write_silent later _ (
      (perform_all-Preserves methods-Plain write-Silent destroy-Silent steps).leads _
        (first_write buf s sends short))
