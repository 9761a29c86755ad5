-- ===== src/Endpoints/Tcp/Server/Holding.antt =====
-- The descriptors of TcpServerImpl in src/src/impl/tcpsvr.h while it sets up a client: its own, and
-- that of the client.
use mathlib.Core.Path.{subst}
use mathlib.Core.Option.{none-ne-some, some-injective}
use mathlib.Core.Bool.{false≢true}
use uav_router.Base.{
  ℕ, Bool, true, false, ◌||◌, Option, none, some, ◌∷◌, ◌≡◌, ◌≢◌, refl, sym, ap, ◌∙◌, ◌⊎◌, inl, inr,
}
use uav_router.Endpoints.Os.{Os, Call, Callback, Request, History, opened, given, closed, fired}
use uav_router.Endpoints.Handle.{
  Handle, run, ◌>>◌, event, call, call_on, close_on, close_fd, ask, forget, end,
}
use uav_router.Endpoints.Triples.{Ensures, Preserves}
use uav_router.Endpoints.Descriptors.{Sound, Disciplined, is_open, ==_refl, same-or}

-- The client k is open, and beside it only the descriptor of the server.
pub record Holding (k : ℕ) {X : Type 0} (s : Handle X) : Type 0 where
  pub disciplined : Disciplined true s.history
  pub held : (j : ℕ) → s.fd ≡ some j → is_open j s.history ≡ true
  pub client : is_open k s.history ≡ true
  pub only : (j : ℕ) → is_open j s.history ≡ true → (s.fd ≡ some j) ⊎ (k ≡ j)
  pub apart : s.fd ≢ some k

pub shut_open :
    (d : Option ℕ) (j : ℕ) (h : History)
    → is_open j (closed d ∷ h) ≡ true
    → (is_open j h ≡ true) × (d ≢ some j)
shut_open none j h o = (o, none-ne-some j)
shut_open (some i) j h o = elim (same-or i j) [
  | inl e ↦ absurd (false≢true (sym (rw (e, ==_refl j) refl) ∙ o))
  | inr e ↦ (
    sym (rw e refl) ∙ o,
    λ same. absurd (false≢true (sym e ∙ rw (some-injective i j same) (==_refl j))),
  )
]

kept_open :
    (d : Option ℕ) (j : ℕ) (h : History)
    → d ≢ some j
    → is_open j h ≡ true
    → is_open j (closed d ∷ h) ≡ true
kept_open none j h ne o = o
kept_open (some i) j h ne o = elim (same-or i j) [
  | inl e ↦ absurd (ne (ap some e))
  | inr e ↦ rw (e, o) refl
]

or_true : (a b : Bool) → b ≡ true → (a || b) ≡ true
or_true true b h = refl
or_true false b h = h

or_left : {a b : Bool} → a ≡ false → (a || b) ≡ b
or_left h = rw h refl

module _ ⦃os : Os⦄ {X : Type 0} {k : ℕ} where
  pub call-Holding : (c : Call) → Preserves {X = X} (Holding k) (call c)
  unfolding call event
  call-Holding c = record {
    leads = λ s p. record {
      disciplined = (p.held, p.disciplined);
      held = p.held;
      client = p.client;
      only = p.only;
      apart = p.apart;
    };
  }

  pub call_on-Holding : (c : Call) → Preserves {X = X} (Holding k) (call_on k c)
  unfolding call_on event
  call_on-Holding c = record {
    leads = λ s p. record {
      disciplined = (
        λ j h. subst (λ i. is_open i s.history ≡ true) (some-injective k j h) p.client,
        p.disciplined,
      );
      held = p.held;
      client = p.client;
      only = p.only;
      apart = p.apart;
    };
  }

  pub fired-Holding : (c : Callback) → Preserves {X = X} (Holding k) (event (fired c))
  unfolding event
  fired-Holding c = record {
    leads = λ s p. record {
      disciplined = (λ j h. absurd (none-ne-some j h), p.disciplined);
      held = p.held;
      client = p.client;
      only = p.only;
      apart = p.apart;
    };
  }

  pub ask-Holding : (r : Request) → Preserves {X = X} (Holding k) (ask r)
  unfolding ask event
  ask-Holding r = record {
    leads = λ s p. record {
      disciplined = (λ j h. absurd (none-ne-some j h), p.disciplined);
      held = p.held;
      client = p.client;
      only = p.only;
      apart = p.apart;
    };
  }

  pub end-Holding : Preserves {X = X} (Holding k) end
  unfolding end
  end-Holding = record {
    leads = λ s p. record {
      disciplined = p.disciplined;
      held = p.held;
      client = p.client;
      only = p.only;
      apart = p.apart;
    };
  }

  -- Without a descriptor of the server's own only the client is open.
  pub close-forget-Holding : Preserves {X = X} (Holding k) (close_fd >> forget)
  unfolding close_fd forget event ◌>>◌
  close-forget-Holding = record {
    leads = λ s p. record {
      disciplined = (p.held, p.disciplined);
      held = λ j h. absurd (none-ne-some j h);
      client = kept_open s.fd k s.history p.apart p.client;
      only = λ j o.
          let (before, ne) = shut_open s.fd j s.history o in
          elim (p.only j before) [ inl e ↦ absurd (ne e) | inr e ↦ inr e ];
      apart = none-ne-some k;
    };
  }

  let_go :
      (s : Handle X)
      → Holding k s
      → (j : ℕ) → is_open j (closed (some k) ∷ s.history) ≡ true
      → s.fd ≡ some j
  let_go s p j o =
      let (before, ne) = shut_open (some k) j s.history o in
      elim (p.only j before) [ inl e ↦ e | inr e ↦ absurd (ne (ap some e)) ]

  pub close_on-Sound : Ensures {X = X} (Holding k) (close_on k) Sound
  unfolding close_on event
  close_on-Sound = record {
    leads = λ s p. record {
      disciplined = (
        λ j h. subst (λ i. is_open i s.history ≡ true) (some-injective k j h) p.client,
        p.disciplined,
      );
      held = λ j h. kept_open (some k) j s.history (λ same. p.apart (h ∙ sym same)) (p.held j h);
      only = let_go s p;
    };
  }

  pub given-Sound : Ensures {X = X} (Holding k) (event (given k)) Sound
  unfolding event
  given-Sound = record {
    leads = λ s p. record {
      disciplined = (
        λ j h. subst (λ i. is_open i s.history ≡ true) (some-injective k j h) p.client,
        p.disciplined,
      );
      held = λ j h. kept_open (some k) j s.history (λ same. p.apart (h ∙ sym same)) (p.held j h);
      only = let_go s p;
    };
  }

  -- A client that the kernel has just opened.
  pub opened-Holding :
      (s : Handle X) → Sound s → is_open k s.history ≡ false → Holding k (run (event (opened k)) s)
  unfolding event
  opened-Holding s p new = record {
    disciplined = (λ j h. absurd (none-ne-some j h), p.disciplined);
    held = λ j h. or_true _ _ (p.held j h);
    client = rw (==_refl k) refl;
    only =
        λ j o. elim (same-or k j) [ inl e ↦ inr e | inr e ↦ inl (p.only j (sym (or_left e) ∙ o)) ];
    apart = λ e. false≢true (sym new ∙ p.held k e);
  }
