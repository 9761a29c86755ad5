-- ===== src/Endpoints/Descriptors.antt =====
-- Which descriptors are open after a history, and the discipline that an endpoint keeps with its own.
use mathlib.Core.Option.{none-ne-some, some-injective}
use mathlib.Core.Bool.{false≢true}
use uav_router.Base.{
  ℕ, Bool, true, false, not, ◌&&◌, ◌||◌, Option, none, some, [], ◌∷◌, ◌==◌, ◌≡◌, ◌≢◌, refl, sym,
  ◌∙◌, ap, ◌⊎◌, inl, inr, Option-cases, Bool-cases, arith,
}
use uav_router.Endpoints.Os.{
  Os, Event, History, Call, Request, Callback, created, opened, given, closed, called, asked, fired,
  ok, failed, Answer,
}
use uav_router.Endpoints.Handle.{
  Handle, run, ◌>>◌, forget, end, modify, event, call, close_fd, ask, open_fd, keep_opened,
}
use uav_router.Endpoints.Triples.{triples, Ensures, Preserves, >>-Ensures, >>=-Ensures}

abbrev pub is : ℕ → Option ℕ → Bool
is k none = false
is k (some j) = j == k

-- Whether descriptor k is open and not handed on.
abbrev pub is_open : ℕ → History → Bool
is_open k [] = false
is_open k (opened j ∷ h) = (j == k) || is_open k h
is_open k (given j ∷ h) = not (j == k) && is_open k h
is_open k (closed d ∷ h) = not (is k d) && is_open k h
is_open k (created ∷ h) = is_open k h
is_open k (called c d ∷ h) = is_open k h
is_open k (asked r ∷ h) = is_open k h
is_open k (fired c ∷ h) = is_open k h

-- The descriptor that an event takes out of use, or where `strict`, uses.
abbrev pub used : Bool → Event → Option ℕ
used strict created = none
used strict (opened j) = none
used strict (given j) = some j
used strict (closed d) = d
used true (called c d) = d
used false (called c d) = none
used strict (asked r) = none
used strict (fired c) = none

-- Every descriptor is open where it is closed or handed on, so that this is done once at most; where
-- `strict`, also where something is called on it.
abbrev pub Disciplined : Bool → History → Type 0
Disciplined strict [] = Unit
Disciplined strict (e ∷ h) =
    ((k : ℕ) → used strict e ≡ some k → is_open k h ≡ true) × Disciplined strict h

-- The descriptor of the object is open, and it is the only one that is.
pub record Guarded (strict : Bool) {X : Type 0} (s : Handle X) : Type 0 where
  pub disciplined : Disciplined strict s.history
  pub held : (k : ℕ) → s.fd ≡ some k → is_open k s.history ≡ true
  pub only : (k : ℕ) → is_open k s.history ≡ true → s.fd ≡ some k

-- No descriptor is open.
pub record Vacant (strict : Bool) {X : Type 0} (s : Handle X) : Type 0 where
  pub disciplined : Disciplined strict s.history
  pub all_closed : (k : ℕ) → is_open k s.history ≡ false

abbrev pub Sound : {X : Type 0} → Handle X → Type 0
Sound = Guarded true

abbrev pub Idle : {X : Type 0} → Handle X → Type 0
Idle = Vacant true

abbrev pub Owned : {X : Type 0} → Handle X → Type 0
Owned = Guarded false

abbrev pub Freed : {X : Type 0} → Handle X → Type 0
Freed = Vacant false

called_used :
    (b : Bool) (c : Call) (d : Option ℕ) (k : ℕ) → used b (called c d) ≡ some k → d ≡ some k
called_used true c d k h = h
called_used false c d k h = absurd (none-ne-some k h)

-- Two numbers are one, or their test is false.
pub same-or : (j k : ℕ) → (j ≡ k) ⊎ ((j == k) ≡ false)
same-or j k = ground arith

pub ==_refl : (k : ℕ) → (k == k) ≡ true
==_refl k = ground arith

different : (j k : ℕ) → (j == k) ≡ false → j ≢ k
different j k h e = ground arith

or_false : (a : Bool) → (a || false) ≡ a
or_false true = refl
or_false false = refl

closed_or : {a b : Bool} → a ≡ false → (a || b) ≡ b
closed_or h = rw h refl

module _ ⦃os : Os⦄ {X : Type 0} {b : Bool} where
  pub call-Sound : (c : Call) → Preserves {X = X} (Guarded b) (call c)
  unfolding call event
  call-Sound c = record {
    leads = λ s p. record {
      disciplined = (λ k h. p.held k (called_used b c s.fd k h), p.disciplined);
      held = p.held;
      only = p.only;
    };
  }

  pub ask-Sound : (r : Request) → Preserves {X = X} (Guarded b) (ask r)
  unfolding ask event
  ask-Sound r = record {
    leads = λ s p. record {
      disciplined = (λ k h. absurd (none-ne-some k h), p.disciplined);
      held = p.held;
      only = p.only;
    };
  }

  pub fired-Sound : (c : Callback) → Preserves {X = X} (Guarded b) (event (fired c))
  unfolding event
  fired-Sound c = record {
    leads = λ s p. record {
      disciplined = (λ k h. absurd (none-ne-some k h), p.disciplined);
      held = p.held;
      only = p.only;
    };
  }

  closed-Idle : (s : Handle X) → Guarded b s → Vacant b (run close_fd s)
  unfolding close_fd event
  closed-Idle s p = record {
    disciplined = (p.held, p.disciplined);
    all_closed = λ k. elim (Option-cases s.fd) [
      | inl n ↦ elim (Bool-cases (is_open k s.history)) [
        | inl o ↦ absurd (none-ne-some k (sym n ∙ p.only k o))
        | inr o ↦ rw (n, o) refl
      ]
      | inr (j, e) ↦ elim (same-or j k) [
        | inl jk ↦ rw (e, jk, ==_refl k) refl
        | inr jk ↦ elim (Bool-cases (is_open k s.history)) [
          | inl o ↦ absurd (different j k jk (some-injective j k (sym e ∙ p.only k o)))
          | inr o ↦ rw (e, jk, o) refl
        ]
      ]
    ];
  }

  pub close_fd-Idle : Ensures {X = X} (Guarded b) close_fd (Vacant b)
  close_fd-Idle = record { leads = closed-Idle }

  pub forget-Sound : Ensures {X = X} (Vacant b) forget (Guarded b)
  unfolding forget
  forget-Sound = record {
    leads = λ s p. record {
      disciplined = p.disciplined;
      held = λ k h. absurd (none-ne-some k h);
      only = λ k o. absurd (false≢true (sym (p.all_closed k) ∙ o));
    };
  }

  created-Idle : Preserves {X = X} (Vacant b) (event created)
  unfolding event
  created-Idle = record {
    leads = λ s p. record {
      disciplined = (λ k h. absurd (none-ne-some k h), p.disciplined);
      all_closed = p.all_closed;
    };
  }

  keep_opened-Sound : (a : Answer) → Ensures {X = X} (Vacant b) (keep_opened a) (Guarded b)
  unfolding keep_opened
  keep_opened-Sound (failed e) = record {
    leads = λ s p. record {
      disciplined = p.disciplined;
      held = λ k h. absurd (none-ne-some k h);
      only = λ k o. absurd (false≢true (sym (p.all_closed k) ∙ o));
    };
  }
  keep_opened-Sound (ok j) = record {
    leads = λ s p. record {
      disciplined = (λ k h. absurd (none-ne-some k h), p.disciplined);
      held = λ k h. rw (some-injective j k h, ==_refl k) refl;
      only = λ k o. elim (same-or j k) [
        | inl jk ↦ ap some jk
        | inr jk ↦ absurd (false≢true (sym (p.all_closed k) ∙ sym (closed_or jk) ∙ o))
      ];
    };
  }

  pub open_fd-Sound : Ensures {X = X} (Vacant b) open_fd (Guarded b)
  unfolding open_fd
  open_fd-Sound = >>=-Ensures created-Idle keep_opened-Sound

  pub close-forget-Sound : Preserves {X = X} (Guarded b) (close_fd >> forget)
  close-forget-Sound = >>-Ensures close_fd-Idle forget-Sound

module _ {X : Type 0} {b : Bool} where
  pub end-Sound : Preserves {X = X} (Guarded b) end
  unfolding end
  end-Sound = record {
    leads = λ s p. record { disciplined = p.disciplined; held = p.held; only = p.only };
  }

  pub modify-Sound : (f : X → X) → Preserves (Guarded b) (modify f)
  unfolding modify
  modify-Sound f = record {
    leads = λ s p. record { disciplined = p.disciplined; held = p.held; only = p.only };
  }

  -- An object that starts with a descriptor.
  pub opened-Sound :
      (k : ℕ) (x : X)
      → Guarded b (record { fd = some k; exists = true; history = opened k ∷ []; own = x })
  opened-Sound k x = record {
    disciplined = (λ j h. absurd (none-ne-some j h), tt);
    held = λ j h. rw (some-injective k j h, ==_refl j) refl;
    only = λ j o. elim (same-or k j) [
      | inl kj ↦ ap some kj
      | inr kj ↦ absurd (false≢true (sym kj ∙ sym (or_false (k == j)) ∙ o))
    ];
  }

-- What keeps to the discipline, strict or not.
pub ruleset keeping =
    (triples, call-Sound, ask-Sound, fired-Sound, close-forget-Sound, end-Sound, modify-Sound)
