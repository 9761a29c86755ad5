-- ===== src/Endpoints/Triples.antt =====
-- What a method of an endpoint does to a predicate on its object, for the monad of Endpoints/Handle.
use uav_router.Base.{ℕ, Bool, true, false, Option, none, some}
use uav_router.Endpoints.Os.{Os, Callback, fired}
use uav_router.Endpoints.Handle.{
  Handle, M, run, ◌>>=◌, ◌>>◌, pure, fd_of, alive, gets, when, when_open, choose, event, ended,
  fire, newest, replies,
}

-- From every object with P, `m` leads to one with Q.
pub record Ensures {X A : Type 0} (P : Handle X → Type 0) (m : M X A) (Q : Handle X → Type 0)
    : Type 0 where
  pub leads : (s : Handle X) → P s → Q (run m s)

abbrev pub Preserves : {X A : Type 0} → (Handle X → Type 0) → M X A → Type 0
Preserves P m = Ensures P m P

module _ {X : Type 0} {P Q R : Handle X → Type 0} {A B : Type 0} where
  pub >>=-Ensures :
      {m : M X A} {f : A → M X B}
      → Ensures P m Q
      → ((a : A) → Ensures Q (f a) R)
      → Ensures P (m >>= f) R
  unfolding ◌>>=◌
  >>=-Ensures {m} {f} hm hf = record { leads = λ s p. (hf (m s).0).leads (m s).1 (hm.leads s p) }

  pub >>-Ensures : {m : M X A} {k : M X B} → Ensures P m Q → Ensures Q k R → Ensures P (m >> k) R
  unfolding ◌>>◌
  >>-Ensures {m} {k} hm hk = record { leads = λ s p. hk.leads (m s).1 (hm.leads s p) }

module _ {X A : Type 0} {P Q R : Handle X → Type 0} where
  pub Ensures-weaken : {m : M X A} → ((s : Handle X) → Q s → R s) → Ensures P m Q → Ensures P m R
  Ensures-weaken {m} w h = record { leads = λ s p. w (run m s) (h.leads s p) }

  pub Ensures-strengthen :
      {m : M X A} → ((s : Handle X) → P s → Q s) → Ensures Q m R → Ensures P m R
  Ensures-strengthen {m} w h = record { leads = λ s p. h.leads s (w s p) }

module _ {X : Type 0} {P : Handle X → Type 0} where
  pub >>=-Preserves :
      {A B : Type 0} {m : M X A} {f : A → M X B}
      → Preserves P m
      → ((a : A) → Preserves P (f a))
      → Preserves P (m >>= f)
  >>=-Preserves = >>=-Ensures

  pub >>-Preserves :
      {A B : Type 0} {m : M X A} {k : M X B} → Preserves P m → Preserves P k → Preserves P (m >> k)
  >>-Preserves = >>-Ensures

  pub pure-Preserves : {A : Type 0} (a : A) → Preserves P (pure {X = X} a)
  unfolding pure
  pure-Preserves a = record { leads = λ s p. p }

  pub fd_of-Preserves : Preserves P fd_of
  unfolding fd_of
  fd_of-Preserves = record { leads = λ s p. p }

  pub alive-Preserves : Preserves P alive
  unfolding alive
  alive-Preserves = record { leads = λ s p. p }

  pub gets-Preserves : {A : Type 0} (f : X → A) → Preserves P (gets f)
  unfolding gets
  gets-Preserves f = record { leads = λ s p. p }

  pub when-Preserves : (b : Bool) {m : M X (Unit {0})} → Preserves P m → Preserves P (when b m)
  unfolding when
  when-Preserves true h = h
  when-Preserves false h = pure-Preserves tt

  pub when-Ensures :
      {Q : Handle X → Type 0} (b : Bool) {m : M X (Unit {0})}
      → ((s : Handle X) → P s → Q s)
      → Ensures P m Q
      → Ensures P (when b m) Q
  unfolding when pure
  when-Ensures true w h = h
  when-Ensures false w h = record { leads = w }

  pub when_open-Preserves :
      (k : Option ℕ) {m : M X (Unit {0})} → Preserves P m → Preserves P (when_open k m)
  unfolding when_open
  when_open-Preserves (some k) h = h
  when_open-Preserves none h = pure-Preserves tt

  pub choose-Ensures :
      {Q : Handle X → Type 0} {A : Type 0} (b : Bool) {m k : M X A}
      → Ensures P m Q
      → Ensures P k Q
      → Ensures P (choose b m k) Q
  unfolding choose
  choose-Ensures true hm hk = hm
  choose-Ensures false hm hk = hk

  pub choose-Preserves :
      {A : Type 0} (b : Bool) {m k : M X A}
      → Preserves P m
      → Preserves P k
      → Preserves P (choose b m k)
  choose-Preserves = choose-Ensures

module _ ⦃os : Os⦄ {X : Type 0} {P : Handle X → Type 0} where
  pub newest-Preserves : Preserves P newest
  unfolding newest
  newest-Preserves = record { leads = λ s p. p }

  pub replies-Preserves : Preserves P replies
  unfolding replies
  replies-Preserves = record { leads = λ s p. p }

  pub ended-Preserves : Preserves P ended
  unfolding ended
  ended-Preserves = record { leads = λ s p. p }

  pub fire-Preserves :
      {destroy : M X (Unit {0})} (c : Callback)
      → Preserves P (event (fired c))
      → Preserves P destroy
      → Preserves P (fire destroy c)
  unfolding fire
  fire-Preserves c he hd =
      >>-Ensures he (>>=-Ensures ended-Preserves (λ gone. when-Preserves gone hd))

pub ruleset triples = (
  >>=-Preserves, >>-Preserves, pure-Preserves, fd_of-Preserves, alive-Preserves, gets-Preserves,
  when-Preserves, when_open-Preserves, choose-Preserves, newest-Preserves, replies-Preserves,
  ended-Preserves, fire-Preserves,
)
