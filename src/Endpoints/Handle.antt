-- ===== src/Endpoints/Handle.antt =====
-- The part that the endpoints of src/src/impl share: the descriptor `_fd`, the flag `_exists`, and
-- the history of what the endpoint did; `own` holds the other members. The methods are written in a
-- monad over it.
use uav_router.Base.{ℕ, Bool, true, false, Option, none, some, List, ◌∷◌, Bytes}
use uav_router.Endpoints.Os.{
  Call, Callback, Request, Event, History, Answer, Os, ok, failed, opened, closed, called, asked,
  fired, created,
}

pub record Handle (X : Type 0) : Type 0 where
  pub fd : Option ℕ
  pub exists : Bool
  pub history : History
  pub own : X

abbrev pub M : Type 0 → Type 0 → Type 0
M X A = Handle X → A × Handle X

abbrev pub run : {X A : Type 0} → M X A → Handle X → Handle X
run m s = (m s).1

module _ {X A B : Type 0} where
  infixl 5 ◌>>=◌ ◌>>◌
  unfoldable pub ◌>>=◌ : M X A → (A → M X B) → M X B
  ◌>>=◌ m f s = let (a, s') = m s in f a s'

  unfoldable pub ◌>>◌ : M X A → M X B → M X B
  ◌>>◌ m k s = let (a, s') = m s in k s'

module _ {X : Type 0} where
  unfoldable pub pure : {A : Type 0} → A → M X A
  pure a s = (a, s)

  unfoldable pub fd_of : M X (Option ℕ)
  fd_of s = (s.fd, s)

  unfoldable pub alive : M X Bool
  alive s = (s.exists, s)

  unfoldable pub gets : {A : Type 0} → (X → A) → M X A
  gets f s = (f s.own, s)

  unfoldable pub modify : (X → X) → M X (Unit {0})
  modify f s = (tt, record s { own = f s.own })

  -- `_exists = false`
  unfoldable pub end : M X (Unit {0})
  end s = (tt, record s { exists = false })

  -- `_fd = -1`
  unfoldable pub forget : M X (Unit {0})
  forget s = (tt, record s { fd = none })

  unfoldable pub when : Bool → M X (Unit {0}) → M X (Unit {0})
  unfolding pure
  when true m = m
  when false m = pure tt

  -- `if (_fd!=-1) m`
  unfoldable pub when_open : Option ℕ → M X (Unit {0}) → M X (Unit {0})
  unfolding pure
  when_open (some k) m = m
  when_open none m = pure tt

  unfoldable pub choose : {A : Type 0} → Bool → M X A → M X A → M X A
  choose true m k = m
  choose false m k = k

module _ ⦃os : Os⦄ {X : Type 0} where
  unfoldable pub event : Event → M X Answer
  event e s = (os.answer (e ∷ s.history), record s { history = e ∷ s.history })

  -- A call on `_fd`.
  unfoldable pub call : Call → M X Answer
  unfolding event
  call c s = event (called c s.fd) s

  -- `close(_fd)`
  unfoldable pub close_fd : M X Answer
  unfolding event
  close_fd s = event (closed s.fd) s

  -- A call on another descriptor, and `close` of it.
  unfoldable pub call_on : ℕ → Call → M X Answer
  unfolding event
  call_on k c = event (called c (some k))

  unfoldable pub close_on : ℕ → M X Answer
  unfolding event
  close_on k = event (closed (some k))

  -- A call on a descriptor that may be -1.
  unfoldable pub call_at : Option ℕ → Call → M X Answer
  unfolding event
  call_at d c = event (called c d)

  unfoldable pub ask : Request → M X Answer
  unfolding event
  ask r = event (asked r)

  -- `_fd = socket(...)`
  unfoldable pub keep_opened : Answer → M X Answer
  unfolding event
  keep_opened (failed e) s = (failed e, record s { fd = none })
  keep_opened (ok k) s = (ok k, record s { fd = some k; history = opened k ∷ s.history })

  unfoldable pub open_fd : M X Answer
  unfolding event ◌>>=◌ keep_opened
  open_fd = event created >>= keep_opened

  -- Whether the callback that was made last destroys the object.
  unfoldable pub ended : M X Bool
  ended s = (os.ends s.history, s)

  unfoldable pub newest : M X Bytes
  newest s = (os.buffer s.history, s)

  unfoldable pub replies : M X (List Bytes)
  replies s = (os.replies s.history, s)

  -- A callback, which may destroy the object.
  unfoldable pub fire : M X (Unit {0}) → Callback → M X (Unit {0})
  unfolding event ended when ◌>>=◌ ◌>>◌
  fire destroy c = do event (fired c); gone ← ended; when gone destroy
