-- ===== src/Filters/MavlinkFilter/Rate.antt =====
-- How often Mavlink_v1_filter lets a message pass, and what it does with the packets.
use uav_router.Base.{
  ℕ, ◌+◌, ◌≤◌, ◌≡◌, ◌≢◌, refl, sym, ap, ◌∙◌, Option, none, some, Bool, true, false, List, [], ◌∷◌,
  arith, Bool-cases, inl, inr, ◌==◌, ==_iff, ℤ, pos, negsuc, integer_order, find, find-put_same,
  find-put_other,
}
use uav_router.Filters.MavlinkFilter.Defs.{
  MavlinkFilter, Set, too_soon, last_of, time_of, set_last, freq_test, sys_passes, msg_passes,
  freq_passes, passed,
}

pub record Arrival : Type 0 where
  pub system : ℕ
  pub component : ℕ
  pub message : ℕ
  pub time : ℕ

abbrev pub AllFrom : ℕ → List Arrival → Type 0
AllFrom t [] = Unit {0}
AllFrom t (a ∷ rest) = (t ≤ a.time) × AllFrom t rest

pos_apart : (i k : ℕ) → (i == k) ≡ false → pos i ≢ pos k
pos_apart i k e same = ground (arith, e, ap number same)
  where
    number : ℤ → ℕ
    number (pos a) = a
    number (negsuc a) = a

last_of-set_last_same : (k n : ℕ) (m : MavlinkFilter) → last_of k (set_last k n m) ≡ n
unfolding last_of
last_of-set_last_same k n m = ap time_of (find-put_same (pos k) n m.last_send_time)

last_of-set_last_other :
    (i k n : ℕ) (m : MavlinkFilter) → (i == k) ≡ false → last_of i (set_last k n m) ≡ last_of i m
unfolding last_of
last_of-set_last_other i k n m e =
    ap time_of (find-put_other (pos i) (pos k) n m.last_send_time (pos_apart i k e))

-- A time that is `t` or later stays so.
last_of-set_last :
    (t i k n : ℕ) (m : MavlinkFilter)
    → t ≤ last_of i m
    → (k ≡ i → t ≤ n)
    → t ≤ last_of i (set_last k n m)
last_of-set_last t i k n m h late = elim (Bool-cases (i == k)) [
  | inl e ↦
      let same = (==_iff i k).0 e in rw same (rw (last_of-set_last_same k n m) (late (sym same)))
  | inr e ↦ rw (last_of-set_last_other i k n m e) h
]

freq_test-last :
    (o : Option ℤ) (t i k now : ℕ) (m : MavlinkFilter)
    → t ≤ last_of i m
    → t ≤ now
    → t ≤ last_of i (freq_test o k now m).1
unfolding freq_test last_of
freq_test-last none t i k now m h late = h
freq_test-last (some p) t i k now m h late = elim (Bool-cases (too_soon now (last_of k m) p)) [
  | inl s ↦ rw s (last_of-set_last t i k (last_of k m) m h (λ same. rw same h))
  | inr s ↦ rw s (last_of-set_last t i k now m h (λ same. late))
]

freq_test-period :
    (o : Option ℤ) (k now : ℕ) (m : MavlinkFilter)
    → (freq_test o k now m).1.silence_period ≡ m.silence_period
unfolding freq_test
freq_test-period none k now m = refl
freq_test-period (some p) k now m = elim (Bool-cases (too_soon now (last_of k m) p)) [
  | inl s ↦ rw s refl
  | inr s ↦ rw s refl
]

-- A packet that passes the test sets the time, and came a period after the one before.
freq_test-true :
    (k now p : ℕ) (m : MavlinkFilter)
    → (freq_test (some (pos p)) k now m).0 ≡ true
    → (last_of k m + p ≤ now) × (now ≤ last_of k (freq_test (some (pos p)) k now m).1)
unfolding freq_test
freq_test-true k now p m h = elim (Bool-cases (too_soon now (last_of k m) (pos p))) [
  | inl s ↦ ground arith
  | inr s ↦ (ground arith, rw s (rw (last_of-set_last_same k now m) (omega arith)))
]

module _ (found : Set → Set → ℕ → Bool) where
  abbrev pub arrive : MavlinkFilter → Arrival → Bool × MavlinkFilter
  arrive m a = passed found a.system a.component a.message a.time m

  -- after some packets
  abbrev pub run : List Arrival → MavlinkFilter → MavlinkFilter
  run [] m = m
  run (a ∷ rest) m = run rest (arrive m a).1

  arrive-last :
      (t i : ℕ) (m : MavlinkFilter) (a : Arrival)
      → t ≤ last_of i m
      → t ≤ a.time
      → t ≤ last_of i (arrive m a).1
  unfolding passed freq_passes last_of
  arrive-last t i m a h late = elim (Bool-cases (sys_passes a.system a.component m)) [
    | inl s ↦ rw s (elim (Bool-cases (msg_passes found a.message m)) [
      | inl g ↦
          rw g
            (freq_test-last (find (pos a.message) m.silence_period) t i a.message a.time m h late)
      | inr g ↦ rw g h
    ])
    | inr s ↦ rw s h
  ]

  arrive-period :
      (m : MavlinkFilter) (a : Arrival) → (arrive m a).1.silence_period ≡ m.silence_period
  unfolding passed freq_passes
  arrive-period m a = elim (Bool-cases (sys_passes a.system a.component m)) [
    | inl s ↦ rw s (elim (Bool-cases (msg_passes found a.message m)) [
      | inl g ↦ rw g (freq_test-period (find (pos a.message) m.silence_period) a.message a.time m)
      | inr g ↦ rw g refl
    ])
    | inr s ↦ rw s refl
  ]

  run-last :
      (t i : ℕ) (m : MavlinkFilter) (between : List Arrival)
      → t ≤ last_of i m
      → AllFrom t between
      → t ≤ last_of i (run between m)
  run-last t i m [] h late = h
  run-last t i m (a ∷ rest) h late =
      run-last t i (arrive m a).1 rest (arrive-last t i m a h late.0) late.1

  run-period :
      (m : MavlinkFilter) (between : List Arrival)
      → (run between m).silence_period ≡ m.silence_period
  run-period m [] = refl
  run-period m (a ∷ rest) = run-period (arrive m a).1 rest ∙ arrive-period m a

  -- What passes has passed the frequency test.
  arrive-freq_passes :
      (m : MavlinkFilter) (a : Arrival)
      → (arrive m a).0 ≡ true
      → arrive m a ≡ freq_passes a.message a.time m
  unfolding passed
  arrive-freq_passes m a h = elim (Bool-cases (sys_passes a.system a.component m)) [
    | inl s ↦ elim (Bool-cases (msg_passes found a.message m)) [
      | inl g ↦ rw (s, g) refl
      | inr g ↦ absurd (ground (arith, h, s, g))
    ]
    | inr s ↦ absurd (ground (arith, h, s))
  ]

  arrive-true :
      (m : MavlinkFilter) (a : Arrival) (p : ℕ)
      → find (pos a.message) m.silence_period ≡ some (pos p)
      → (arrive m a).0 ≡ true
      → (last_of a.message m + p ≤ a.time) × (a.time ≤ last_of a.message (arrive m a).1)
  unfolding freq_passes
  arrive-true m a p e h =
      let tested : arrive m a ≡ freq_test (some (pos p)) a.message a.time m =
        arrive-freq_passes m a h ∙ ap (λ o. freq_test o a.message a.time m) e in
      rw tested (freq_test-true a.message a.time p m (sym (ap (λ r. r.0) tested) ∙ h))

  -- Where a message has a period `p` of silence, two packets with it that pass are `p` nanoseconds
  -- apart at least, whatever packets arrive between them, if none of those arrives before the first.
  pub passed-apart :
      (m : MavlinkFilter) (a b : Arrival) (between : List Arrival) (p : ℕ)
      → find (pos a.message) m.silence_period ≡ some (pos p)
      → b.message ≡ a.message
      → AllFrom a.time between
      → (arrive m a).0 ≡ true
      → (arrive (run between (arrive m a).1) b).0 ≡ true
      → a.time + p ≤ b.time
  passed-apart m a b between p e same late first second =
      let m1 = run between (arrive m a).1 in
      let kept = run-period (arrive m a).1 between ∙ arrive-period m a in
      let late1 =
        run-last a.time a.message (arrive m a).1 between (arrive-true m a p e first).1 late in
      let b1 =
        arrive-true m1 b p
          (ap (λ k. find (pos k) m1.silence_period) same ∙ ap (find (pos a.message)) kept ∙ e)
          second in
      omega (arith, b1.0, late1, ap (λ k. last_of k m1) same)
