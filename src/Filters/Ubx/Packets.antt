-- ===== src/Filters/Ubx/Packets.antt =====
-- The packets that UBX recognizes: 0xB5 0x62, class, message, the payload's length in two bytes, low
-- byte first, the payload, and two sums.
use uav_router.Base.{
  ℕ, ◌+◌, ◌-◌, ◌*◌, ◌^◌, ◌≤◌, ◌<◌, ◌≡◌, refl, sym, ◌∙◌, ◌⊎◌, inl, inr, Bool, true, false, [], ◌∷◌,
  ◌++◌, ◌&&◌, arith, ◌==◌, ==_iff, ltb, if◌then◌else◌, Bool-cases, Bytes, length, get_or, take,
  drop, length-append, take-append, take_all, length-take, get_or-take, get_or-append,
}
use uav_router.Filters.Scan.{Verdict, more, reject, accept, Format}
use uav_router.Filters.Crc.{fletcher}
use uav_router.Filters.Ubx.Defs.{preamble0, preamble1}

-- How long the packet is that begins so.
abbrev pub size_of : Bytes → ℕ
size_of p = 8 + (get_or p 4 0 + get_or p 5 0 * 2 ^ 8)

-- The two bytes at the end of `p` are the sums of what stands between them and the preamble.
unfoldable pub sums_up : Bytes → Bool
sums_up p =
    let (crc1, crc2) = fletcher 0 0 (take (length p - 4) (drop 2 p)) in
    crc1 == get_or p (length p - 2) 0 && crc2 == get_or p (length p - 1) 0

pub record IsUbx (p : Bytes) : Type 0 where
  pub starts : get_or p 0 0 ≡ preamble0
  pub goes_on : get_or p 1 0 ≡ preamble1
  pub long : length p ≡ size_of p
  pub sums : sums_up p ≡ true

judge : ℕ → Bytes → Verdict
judge size bs =
    if ltb (length bs) size then more else if sums_up (take size bs) then accept size else reject 2

unfoldable pub classify : Bytes → Verdict
unfolding judge
classify [] = more
classify (b ∷ []) = if b == preamble0 then more else reject 1
classify (b ∷ c ∷ bs) =
    if b == preamble0
    then (if c == preamble1
        then (if ltb (length bs) 4 then more else judge (size_of (b ∷ c ∷ bs)) (b ∷ c ∷ bs))
        else reject 1)
    else reject 1

judge-stable :
    (size : ℕ) (bs rest : Bytes)
    → (judge size bs ≡ more) ⊎ (judge size (bs ++ rest) ≡ judge size bs)
unfolding judge
judge-stable size bs rest = elim (Bool-cases (ltb (length bs) size)) [
  | inl short ↦ inl (rw short)
  | inr long ↦ inr (ground (arith, length-append bs rest, take-append size bs rest))
]

classify-stable : (bs rest : Bytes) → (classify bs ≡ more) ⊎ (classify (bs ++ rest) ≡ classify bs)
unfolding classify
classify-stable [] rest = inl refl
classify-stable (b ∷ []) [] = inr refl
classify-stable (b ∷ []) (c ∷ rest) = ground arith
classify-stable (b ∷ c ∷ bs) rest = elim (Bool-cases (ltb (length bs) 4)) [
  | inl short ↦ ground arith
  | inr long ↦ ground (
    arith,
    length-append bs rest,
    get_or-append (b ∷ c ∷ bs) rest 4 0,
    get_or-append (b ∷ c ∷ bs) rest 5 0,
    judge-stable (size_of (b ∷ c ∷ bs)) (b ∷ c ∷ bs) rest,
  )
]

-- How a front of six bytes with the right preamble is judged.
classify-judge :
    (p : Bytes)
    → get_or p 0 0 ≡ preamble0
    → get_or p 1 0 ≡ preamble1
    → 6 ≤ length p
    → classify p ≡ judge (size_of p) p
unfolding classify
classify-judge [] h k l = absurd (omega arith)
classify-judge (b ∷ []) h k l = absurd (omega arith)
classify-judge (b ∷ c ∷ bs) h k l = ground arith

-- What a verdict tells of the front.
verdict_front :
    (p : Bytes)
    → (classify p ≡ more)
      ⊎ ((classify p ≡ reject 1) × (1 ≤ length p))
      ⊎ ((get_or p 0 0 ≡ preamble0) × (get_or p 1 0 ≡ preamble1) × (6 ≤ length p))
unfolding classify
verdict_front [] = inl refl
verdict_front (b ∷ []) = ground arith
verdict_front (b ∷ c ∷ bs) = elim (Bool-cases (b == preamble0)) [
  | inl p ↦ elim (Bool-cases (c == preamble1)) [
    | inl q ↦ elim (Bool-cases (ltb (length bs) 4)) [
      | inl r ↦ inl (rw (p, q, r))
      | inr r ↦ inr (inr ((==_iff _ _).0 p, (==_iff _ _).0 q, ground arith))
    ]
    | inr q ↦ inr (inl (rw (p, q), omega arith))
  ]
  | inr p ↦ inr (inl (rw p, omega arith))
]

judge_bounds :
    (size : ℕ) (p : Bytes) (n : ℕ)
    → 2 ≤ size
    → (judge size p ≡ reject n → (0 < n) × (n ≤ length p))
      × (judge size p ≡ accept n → (0 < n) × (n ≤ length p))
unfolding judge
judge_bounds size p n h = ground arith

pub reject_bounds_lem : (p : Bytes) (n : ℕ) → classify p ≡ reject n → (0 < n) × (n ≤ length p)
reject_bounds_lem p n e = elim (verdict_front p) [
  | inl m ↦ cc
  | inr (inl (r, l)) ↦ ground arith
  | inr (inr (a, b, l)) ↦
      (judge_bounds (size_of p) p n (omega arith)).0 (sym (classify-judge p a b l) ∙ e)
]

pub accept_bounds_lem : (p : Bytes) (n : ℕ) → classify p ≡ accept n → (0 < n) × (n ≤ length p)
accept_bounds_lem p n e = elim (verdict_front p) [
  | inl m ↦ cc
  | inr (inl (r, l)) ↦ cc
  | inr (inr (a, b, l)) ↦
      (judge_bounds (size_of p) p n (omega arith)).1 (sym (classify-judge p a b l) ∙ e)
]

judge-accept :
    (size : ℕ) (p : Bytes) (n : ℕ)
    → judge size p ≡ accept n
    → (n ≡ size) × (size ≤ length p) × (sums_up (take size p) ≡ true)
unfolding judge
judge-accept size p n e = ground arith

pub accept-IsUbx : (p : Bytes) (n : ℕ) → classify p ≡ accept n → IsUbx (take n p)
accept-IsUbx p n e = elim (verdict_front p) [
  | inl m ↦ cc
  | inr (inl (r, l)) ↦ cc
  | inr (inr (a, b, l)) ↦
      let (same, long, sums) = judge-accept (size_of p) p n (sym (classify-judge p a b l) ∙ e) in
      record {
        starts = get_or-take n p 0 0 (omega arith) ∙ a;
        goes_on = get_or-take n p 1 0 (omega arith) ∙ b;
        long = omega (
          arith,
          length-take n p,
          get_or-take n p 4 0 (omega arith),
          get_or-take n p 5 0 (omega arith),
        );
        sums = rw same sums;
      }
]

judge-whole :
    (p : Bytes)
    → length p ≡ size_of p
    → judge (size_of p) p ≡ (if sums_up p then accept (length p) else reject 2)
unfolding judge
judge-whole p l = ground (arith, take_all (size_of p) p)

pub IsUbx-accept : (p : Bytes) → IsUbx p → classify p ≡ accept (length p)
IsUbx-accept p h =
    classify-judge p h.starts h.goes_on (omega (arith, h.long)) ∙ judge-whole p h.long ∙ (rw h.sums)

-- A packet with wrong sums is none.
pub bad-reject :
    (p : Bytes)
    → get_or p 0 0 ≡ preamble0
    → get_or p 1 0 ≡ preamble1
    → length p ≡ size_of p
    → sums_up p ≡ false
    → classify p ≡ reject 2
bad-reject p h k l e = classify-judge p h k (omega arith) ∙ judge-whole p l ∙ (rw e)

-- Packets that are not whole.
pub one-more : (p : Bytes) → get_or p 0 0 ≡ preamble0 → length p ≡ 1 → classify p ≡ more
unfolding classify
one-more [] h l = refl
one-more (b ∷ []) h l = ground arith
one-more (b ∷ c ∷ bs) h l = absurd (omega arith)

pub header-more :
    (p : Bytes)
    → get_or p 0 0 ≡ preamble0
    → get_or p 1 0 ≡ preamble1
    → length p < 6
    → classify p ≡ more
unfolding classify
header-more [] h k l = refl
header-more (b ∷ []) h k l = ground arith
header-more (b ∷ c ∷ bs) h k l = ground arith

pub short-more :
    (p : Bytes)
    → get_or p 0 0 ≡ preamble0
    → get_or p 1 0 ≡ preamble1
    → 6 ≤ length p
    → length p < size_of p
    → classify p ≡ more
unfolding judge
short-more p h k l s = classify-judge p h k l ∙ ground arith

-- Behind the first byte of the preamble another than the second is no packet.
pub wrong-reject :
    (xs : Bytes)
    → 0 < length xs
    → (get_or xs 0 0 == preamble1) ≡ false
    → classify (preamble0 ∷ xs) ≡ reject 1
unfolding classify
wrong-reject [] h e = absurd (omega arith)
wrong-reject (c ∷ bs) h e = ground arith

pub other_bytes : (b : ℕ) (bs : Bytes) → (b == preamble0) ≡ false → classify (b ∷ bs) ≡ reject 1
unfolding classify
other_bytes b [] h = ground arith
other_bytes b (c ∷ bs) h = ground arith

pub reject_stable_lem :
    (bs rest : Bytes) (n : ℕ) → classify bs ≡ reject n → classify (bs ++ rest) ≡ reject n
reject_stable_lem bs rest n e = ground (arith, classify-stable bs rest)

pub accept_stable_lem :
    (bs rest : Bytes) (n : ℕ) → classify bs ≡ accept n → classify (bs ++ rest) ≡ accept n
accept_stable_lem bs rest n e = ground (arith, classify-stable bs rest)

pub classify-nil_lem : classify [] ≡ more
unfolding classify
classify-nil_lem = refl

unfoldable pub ubx_format : Format
ubx_format = record {
  classify = classify;
  IsPacket = IsUbx;
  classify-nil = classify-nil_lem;
  reject_bounds = reject_bounds_lem;
  accept_bounds = accept_bounds_lem;
  reject_stable = reject_stable_lem;
  accept_stable = accept_stable_lem;
  accept-IsPacket = accept-IsUbx;
  IsPacket-accept = IsUbx-accept;
}
