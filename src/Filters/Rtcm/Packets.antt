-- ===== src/Filters/Rtcm/Packets.antt =====
-- The packets that RTCM_v3 recognizes: 0xD3, the payload's length in ten bits, the payload, and
-- CRC-24Q over all of that, high byte first.
use Prim.Native.Nat.{bit_and, bit_or, bit_and-bitwise, digits}
use uav_router.Base.{
  ℕ, zero, suc, ◌+◌, ◌-◌, ◌*◌, ◌/◌, ◌≤◌, ◌<◌, ◌^◌, ◌≡◌, refl, sym, ◌∙◌, ◌⊎◌, inl, inr, Bool, true,
  false, [], ◌∷◌, ◌++◌, arith, min, ◌==◌, ==_iff, ltb, if◌then◌else◌, Bool-cases, Bytes, length,
  get_or, take, length-append, take-append, take_all, length-take, get_or-take, get_or-append,
}
use uav_router.Filters.Scan.{Verdict, more, reject, accept, Format}
use uav_router.Filters.Crc.{crc24}
use uav_router.Filters.Rtcm.Defs.{preamble, packet_size, payload_of, crc_at}

-- How long the packet is that begins so.
unfoldable pub size_of : Bytes → ℕ
size_of p = 6 + payload_of p

-- The digits of a conjunction are at most those of its second part.
digits-le : (n a b : ℕ) → digits (λ c. zero) min n a b ≤ b
digits-le zero zero b = omega arith
digits-le zero (suc a) b = omega arith
digits-le (suc n) zero b = omega arith
digits-le (suc n) (suc a) b = omega (arith, digits-le n (suc a / 2) (b / 2))

bit_and-le : (a b : ℕ) → bit_and a b ≤ b
bit_and-le a b = rw bit_and-bitwise (digits-le a a b)

-- The array holds the longest packet.
pub size_of-le : (p : Bytes) → (6 ≤ size_of p) × (size_of p ≤ packet_size)
unfolding size_of payload_of
size_of-le p = omega (arith, bit_and-le (bit_or (get_or p 1 0 * 2 ^ 8) (get_or p 2 0)) 0x3ff)

-- The three bytes at the end of `p` are the checksum of what stands before them.
unfoldable pub sums_up : Bytes → Bool
sums_up p = crc_at p (length p - 3) == crc24 (take (length p - 3) p)

pub record IsRtcm (p : Bytes) : Type 0 where
  pub starts : get_or p 0 0 ≡ preamble
  pub long : length p ≡ size_of p
  pub sums : sums_up p ≡ true

judge : ℕ → Bytes → Verdict
judge size bs =
    if ltb (length bs) size then more else if sums_up (take size bs) then accept size else reject 1

unfoldable pub classify : Bytes → Verdict
unfolding judge
classify [] = more
classify (b ∷ bs) =
    if b == preamble
    then (if ltb (length bs) 2 then more else judge (size_of (b ∷ bs)) (b ∷ bs))
    else reject 1

judge-stable :
    (size : ℕ) (bs rest : Bytes)
    → (judge size bs ≡ more) ⊎ (judge size (bs ++ rest) ≡ judge size bs)
unfolding judge
judge-stable size bs rest = elim (Bool-cases (ltb (length bs) size)) [
  | inl short ↦ inl (rw short)
  | inr long ↦ inr (ground (arith, length-append bs rest, take-append size bs rest))
]

-- The length stands in the first three bytes.
pub size_of-eq :
    (p q : Bytes)
    → get_or p 1 0 ≡ get_or q 1 0
    → get_or p 2 0 ≡ get_or q 2 0
    → size_of p ≡ size_of q
unfolding size_of payload_of
size_of-eq p q e f = rw (e, f)

classify-stable : (bs rest : Bytes) → (classify bs ≡ more) ⊎ (classify (bs ++ rest) ≡ classify bs)
unfolding classify
classify-stable [] rest = inl refl
classify-stable (b ∷ bs) rest = elim (Bool-cases (ltb (length bs) 2)) [
  | inl short ↦ ground arith
  | inr long ↦ ground (
    arith,
    length-append bs rest,
    size_of-eq ((b ∷ bs) ++ rest) (b ∷ bs),
    get_or-append (b ∷ bs) rest 1 0,
    get_or-append (b ∷ bs) rest 2 0,
    judge-stable (size_of (b ∷ bs)) (b ∷ bs) rest,
  )
]

-- How a front of three bytes with the right preamble is judged.
classify-judge :
    (p : Bytes) → get_or p 0 0 ≡ preamble → 3 ≤ length p → classify p ≡ judge (size_of p) p
unfolding classify
classify-judge [] h l = absurd (omega arith)
classify-judge (b ∷ bs) h l = ground arith

-- What a verdict tells of the front.
verdict_front :
    (p : Bytes)
    → (classify p ≡ more)
      ⊎ ((classify p ≡ reject 1) × (1 ≤ length p))
      ⊎ ((get_or p 0 0 ≡ preamble) × (3 ≤ length p))
unfolding classify
verdict_front [] = inl refl
verdict_front (b ∷ bs) = elim (Bool-cases (b == preamble)) [
  | inl p ↦ elim (Bool-cases (ltb (length bs) 2)) [
    | inl r ↦ inl (rw (p, r))
    | inr r ↦ inr (inr ((==_iff _ _).0 p, ground arith))
  ]
  | inr p ↦ inr (inl (rw p, omega arith))
]

judge_bounds :
    (size : ℕ) (p : Bytes) (n : ℕ)
    → 1 ≤ size
    → (judge size p ≡ reject n → (0 < n) × (n ≤ length p))
      × (judge size p ≡ accept n → (0 < n) × (n ≤ length p))
unfolding judge
judge_bounds size p n h = ground arith

pub reject_bounds_lem : (p : Bytes) (n : ℕ) → classify p ≡ reject n → (0 < n) × (n ≤ length p)
reject_bounds_lem p n e = elim (verdict_front p) [
  | inl m ↦ cc
  | inr (inl (r, l)) ↦ ground arith
  | inr (inr (a, l)) ↦
      (judge_bounds (size_of p) p n (omega (arith, size_of-le p))).0
        (sym (classify-judge p a l) ∙ e)
]

pub accept_bounds_lem : (p : Bytes) (n : ℕ) → classify p ≡ accept n → (0 < n) × (n ≤ length p)
accept_bounds_lem p n e = elim (verdict_front p) [
  | inl m ↦ cc
  | inr (inl (r, l)) ↦ cc
  | inr (inr (a, l)) ↦
      (judge_bounds (size_of p) p n (omega (arith, size_of-le p))).1
        (sym (classify-judge p a l) ∙ e)
]

judge-accept :
    (size : ℕ) (p : Bytes) (n : ℕ)
    → judge size p ≡ accept n
    → (n ≡ size) × (size ≤ length p) × (sums_up (take size p) ≡ true)
unfolding judge
judge-accept size p n e = ground arith

pub accept-IsRtcm : (p : Bytes) (n : ℕ) → classify p ≡ accept n → IsRtcm (take n p)
accept-IsRtcm p n e = elim (verdict_front p) [
  | inl m ↦ cc
  | inr (inl (r, l)) ↦ cc
  | inr (inr (a, l)) ↦
      let (same, long, sums) = judge-accept (size_of p) p n (sym (classify-judge p a l) ∙ e) in
      let six = size_of-le p in
      record {
        starts = get_or-take n p 0 0 (omega arith) ∙ a;
        long = omega (
          arith,
          length-take n p,
          size_of-eq (take n p) p (get_or-take n p 1 0 (omega arith))
              (get_or-take n p 2 0 (omega arith)),
        );
        sums = rw same sums;
      }
]

judge-whole :
    (p : Bytes)
    → length p ≡ size_of p
    → judge (size_of p) p ≡ (if sums_up p then accept (length p) else reject 1)
unfolding judge
judge-whole p l = ground (arith, take_all (size_of p) p)

pub IsRtcm-accept : (p : Bytes) → IsRtcm p → classify p ≡ accept (length p)
IsRtcm-accept p h =
    classify-judge p h.starts (omega (arith, h.long, size_of-le p))
    ∙ judge-whole p h.long
    ∙ (rw h.sums)

-- A packet with a wrong checksum is none.
pub bad-reject :
    (p : Bytes)
    → get_or p 0 0 ≡ preamble
    → length p ≡ size_of p
    → sums_up p ≡ false
    → classify p ≡ reject 1
bad-reject p h l e = classify-judge p h (omega (arith, size_of-le p)) ∙ judge-whole p l ∙ (rw e)

-- Packets that are not whole.
pub header-more : (p : Bytes) → get_or p 0 0 ≡ preamble → length p < 3 → classify p ≡ more
unfolding classify
header-more [] h l = refl
header-more (b ∷ bs) h l = ground arith

pub short-more :
    (p : Bytes) → get_or p 0 0 ≡ preamble → 3 ≤ length p → length p < size_of p → classify p ≡ more
unfolding judge
short-more p h l s = classify-judge p h l ∙ ground arith

pub other_bytes : (b : ℕ) (bs : Bytes) → (b == preamble) ≡ false → classify (b ∷ bs) ≡ reject 1
unfolding classify
other_bytes b bs h = ground arith

pub reject_stable_lem :
    (bs rest : Bytes) (n : ℕ) → classify bs ≡ reject n → classify (bs ++ rest) ≡ reject n
reject_stable_lem bs rest n e = ground (arith, classify-stable bs rest)

pub accept_stable_lem :
    (bs rest : Bytes) (n : ℕ) → classify bs ≡ accept n → classify (bs ++ rest) ≡ accept n
accept_stable_lem bs rest n e = ground (arith, classify-stable bs rest)

pub classify-nil_lem : classify [] ≡ more
unfolding classify
classify-nil_lem = refl

unfoldable pub rtcm_format : Format
rtcm_format = record {
  classify = classify;
  IsPacket = IsRtcm;
  classify-nil = classify-nil_lem;
  reject_bounds = reject_bounds_lem;
  accept_bounds = accept_bounds_lem;
  reject_stable = reject_stable_lem;
  accept_stable = accept_stable_lem;
  accept-IsPacket = accept-IsRtcm;
  IsPacket-accept = IsRtcm-accept;
}
