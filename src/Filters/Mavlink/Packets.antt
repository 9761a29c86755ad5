-- ===== src/Filters/Mavlink/Packets.antt =====
-- The packets that Mavlink_v1 recognizes: 0xFE, the payload's length, the sequence number, the
-- system, the component, the message, the payload, and a checksum of two bytes, low byte first.
use uav_router.Base.{
  ℕ, ◌+◌, ◌-◌, ◌*◌, ◌^◌, ◌≤◌, ◌<◌, ◌≡◌, refl, ◌∙◌, ◌⊎◌, inl, inr, Option, Bool, true, false, [],
  ◌∷◌, ◌++◌, arith, ◌==◌, ltb, if◌then◌else◌, Bool-cases, Bytes, length, get_or, take, drop,
  length-append, take-append, take_all, length-take, get_or-take,
}
use uav_router.Filters.Scan.{Verdict, more, reject, accept, Format}
use uav_router.Filters.Crc.{crc_calculate}
use uav_router.Filters.Mavlink.Defs.{stx, add_extra}

-- The checksum at the end of `p` is that of what stands between it and the first byte.
unfoldable pub sums_up : Option Bytes → Bytes → Bool
sums_up extra p =
    get_or p (length p - 2) 0 + get_or p (length p - 1) 0 * 2 ^ 8
    == add_extra extra (get_or p 5 0) (crc_calculate (take (length p - 3) (drop 1 p)))

-- A packet of this seed table.
pub record IsMavlink (extra : Option Bytes) (p : Bytes) : Type 0 where
  pub starts : get_or p 0 0 ≡ stx
  pub long : length p ≡ 8 + get_or p 1 0
  pub sums : sums_up extra p ≡ true

judge : Option Bytes → ℕ → Bytes → Verdict
judge extra size bs =
    if ltb (length bs) size
    then more
    else if sums_up extra (take size bs)
    then accept size
    else reject 1

unfoldable pub classify : Option Bytes → Bytes → Verdict
unfolding judge
classify extra [] = more
classify extra (b ∷ []) = if b == stx then more else reject 1
classify extra (b ∷ n ∷ bs) = if b == stx then judge extra (8 + n) (b ∷ n ∷ bs) else reject 1

judge-stable :
    (extra : Option Bytes) (size : ℕ) (bs rest : Bytes)
    → (judge extra size bs ≡ more) ⊎ (judge extra size (bs ++ rest) ≡ judge extra size bs)
unfolding judge
judge-stable extra size bs rest = elim (Bool-cases (ltb (length bs) size)) [
  | inl short ↦ inl (rw short)
  | inr long ↦ inr (ground (arith, length-append bs rest, take-append size bs rest))
]

classify-stable :
    (extra : Option Bytes) (bs rest : Bytes)
    → (classify extra bs ≡ more) ⊎ (classify extra (bs ++ rest) ≡ classify extra bs)
unfolding classify
classify-stable extra [] rest = inl refl
classify-stable extra (b ∷ []) [] = inr refl
classify-stable extra (b ∷ []) (c ∷ rest) = ground arith
classify-stable extra (b ∷ n ∷ bs) rest =
    ground (arith, judge-stable extra (8 + n) (b ∷ n ∷ bs) rest)

pub classify_bounds :
    (extra : Option Bytes) (bs : Bytes) (n : ℕ)
    → (classify extra bs ≡ reject n → (0 < n) × (n ≤ length bs))
      × (classify extra bs ≡ accept n → (0 < n) × (n ≤ length bs))
unfolding classify
classify_bounds extra [] n = ground arith
classify_bounds extra (b ∷ []) n = ground arith
classify_bounds extra (b ∷ k ∷ bs) n = ground arith

pub accept-IsMavlink :
    (extra : Option Bytes) (bs : Bytes) (n : ℕ)
    → classify extra bs ≡ accept n
    → IsMavlink extra (take n bs)
unfolding classify
accept-IsMavlink extra [] n e = cc
accept-IsMavlink extra (b ∷ []) n e = absurd (ground arith)
accept-IsMavlink extra (b ∷ k ∷ bs) n e =
    let e1 : n ≡ 8 + k = ground arith in
    let long : n ≤ length (b ∷ k ∷ bs) = ground arith in
    let start : b ≡ stx = ground arith in
    record {
      starts = get_or-take n (b ∷ k ∷ bs) 0 0 (omega arith) ∙ start;
      long =
          omega (arith, length-take n (b ∷ k ∷ bs), get_or-take n (b ∷ k ∷ bs) 1 0 (omega arith));
      sums = ground arith;
    }

pub IsMavlink-accept :
    (extra : Option Bytes) (p : Bytes) → IsMavlink extra p → classify extra p ≡ accept (length p)
unfolding classify
IsMavlink-accept extra [] h = absurd (omega (arith, h.long))
IsMavlink-accept extra (b ∷ []) h = absurd (omega (arith, h.long))
IsMavlink-accept extra (b ∷ k ∷ bs) h =
    let whole : take (8 + k) (b ∷ k ∷ bs) ≡ b ∷ k ∷ bs =
      take_all (8 + k) (b ∷ k ∷ bs) (omega (arith, h.long)) in
    ground (arith, h.starts, h.long, h.sums)

-- A packet with a wrong checksum is none.
pub bad-reject :
    (extra : Option Bytes) (p : Bytes)
    → get_or p 0 0 ≡ stx
    → length p ≡ 8 + get_or p 1 0
    → sums_up extra p ≡ false
    → classify extra p ≡ reject 1
unfolding classify
bad-reject extra [] h l e = absurd (omega arith)
bad-reject extra (b ∷ []) h l e = absurd (omega arith)
bad-reject extra (b ∷ k ∷ bs) h l e =
    let whole : take (8 + k) (b ∷ k ∷ bs) ≡ b ∷ k ∷ bs =
      take_all (8 + k) (b ∷ k ∷ bs) (omega arith) in
    ground arith

-- A packet that is not whole.
pub short-more :
    (extra : Option Bytes) (p : Bytes)
    → get_or p 0 0 ≡ stx
    → length p < 8 + get_or p 1 0
    → classify extra p ≡ more
unfolding classify
short-more extra [] h l = refl
short-more extra (b ∷ []) h l = ground arith
short-more extra (b ∷ k ∷ bs) h l = ground arith

pub classify-nil_lem : (extra : Option Bytes) → classify extra [] ≡ more
unfolding classify
classify-nil_lem extra = refl

pub reject_stable_lem :
    (extra : Option Bytes) (bs rest : Bytes) (n : ℕ)
    → classify extra bs ≡ reject n
    → classify extra (bs ++ rest) ≡ reject n
reject_stable_lem extra bs rest n e = ground (arith, classify-stable extra bs rest)

pub accept_stable_lem :
    (extra : Option Bytes) (bs rest : Bytes) (n : ℕ)
    → classify extra bs ≡ accept n
    → classify extra (bs ++ rest) ≡ accept n
accept_stable_lem extra bs rest n e = ground (arith, classify-stable extra bs rest)

-- The format of the recognizer with this seed table.
unfoldable pub mavlink_format : Option Bytes → Format
mavlink_format extra = record {
  classify = classify extra;
  IsPacket = IsMavlink extra;
  classify-nil = classify-nil_lem extra;
  reject_bounds = λ bs n. (classify_bounds extra bs n).0;
  accept_bounds = λ bs n. (classify_bounds extra bs n).1;
  reject_stable = reject_stable_lem extra;
  accept_stable = accept_stable_lem extra;
  accept-IsPacket = accept-IsMavlink extra;
  IsPacket-accept = IsMavlink-accept extra;
}
