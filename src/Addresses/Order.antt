-- ===== src/Addresses/Order.antt =====
-- Class SockAddr in src/sockaddr.cpp as its order sees it: no address, or the bytes of one, as many
-- as its length says.
mod Tests
use uav_router.Base.{
  ℕ, suc, ◌≡◌, refl, sym, ap, ◌∙◌, Bool, true, false, Option, none, some, List, [], ◌∷◌,
  if◌then◌else◌, Bool-cases, inl, inr, Bytes, length, ltb, ◌==◌, ==_iff, arith,
}

abbrev pub SockAddr : Type 0
SockAddr = Option Bytes

-- `memcmp(…)<0`
unfoldable pub memcmp_lt : Bytes → Bytes → Bool
memcmp_lt [] bs = false
memcmp_lt (a ∷ rest_a) [] = false
memcmp_lt (a ∷ rest_a) (b ∷ bs) = let rest = memcmp_lt rest_a bs in if a == b then rest else ltb a b

-- `operator<`
unfoldable pub less : SockAddr → SockAddr → Bool
unfolding memcmp_lt
less none none = true
less (some a) (some b) = if length a == length b then memcmp_lt a b else ltb (length a) (length b)
less none (some b) = false
less (some a) none = false

memcmp_lt_trans :
    (a b c : Bytes) → memcmp_lt a b ≡ true → memcmp_lt b c ≡ true → memcmp_lt a c ≡ true
unfolding memcmp_lt
memcmp_lt_trans [] b c h k = absurd (ground (arith, h))
memcmp_lt_trans (x ∷ a) [] c h k = absurd (ground (arith, h))
memcmp_lt_trans (x ∷ a) (y ∷ b) [] h k = absurd (ground (arith, k))
memcmp_lt_trans (x ∷ a) (y ∷ b) (z ∷ c) h k = ground (arith, memcmp_lt_trans a b c)

memcmp_lt_connected :
    (a b : Bytes) → length a ≡ length b → memcmp_lt a b ≡ false → memcmp_lt b a ≡ false → a ≡ b
unfolding memcmp_lt
memcmp_lt_connected [] [] l h k = refl
memcmp_lt_connected [] (y ∷ b) l h k = absurd (omega arith)
memcmp_lt_connected (x ∷ a) [] l h k = absurd (omega arith)
memcmp_lt_connected (x ∷ a) (y ∷ b) l h k = elim (Bool-cases (x == y)) [
  | inl e ↦
      ap (λ z. z ∷ a) ((==_iff x y).0 e)
      ∙ ap (◌∷◌ y)
          (memcmp_lt_connected a b (omega arith) (ground (arith, h, e)) (ground (arith, k, e)))
  | inr e ↦ absurd (ground (arith, h, k, e))
]

-- Among addresses that are not empty, the order is transitive.
pub less_trans :
    (a b c : Bytes)
    → less (some a) (some b) ≡ true
    → less (some b) (some c) ≡ true
    → less (some a) (some c) ≡ true
unfolding less
less_trans a b c h k = ground (arith, memcmp_lt_trans a b c)

-- Two addresses that are not empty, and neither of which is before the other, are the same bytes.
pub less_connected :
    (a b : Bytes) → less (some a) (some b) ≡ false → less (some b) (some a) ≡ false → a ≡ b
unfolding less
less_connected a b h k = elim (Bool-cases (length a == length b)) [
  | inl e ↦
      memcmp_lt_connected a b ((==_iff (length a) (length b)).0 e) (ground (arith, h, e))
        (ground (arith, k, e))
  | inr e ↦ absurd (ground (arith, h, k, e))
]
