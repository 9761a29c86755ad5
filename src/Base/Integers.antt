-- ===== src/Base/Integers.antt =====
-- Integers over the native numbers, under the library's names.
use Prim.Native.Nat.{ℕ, zero, suc, ◌+◌, ◌-◌, ◌*◌, ◌/◌}
use mathlib.Core.Path.{◌≡◌, refl, ap}
use mathlib.Core.Bool.{Bool, true, false}
use mathlib.Core.Option.{Option, none, some}
use native.Mathlib.Omega.{arith}
use uav_router.Base.Tests.{ltb, leb, if◌then◌else◌}
use uav_router.Base.Orders.{Order}

pub data ℤ : Type 0 where
  pos : ℕ → ℤ
  negsuc : ℕ → ℤ

-- a - b
abbrev pub minus : ℕ → ℕ → ℤ
minus a b = if leb b a then pos (a - b) else negsuc (b - a - 1)

infixl 60 ◌+ℤ◌
abbrev pub ◌+ℤ◌ : ℤ → ℤ → ℤ
pos a +ℤ pos b = pos (a + b)
pos a +ℤ negsuc b = minus a (suc b)
negsuc a +ℤ pos b = minus b (suc a)
negsuc a +ℤ negsuc b = negsuc (a + b + 1)

-- `a << 8`
abbrev pub shift_8 : ℤ → ℤ
shift_8 (pos a) = pos (a * 256)
shift_8 (negsuc a) = negsuc (a * 256 + 255)

-- `n / a` towards zero; there is none by zero.
abbrev pub quotient : ℕ → ℤ → Option ℤ
quotient n (pos zero) = none
quotient n (pos (suc a)) = some (pos (n / suc a))
quotient n (negsuc a) = some (minus 0 (n / suc a))

abbrev pub ltℤ : ℤ → ℤ → Bool
ltℤ (pos a) (pos b) = ltb a b
ltℤ (pos a) (negsuc b) = false
ltℤ (negsuc a) (pos b) = true
ltℤ (negsuc a) (negsuc b) = ltb b a

pub ltℤ_irrefl : (a : ℤ) → ltℤ a a ≡ false
ltℤ_irrefl (pos a) = ground arith
ltℤ_irrefl (negsuc a) = ground arith

pub ltℤ_trans : (a b c : ℤ) → ltℤ a b ≡ true → ltℤ b c ≡ true → ltℤ a c ≡ true
ltℤ_trans (pos a) (pos b) (pos c) h k = ground arith
ltℤ_trans (pos a) (pos b) (negsuc c) h k = k
ltℤ_trans (pos a) (negsuc b) (pos c) h k = ground arith
ltℤ_trans (pos a) (negsuc b) (negsuc c) h k = h
ltℤ_trans (negsuc a) (pos b) (pos c) h k = refl
ltℤ_trans (negsuc a) (pos b) (negsuc c) h k = ground arith
ltℤ_trans (negsuc a) (negsuc b) (pos c) h k = refl
ltℤ_trans (negsuc a) (negsuc b) (negsuc c) h k = ground arith

pub ltℤ_connected : (a b : ℤ) → ltℤ a b ≡ false → ltℤ b a ≡ false → a ≡ b
ltℤ_connected (pos a) (pos b) h k = ap pos (ground arith)
ltℤ_connected (pos a) (negsuc b) h k = ground arith
ltℤ_connected (negsuc a) (pos b) h k = ground arith
ltℤ_connected (negsuc a) (negsuc b) h k = ap negsuc (ground arith)

instance abbrev pub integer_order : Order ℤ
integer_order = record {
  lt = ltℤ;
  lt_irrefl = ltℤ_irrefl;
  lt_trans = ltℤ_trans;
  lt_connected = ltℤ_connected;
}
