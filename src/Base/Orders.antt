-- ===== src/Base/Orders.antt =====
-- Strict total orders with a Boolean test, as std::less gives them to std::map and std::set.
use Prim.Native.Nat.{ℕ, Ordering, compare}
use Prim.Native.Char.{code}
use Prim.Native.String.{String, [], ◌∷◌, then, compare as compare_text}
use Prim.Native.String.compare as text_compare
use mathlib.Core.Path.{◌≡◌, refl, sym, ap, ◌∙◌}
use mathlib.Core.Logic.{◌⊎◌, inl, inr}
use mathlib.Core.Bool.{Bool, true, false}
use native.Mathlib.Omega.{arith, compare-lt, compare-eq, compare-gt}
use text.Mathlib.TextEquality.{path_by_compare}
use text.Mathlib.TextPositions.{compare_refl}
use uav_router.Base.Tests.{ltb}

pub record Order {ℓ} (A : Type ℓ) : Type ℓ where
  pub lt : A → A → Bool
  pub lt_irrefl : (a : A) → lt a a ≡ false
  pub lt_trans : (a b c : A) → lt a b ≡ true → lt b c ≡ true → lt a c ≡ true
  pub lt_connected : (a b : A) → lt a b ≡ false → lt b a ≡ false → a ≡ b

pub ltb_irrefl : (a : ℕ) → ltb a a ≡ false
ltb_irrefl a = ground arith

pub ltb_trans : (a b c : ℕ) → ltb a b ≡ true → ltb b c ≡ true → ltb a c ≡ true
ltb_trans a b c h k = ground arith

pub ltb_connected : (a b : ℕ) → ltb a b ≡ false → ltb b a ≡ false → a ≡ b
ltb_connected a b h k = ground arith

instance abbrev pub nat_order : Order ℕ
nat_order = record {
  lt = ltb;
  lt_irrefl = ltb_irrefl;
  lt_trans = ltb_trans;
  lt_connected = ltb_connected;
}

abbrev pub text_lt : String → String → Bool
text_lt s t = elim (compare_text s t) [ Ordering.lt ↦ true | _ ↦ false ]

is_lt : (o : Ordering) → elim o [ Ordering.lt ↦ true | _ ↦ false ] ≡ true → o ≡ Ordering.lt
is_lt Ordering.lt h = refl
is_lt Ordering.eq h = ground arith
is_lt Ordering.gt h = ground arith

then_lt :
    (o p : Ordering)
    → then o p ≡ Ordering.lt
    → (o ≡ Ordering.lt) ⊎ ((o ≡ Ordering.eq) × (p ≡ Ordering.lt))
then_lt Ordering.lt p h = inl refl
then_lt Ordering.eq p h = inr (refl, h)
then_lt Ordering.gt p h = ground arith

then_trans :
    (x y z : ℕ) (p q r : Ordering)
    → (p ≡ Ordering.lt → q ≡ Ordering.lt → r ≡ Ordering.lt)
    → then (compare x y) p ≡ Ordering.lt
    → then (compare y z) q ≡ Ordering.lt
    → then (compare x z) r ≡ Ordering.lt
then_trans x y z p q r step h k = elim (then_lt (compare x y) p h) [
  | inl a ↦ elim (then_lt (compare y z) q k) [
    | inl b ↦ rw (lt_trans_nat x y z a b) refl
    | inr (b, q1) ↦ rw (sym (compare-eq y z b), a) refl
  ]
  | inr (a, p1) ↦ elim (then_lt (compare y z) q k) [
    | inl b ↦ rw (compare-eq x y a, b) refl
    | inr (b, q1) ↦ rw (compare-eq x y a, b) (step p1 q1)
  ]
]
  where
    lt_trans_nat :
        (x y z : ℕ)
        → compare x y ≡ Ordering.lt
        → compare y z ≡ Ordering.lt
        → compare x z ≡ Ordering.lt
    lt_trans_nat x y z a b = ground (arith, compare-lt x y a, compare-lt y z b)

compare_trans :
    (s t u : String)
    → compare_text s t ≡ Ordering.lt
    → compare_text t u ≡ Ordering.lt
    → compare_text s u ≡ Ordering.lt
compare_trans [] [] u h k = k
compare_trans [] (y ∷ t) [] h k = ground (arith, text_compare.cons-nil y t)
compare_trans [] (y ∷ t) (z ∷ u) h k = text_compare.nil-cons z u
compare_trans (x ∷ s) [] u h k = ground (arith, text_compare.cons-nil x s)
compare_trans (x ∷ s) (y ∷ t) [] h k = ground (arith, text_compare.cons-nil y t)
compare_trans (x ∷ s) (y ∷ t) (z ∷ u) h k =
    text_compare.cons-cons x z s u
    ∙ then_trans (code x) (code y) (code z) (compare_text s t) (compare_text t u) (compare_text s u)
        (compare_trans s t u) (sym (text_compare.cons-cons x y s t) ∙ h)
        (sym (text_compare.cons-cons y z t u) ∙ k)

then_flip :
    (x y : ℕ) (p q : Ordering)
    → (p ≡ Ordering.gt → q ≡ Ordering.lt)
    → then (compare x y) p ≡ Ordering.gt
    → then (compare y x) q ≡ Ordering.lt
then_flip x y p q step h = elim (compare-cases (compare x y)) [
  | inl a ↦ absurd (ground (arith, a))
  | inr (inl a) ↦ rw (compare-eq x y a) (rw (compare_self y) (step (rw_eq x y p a h)))
  | inr (inr a) ↦ rw (flip x y a) refl
]
  where
    compare_self : (y : ℕ) → compare y y ≡ Ordering.eq
    compare_self y = ground arith

    compare-cases : (o : Ordering) → (o ≡ Ordering.lt) ⊎ ((o ≡ Ordering.eq) ⊎ (o ≡ Ordering.gt))
    compare-cases Ordering.lt = inl refl
    compare-cases Ordering.eq = inr (inl refl)
    compare-cases Ordering.gt = inr (inr refl)

    rw_eq :
        (x y : ℕ) (p : Ordering)
        → compare x y ≡ Ordering.eq
        → then (compare x y) p ≡ Ordering.gt
        → p ≡ Ordering.gt
    rw_eq x y p a h = sym (ap (λ o. then o p) a) ∙ h

    flip : (x y : ℕ) → compare x y ≡ Ordering.gt → compare y x ≡ Ordering.lt
    flip x y a = ground (arith, compare-gt x y a)

compare_flip : (s t : String) → compare_text s t ≡ Ordering.gt → compare_text t s ≡ Ordering.lt
compare_flip [] [] h = ground (arith, text_compare.nil-nil)
compare_flip [] (y ∷ t) h = ground (arith, text_compare.nil-cons y t)
compare_flip (x ∷ s) [] h = text_compare.nil-cons x s
compare_flip (x ∷ s) (y ∷ t) h =
    text_compare.cons-cons y x t s
    ∙ then_flip (code x) (code y) (compare_text s t) (compare_text t s) (compare_flip s t)
        (sym (text_compare.cons-cons x y s t) ∙ h)

pub text_lt_trans : (s t u : String) → text_lt s t ≡ true → text_lt t u ≡ true → text_lt s u ≡ true
text_lt_trans s t u h k =
    rw (text_lt, compare_trans s t u (is_lt (compare_text s t) h) (is_lt (compare_text t u) k)) refl

not_lt :
    (o : Ordering)
    → elim o [ Ordering.lt ↦ true | _ ↦ false ] ≡ false
    → (o ≡ Ordering.eq) ⊎ (o ≡ Ordering.gt)
not_lt Ordering.lt h = ground arith
not_lt Ordering.eq h = inl refl
not_lt Ordering.gt h = inr refl

pub text_lt_connected : (s t : String) → text_lt s t ≡ false → text_lt t s ≡ false → s ≡ t
text_lt_connected s t h k = elim (not_lt (compare_text s t) h) [
  | inl same ↦ path_by_compare s t same
  | inr after ↦
      absurd (
        ground
          (arith, ap (λ o. elim o [ Ordering.lt ↦ true | _ ↦ false ]) (compare_flip s t after)))
]

pub text_lt_irrefl : (s : String) → text_lt s s ≡ false
text_lt_irrefl s = rw (text_lt, compare_refl s) refl

instance abbrev pub text_order : Order String
text_order = record {
  lt = text_lt;
  lt_irrefl = text_lt_irrefl;
  lt_trans = text_lt_trans;
  lt_connected = text_lt_connected;
}
