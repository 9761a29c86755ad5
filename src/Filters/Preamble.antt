-- ===== src/Filters/Preamble.antt =====
-- The search for the first byte of a packet: memchr over the bytes read, where each byte passed
-- over is rejected by the format.
use uav_router.Base.{
  ℕ, zero, suc, ◌<◌, ◌≡◌, ap, inl, inr, none, some, false, List, [], ◌∷◌, ◌++◌, arith, ◌==◌, ==_iff,
  Bool-cases, Bytes, length, take, drop,
}
use uav_router.Filters.Source.{memchr}
use uav_router.Filters.Scan.{Format, reject, Event, skip_all, Scans, wait, skip}

-- Where memchr finds the byte.
pub memchr-some :
    (c : ℕ) (bs : Bytes) (i : ℕ)
    → memchr c bs ≡ some i
    → (i < length bs) × (drop i bs ≡ c ∷ drop (suc i) bs)
unfolding memchr
memchr-some c [] i e = cc
memchr-some c (b ∷ bs) zero e = elim (Bool-cases (b == c)) [
  | inl same ↦ (omega arith, ap (λ t. t ∷ bs) ((==_iff b c).0 same))
  | inr other ↦ absurd (ground arith)
]
memchr-some c (b ∷ bs) (suc i) e =
    let later : memchr c bs ≡ some i = ground arith in
    let (lt, at) = memchr-some c bs i later in (omega arith, at)

-- The formats of which every byte but `c` is rejected at the front.
module _ (F : Format) (c : ℕ)
    (other : (b : ℕ) (bs : Bytes) → (b == c) ≡ false → F.classify (b ∷ bs) ≡ reject 1) where
  -- With no such byte the whole source is skipped.
  pub memchr-none-Scans : (bs : Bytes) → memchr c bs ≡ none → Scans F bs (skip_all bs) []
  unfolding memchr
  memchr-none-Scans [] e = wait F.classify-nil
  memchr-none-Scans (b ∷ bs) e = elim (Bool-cases (b == c)) [
    | inl same ↦ absurd (ground arith)
    | inr differs ↦ skip 1 (other b bs differs) (memchr-none-Scans bs (ground arith))
  ]

  -- The bytes before it are skipped.
  pub memchr-some-Scans :
      (bs : Bytes) (i : ℕ) {es : List Event} {rest : Bytes}
      → memchr c bs ≡ some i
      → Scans F (drop i bs) es rest
      → Scans F bs (skip_all (take i bs) ++ es) rest
  unfolding memchr
  memchr-some-Scans [] i e s = cc
  memchr-some-Scans (b ∷ bs) zero e s = s
  memchr-some-Scans (b ∷ bs) (suc i) e s = elim (Bool-cases (b == c)) [
    | inl same ↦ absurd (ground arith)
    | inr differs ↦ skip 1 (other b bs differs) (memchr-some-Scans bs i (ground arith) s)
  ]
