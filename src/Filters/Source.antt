-- ===== src/Filters/Source.antt =====
-- Buffers as the filters of src/filters see them: where a call of `write` reads from, the C
-- functions memchr and memmove on the filter's own array, and the region a read leaves alone.
use uav_router.Base.{
  ℕ, zero, suc, ◌+◌, ◌-◌, ◌≤◌, ◌<◌, ◌≡◌, refl, sym, ap, ◌∙◌, Option, none, some, [], ◌∷◌, ◌++◌,
  arith, ◌==◌, if◌then◌else◌, Bytes, length, get_or, take, drop, length-take, length-drop,
  drop-drop, drop-take,
}
use mathlib.Core.Option

-- `ptr` and `len` of a call of `write`: the caller's buffer, or `len` bytes of the filter's own
-- array from an offset on, as in `write(packet.data() + 1, packet_len - 1)`.
pub data Source : Type 0 where
  caller : Bytes → Source
  own : ℕ → ℕ → Source

unfoldable pub len : Source → ℕ
len (caller bytes) = length bytes
len (own offset n) = n

-- The bytes that the source holds while the filter's array is `packet`.
unfoldable pub view : Bytes → Source → Bytes
view packet (caller bytes) = bytes
view packet (own offset n) = take n (drop offset packet)

-- `ptr += n; len -= n`
unfoldable pub advance : ℕ → Source → Source
advance n (caller bytes) = caller (drop n bytes)
advance n (own offset k) = own (offset + n) (k - n)

-- memchr: the index of the first `c`.
unfoldable pub memchr : ℕ → Bytes → Option ℕ
memchr c [] = none
memchr c (b ∷ bs) = if b == c then some 0 else Option.map suc (memchr c bs)

overwrite : Bytes → Bytes → Bytes
overwrite [] bytes = []
overwrite (x ∷ xs) [] = x ∷ xs
overwrite (x ∷ xs) (b ∷ bs) = b ∷ overwrite xs bs

-- `memmove(packet.data() + offset, …)` of bytes that were read before. What lies past the end of
-- the array is dropped; the bounds of each filter rule that out.
unfoldable pub blit : Bytes → ℕ → Bytes → Bytes
unfolding overwrite
blit packet zero bytes = overwrite packet bytes
blit [] (suc offset) bytes = []
blit (x ∷ xs) (suc offset) bytes = x ∷ blit xs offset bytes

length-overwrite : (xs bs : Bytes) → length (overwrite xs bs) ≡ length xs
unfolding overwrite
length-overwrite [] bs = refl
length-overwrite (x ∷ xs) [] = refl
length-overwrite (x ∷ xs) (b ∷ bs) = ap suc (length-overwrite xs bs)

pub length-blit : (xs : Bytes) (n : ℕ) (bs : Bytes) → length (blit xs n bs) ≡ length xs
unfolding blit
length-blit xs zero bs = length-overwrite xs bs
length-blit [] (suc n) bs = refl
length-blit (x ∷ xs) (suc n) bs = ap suc (length-blit xs n bs)

take-overwrite :
    (xs bs : Bytes) (k : ℕ) → k ≡ length bs → k ≤ length xs → take k (overwrite xs bs) ≡ bs
unfolding overwrite
take-overwrite xs [] zero e h = refl
take-overwrite xs [] (suc k) e h = absurd (omega arith)
take-overwrite xs (b ∷ bs) zero e h = absurd (omega arith)
take-overwrite [] (b ∷ bs) (suc k) e h = absurd (omega arith)
take-overwrite (x ∷ xs) (b ∷ bs) (suc k) e h =
    ap (◌∷◌ b) (take-overwrite xs bs k (omega arith) (omega arith))

-- What was written stands behind what was there before.
pub take-blit :
    (xs : Bytes) (n : ℕ) (bs : Bytes) (k : ℕ)
    → k ≡ n + length bs
    → k ≤ length xs
    → take k (blit xs n bs) ≡ take n xs ++ bs
unfolding blit
take-blit xs zero bs k e h = take-overwrite xs bs k (omega arith) h
take-blit [] (suc n) bs k e h = absurd (omega arith)
take-blit (x ∷ xs) (suc n) bs zero e h = absurd (omega arith)
take-blit (x ∷ xs) (suc n) bs (suc k) e h =
    ap (◌∷◌ x) (take-blit xs n bs k (omega arith) (omega arith))

drop-overwrite : (xs bs : Bytes) (k : ℕ) → length bs ≤ k → drop k (overwrite xs bs) ≡ drop k xs
unfolding overwrite
drop-overwrite [] bs k h = refl
drop-overwrite (x ∷ xs) [] k h = refl
drop-overwrite (x ∷ xs) (b ∷ bs) zero h = absurd (omega arith)
drop-overwrite (x ∷ xs) (b ∷ bs) (suc k) h = drop-overwrite xs bs k (omega arith)

-- What lies behind the bytes written stays as it was.
pub drop-blit :
    (xs : Bytes) (n : ℕ) (bs : Bytes) (k : ℕ)
    → n + length bs ≤ k
    → drop k (blit xs n bs) ≡ drop k xs
unfolding blit
drop-blit xs zero bs k h = drop-overwrite xs bs k (omega arith)
drop-blit [] (suc n) bs k h = refl
drop-blit (x ∷ xs) (suc n) bs zero h = absurd (omega arith)
drop-blit (x ∷ xs) (suc n) bs (suc k) h = drop-blit xs n bs k (omega arith)

-- Every value is a `uint8_t`.
abbrev pub AreBytes : Bytes → Type 0
AreBytes [] = Unit {0}
AreBytes (b ∷ bs) = (b < 256) × AreBytes bs

pub AreBytes-take : (n : ℕ) (bs : Bytes) → AreBytes bs → AreBytes (take n bs)
AreBytes-take zero bs h = tt
AreBytes-take (suc n) [] h = tt
AreBytes-take (suc n) (b ∷ bs) (h, hs) = (h, AreBytes-take n bs hs)

pub AreBytes-drop : (n : ℕ) (bs : Bytes) → AreBytes bs → AreBytes (drop n bs)
AreBytes-drop zero bs h = h
AreBytes-drop (suc n) [] h = tt
AreBytes-drop (suc n) (b ∷ bs) (h, hs) = AreBytes-drop n bs hs

pub AreBytes-get_or : (bs : Bytes) (i : ℕ) → AreBytes bs → get_or bs i 0 < 256
AreBytes-get_or [] i h = omega arith
AreBytes-get_or (b ∷ bs) zero (h, hs) = h
AreBytes-get_or (b ∷ bs) (suc i) (h, hs) = AreBytes-get_or bs i hs

AreBytes-overwrite : (xs bs : Bytes) → AreBytes xs → AreBytes bs → AreBytes (overwrite xs bs)
unfolding overwrite
AreBytes-overwrite [] bs h k = tt
AreBytes-overwrite (x ∷ xs) [] h k = h
AreBytes-overwrite (x ∷ xs) (b ∷ bs) (h, hs) (k, ks) = (k, AreBytes-overwrite xs bs hs ks)

pub AreBytes-blit :
    (xs : Bytes) (n : ℕ) (bs : Bytes) → AreBytes xs → AreBytes bs → AreBytes (blit xs n bs)
unfolding blit
AreBytes-blit xs zero bs h k = AreBytes-overwrite xs bs h k
AreBytes-blit [] (suc n) bs h k = tt
AreBytes-blit (x ∷ xs) (suc n) bs (h, hs) k = (h, AreBytes-blit xs n bs hs k)

-- The source holds bytes; in the filter's own array of `size` bytes it lies behind the first
-- `k + 1`.
abbrev pub Fits : ℕ → ℕ → Source → Type 0
Fits size k (caller bytes) = AreBytes bytes
Fits size k (own offset n) = (k < offset) × (offset + n ≤ size)

pub AreBytes-view :
    (packet : Bytes) (src : Source) (size k : ℕ)
    → AreBytes packet
    → Fits size k src
    → AreBytes (view packet src)
unfolding view
AreBytes-view packet (caller bytes) size k h f = f
AreBytes-view packet (own offset n) size k h f =
    AreBytes-take n (drop offset packet) (AreBytes-drop offset packet h)

module _ (packet : Bytes) where
  pub length-view :
      (src : Source) (k : ℕ) → Fits (length packet) k src → length (view packet src) ≡ len src
  unfolding view len
  length-view (caller bytes) k h = refl
  length-view (own offset n) k h =
      omega (arith, length-take n (drop offset packet), length-drop offset packet)

  pub view-advance :
      (n : ℕ) (src : Source) → n ≤ len src → view packet (advance n src) ≡ drop n (view packet src)
  unfolding view advance len
  view-advance n (caller bytes) h = refl
  view-advance n (own offset k) h =
      ap (take (k - n)) (sym (drop-drop n offset (offset + n) packet refl))
      ∙ sym (drop-take n k (k - n) (drop offset packet) (omega arith))

  -- A source behind the bytes that were written keeps its bytes.
  pub view-of_drop :
      (packet' : Bytes) (src : Source) (size k : ℕ)
      → Fits size k src
      → drop k packet' ≡ drop k packet
      → view packet' src ≡ view packet src
  unfolding view
  view-of_drop packet' (caller bytes) size k h e = refl
  view-of_drop packet' (own offset n) size k h e = ap (take n) (
      sym (drop-drop (offset - k) k offset packet' (omega arith))
      ∙ ap (drop (offset - k)) e
      ∙ drop-drop (offset - k) k offset packet (omega arith))

pub len-advance : (n : ℕ) (src : Source) → len (advance n src) ≡ len src - n
unfolding len advance
len-advance n (caller bytes) = length-drop n bytes
len-advance n (own offset k) = refl

pub Fits-advance :
    (size k n : ℕ) (src : Source) (j : ℕ)
    → n ≤ len src
    → j ≤ k + n
    → Fits size k src
    → Fits size j (advance n src)
unfolding advance len
Fits-advance size k n (caller bytes) j h e f = AreBytes-drop n bytes f
Fits-advance size k n (own offset m) j h e f = omega arith

pub Fits-mono : (size k j : ℕ) (src : Source) → j ≤ k → Fits size k src → Fits size j src
Fits-mono size k j (caller bytes) h f = f
Fits-mono size k j (own offset n) h f = omega arith

-- A byte before those written stays as it was.
pub get_or-blit :
    (xs : Bytes) (n : ℕ) (bs : Bytes) (i : ℕ) → i < n → get_or (blit xs n bs) i 0 ≡ get_or xs i 0
unfolding blit
get_or-blit xs zero bs i h = elim h [ ]
get_or-blit [] (suc n) bs i h = refl
get_or-blit (x ∷ xs) (suc n) bs zero h = refl
get_or-blit (x ∷ xs) (suc n) bs (suc i) h = get_or-blit xs n bs i (omega arith)

pub get_or-blit_at :
    (xs : Bytes) (n b : ℕ) (bs : Bytes) → n < length xs → get_or (blit xs n (b ∷ bs)) n 0 ≡ b
unfolding blit
get_or-blit_at [] n b bs h = elim h [ ]
get_or-blit_at (x ∷ xs) zero b bs h = refl
get_or-blit_at (x ∷ xs) (suc n) b bs h = get_or-blit_at xs n b bs (omega arith)

pub take-one : (xs : Bytes) → 0 < length xs → take 1 xs ≡ get_or xs 0 0 ∷ []
take-one [] h = absurd (omega arith)
take-one (x ∷ xs) h = refl
