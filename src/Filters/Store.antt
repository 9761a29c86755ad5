-- ===== src/Filters/Store.antt =====
-- Storing the next bytes of the source behind the bytes that wait, `memmove(packet.data() +
-- packet_len, ptr, n); packet_len += n; ptr += n; len -= n`: the stream stays as it was, also where
-- the source lies in the array that is written.
use uav_router.Base.{
  ℕ, ◌+◌, ◌≤◌, ◌≡◌, sym, ap, ◌∙◌, ◌++◌, append_assoc, arith, Bytes, length, take, drop, length-take,
  take-append-drop,
}
use mathlib.Core.Path.{subst}
use uav_router.Filters.Source.{
  Source, len, view, advance, blit, Fits, AreBytes, AreBytes-blit, AreBytes-view, AreBytes-take,
  take-blit, drop-blit, length-view, view-advance, view-of_drop, Fits-advance,
}

-- `bs`, the next `k` bytes of the source, are stored at `n`, behind the first `n` bytes.
module _ (size n k : ℕ) (packet : Bytes) (src : Source) (bs : Bytes) (room : length packet ≡ size)
    (fits : Fits size n src) (some_left : k ≤ len src) (within : n + k ≤ size)
    (next : take k (view packet src) ≡ bs) where
  length_bs : length bs ≡ k
  length_bs =
      sym (ap length next)
      ∙ omega (arith, length-take k (view packet src), length-view packet src n (rw room fits))

  pub store-take : take (n + k) (blit packet n bs) ≡ take n packet ++ bs
  store-take = take-blit packet n bs (n + k) (omega (arith, length_bs)) (omega arith)

  pub store-view : view (blit packet n bs) (advance k src) ≡ drop k (view packet src)
  store-view =
      view-of_drop packet (blit packet n bs) (advance k src) size (n + k)
        (Fits-advance size n k src (n + k) some_left (omega arith) fits)
        (drop-blit packet n bs (n + k) (omega (arith, length_bs)))
      ∙ view-advance packet k src some_left

  pub store-stream :
      take (n + k) (blit packet n bs) ++ view (blit packet n bs) (advance k src)
      ≡ take n packet ++ view packet src
  store-stream =
      rw (store-take, store-view)
        (append_assoc (take n packet) bs (drop k (view packet src))
          ∙ ap (◌++◌ (take n packet)) (
              ap (λ t. t ++ drop k (view packet src)) (sym next)
              ∙ take-append-drop k (view packet src)))

  pub store-keeps : (j : ℕ) → n + k ≤ j → drop j (blit packet n bs) ≡ drop j packet
  store-keeps j h = drop-blit packet n bs j (omega (arith, length_bs))

  pub store-AreBytes : AreBytes packet → AreBytes (blit packet n bs)
  store-AreBytes h = AreBytes-blit packet n bs h (
      subst AreBytes next
        (AreBytes-take k (view packet src) (AreBytes-view packet src size n h fits)))
