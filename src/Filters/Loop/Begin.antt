-- ===== src/Filters/Loop/Begin.antt =====
-- Rounds that two or more of the recognizers have in common, between packets: nothing begins in the
-- source, a packet begins in it, or what waits turns out to begin none.
use mathlib.Core.Path.{subst}
use uav_router.Base.{
  ℕ, suc, ◌-◌, ◌≤◌, ◌<◌, ◌≡◌, refl, ap, ◌∙◌, inl, inr, none, some, [], ◌∷◌, ◌++◌, append-nil, arith,
  ◌==◌, false, Bytes, length, take, drop, length-take, take-append, drop-append, drop_all, take_all,
}
use uav_router.Filters.Source.{
  Source, len, view, advance, memchr, blit, Fits, Fits-mono, length-view, view-advance, len-advance,
  Fits-advance,
}
use uav_router.Filters.Scan.{reject, skip_all, Format, Scans, Scans-append, Scans-skip}
use uav_router.Filters.Calls.{events_of}
use uav_router.Filters.Store.{store-stream, store-keeps}
use uav_router.Filters.Preamble.{memchr-none-Scans, memchr-some-Scans, memchr-some}
use uav_router.Filters.Loop.Correct.{Shape, total, stream, GoesOn}

module _ {M : Type 0} (F : Format) (S : Shape M) (m : M) (src : Source)
    (array : length (S.packet m) ≡ S.size) (fits : Fits S.size (length (S.pending m)) src) where
  open S use {size, packet, pending, calls, IsValid}

  length-bytes : length (view (packet m) src) ≡ len src
  length-bytes = length-view (packet m) src (length (pending m)) (rw array fits)

  module _ (c : ℕ)
      (other : (b : ℕ) (bs : Bytes) → (b == c) ≡ false → F.classify (b ∷ bs) ≡ reject 1)
      (idle : pending m ≡ []) (left : 0 < len src) (m' : M) (valid : IsValid m') where
    -- No packet begins in the source: all of it is passed on as belonging to none.
    pub round-none :
        memchr c (view (packet m) src) ≡ none
        → packet m' ≡ packet m
        → pending m' ≡ []
        → events_of (calls m') ≡ events_of (calls m) ++ skip_all (view (packet m) src)
        → GoesOn F S m src m' (advance (len src) src)
    round-none e same idle' made = record {
      valid = valid;
      keeps = ap (drop (total F S m src)) same;
      fits =
          Fits-advance size (length (pending m)) (len src) src (length (pending m')) (omega arith)
            (omega (arith, ap length idle')) fits;
      falls = inr (
        omega (arith, ap length idle', ap length idle, len-advance (len src) src),
        omega (arith, len-advance (len src) src),
      );
      moves = record {
        events = skip_all (view (packet m) src);
        calls_are = made;
        go_on = λ es rest s. rw (idle) (
            subst (λ t. Scans F t (skip_all (view (packet m) src) ++ es) rest)
              (append-nil (view (packet m) src))
              (Scans-append [] (memchr-none-Scans F c other (view (packet m) src) e)
                (rw rest_nil at s)));
      };
    }
      where
        rest_nil : pending m' ++ view (packet m') (advance (len src) src) ≡ []
        rest_nil =
            rw (idle', same)
              (view-advance (packet m) (len src) src (omega arith)
                ∙ drop_all (len src) (view (packet m) src) (omega (arith, length-bytes)))

    -- A packet begins at the index `i` of the source: what stands before it is passed on, and its
    -- first byte is stored.
    pub round-start :
        (i : ℕ)
        → 0 < size
        → memchr c (view (packet m) src) ≡ some i
        → packet m' ≡ blit (packet m) 0 (c ∷ [])
        → pending m' ≡ take 1 (packet m')
        → events_of (calls m') ≡ events_of (calls m) ++ skip_all (take i (view (packet m) src))
        → GoesOn F S m src m' (advance 1 (advance i src))
    round-start i roomy e stored first made = record {
      valid = valid;
      keeps = rw stored (
          store-keeps size 0 1 (packet m) src0 (c ∷ []) array fits0 left0 (omega arith) next
            (total F S m src) (omega (arith, found.0)));
      fits = Fits-advance size 0 1 src0 (length (pending m')) left0 short fits0;
      falls = inr (omega (arith, short, advanced), omega (arith, advanced));
      moves = record {
        events = skip_all (take i (view (packet m) src));
        calls_are = made;
        go_on = λ es rest s. rw idle (
            memchr-some-Scans F c other (view (packet m) src) i e
              (subst (λ t. Scans F t es rest) same_stream s));
      };
    }
      where
        src0 : Source
        src0 = advance i src

        found :
            (i < len src) × (drop i (view (packet m) src) ≡ c ∷ drop (suc i) (view (packet m) src))
        found =
            let (lt, at) = memchr-some c (view (packet m) src) i e in
            (omega (arith, length-bytes), at)

        left0 : 1 ≤ len src0
        left0 = omega (arith, len-advance i src, found.0)

        fits0 : Fits size 0 src0
        fits0 =
            Fits-advance size (length (pending m)) i src 0 (omega (arith, found.0)) (omega arith)
              fits

        next : take 1 (view (packet m) src0) ≡ c ∷ []
        next = rw (view-advance (packet m) i src (omega (arith, found.0)), found.1) refl

        short : length (pending m') ≤ 1
        short = omega (arith, ap length first, length-take 1 (packet m'))

        advanced : len (advance 1 src0) ≡ len src - i - 1
        advanced = omega (arith, len-advance 1 src0, len-advance i src)

        same_stream : stream F S m' (advance 1 src0) ≡ drop i (view (packet m) src)
        same_stream =
            rw (first, stored)
              (store-stream size 0 1 (packet m) src0 (c ∷ []) array fits0 left0 (omega arith) next
                ∙ view-advance (packet m) i src (omega (arith, found.0)))

  -- What waits is no packet, and the source is left for the next round.
  pub round-drop :
      (m' : M)
      → IsValid m'
      → 0 < length (pending m)
      → packet m' ≡ packet m
      → pending m' ≡ []
      → F.classify (pending m ++ view (packet m) src) ≡ reject (length (pending m))
      → events_of (calls m') ≡ events_of (calls m) ++ skip_all (pending m)
      → GoesOn F S m src m' src
  round-drop m' valid some_wait same idle' bad made = record {
    valid = valid;
    keeps = ap (drop (total F S m src)) same;
    fits =
        Fits-mono size (length (pending m)) (length (pending m')) src
          (omega (arith, ap length idle')) fits;
    falls = inl (omega (arith, ap length idle'));
    moves = record {
      events = skip_all (pending m);
      calls_are = made;
      go_on = λ es rest s.
          subst (λ t. Scans F (pending m ++ view (packet m) src) (skip_all t ++ es) rest) head
            (Scans-skip (pending m ++ view (packet m) src) (length (pending m))
              (view (packet m) src) bad tail (subst (λ t. Scans F t es rest) same_stream s));
    };
  }
    where
      head : take (length (pending m)) (pending m ++ view (packet m) src) ≡ pending m
      head =
          take-append (length (pending m)) (pending m) (view (packet m) src) (omega arith)
          ∙ take_all (length (pending m)) (pending m) (omega arith)

      tail : drop (length (pending m)) (pending m ++ view (packet m) src) ≡ view (packet m) src
      tail =
          drop-append (length (pending m)) (pending m) (view (packet m) src) (omega arith)
          ∙ ap (λ t. t ++ view (packet m) src)
              (drop_all (length (pending m)) (pending m) (omega arith))

      same_stream : stream F S m' src ≡ view (packet m) src
      same_stream = rw (idle', same) refl
