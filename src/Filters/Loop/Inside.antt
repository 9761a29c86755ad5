-- ===== src/Filters/Loop/Inside.antt =====
-- Rounds that two or more of the recognizers have in common, inside a packet: the next bytes are
-- stored, and where the packet is whole with them it is handed on or given up.
use mathlib.Core.Path.{subst}
use uav_router.Base.{
  ℕ, ◌+◌, ◌-◌, ◌≤◌, ◌<◌, ◌≡◌, refl, sym, ap, ◌∙◌, inl, inr, [], ◌∷◌, ◌++◌, append-nil, arith, Bytes,
  length, take, drop, length-take, take-append, drop-append, drop_all, take_all, take-take,
  drop-take,
}
use uav_router.Filters.Source.{
  Source, own, len, view, advance, blit, Fits, length-view, len-advance, Fits-advance, length-blit,
}
use uav_router.Filters.Scan.{
  reject, accept, packet as packet_event, skip_all, Format, Scans, Scans-skip, Scans-pass,
}
use uav_router.Filters.Calls.{events_of}
use uav_router.Filters.Store.{store-stream, store-keeps}
use uav_router.Filters.Loop.Correct.{Shape, total, GoesOn, Rewrites}

module _ {M : Type 0} (F : Format) (S : Shape M) (m : M) (src : Source)
    (array : length (S.packet m) ≡ S.size) (fits : Fits S.size (length (S.pending m)) src) where
  open S use {size, packet, pending, calls, IsValid}

  length-bytes : length (view (packet m) src) ≡ len src
  length-bytes = length-view (packet m) src (length (pending m)) (rw array fits)

  -- The next `k` bytes are stored behind the `n` bytes that wait.
  module _ (n k : ℕ) (m' : M) (valid : IsValid m') (waits : pending m ≡ take n (packet m))
      (within : n + k ≤ size) (enough : k ≤ len src) (some_bytes : 0 < k)
      (stored : packet m' ≡ blit (packet m) n (take k (view (packet m) src))) where
    length_waits : length (pending m) ≡ n
    length_waits = omega (arith, ap length waits, length-take n (packet m), array)

    Fits-n : Fits size n src
    Fits-n = subst (λ t. Fits size t src) length_waits fits

    keeps_stored : drop (total F S m src) (packet m') ≡ drop (total F S m src) (packet m)
    keeps_stored = rw stored (
        store-keeps size n k (packet m) src (take k (view (packet m) src)) array Fits-n enough
          within refl (total F S m src) (omega (arith, length_waits)))

    stored_stream :
        take (n + k) (packet m') ++ view (packet m') (advance k src)
        ≡ pending m ++ view (packet m) src
    stored_stream =
        rw (stored, waits)
          (store-stream size n k (packet m) src (take k (view (packet m) src)) array Fits-n enough
            within refl)

    -- The packet is not whole yet.
    pub round-store :
        pending m' ≡ take (n + k) (packet m')
        → events_of (calls m') ≡ events_of (calls m)
        → GoesOn F S m src m' (advance k src)
    round-store more_waits made = record {
      valid = valid;
      keeps = keeps_stored;
      fits = Fits-advance size n k src (length (pending m')) enough short Fits-n;
      falls =
          inr (
            omega (arith, short, length_waits, len-advance k src),
            omega (arith, len-advance k src),
          );
      moves = record {
        events = [];
        calls_are = made ∙ sym (append-nil (events_of (calls m)));
        go_on = λ es rest s. subst (λ t. Scans F t es rest) (rw more_waits stored_stream) s;
      };
    }
      where
        short : length (pending m') ≤ n + k
        short = omega (arith, ap length more_waits, length-take (n + k) (packet m'))

    length-whole : length (take (n + k) (packet m')) ≡ n + k
    length-whole = omega (
      arith,
      length-take (n + k) (packet m'),
      ap length stored,
      length-blit (packet m) n (take k (view (packet m) src)),
      array,
    )

    -- The packet is whole and good.
    pub round-accept :
        pending m' ≡ []
        → F.classify (take (n + k) (packet m')) ≡ accept (n + k)
        → events_of (calls m') ≡ events_of (calls m) ++ packet_event (take (n + k) (packet m')) ∷ []
        → GoesOn F S m src m' (advance k src)
    round-accept idle good made = record {
      valid = valid;
      keeps = keeps_stored;
      fits =
          Fits-advance size n k src (length (pending m')) enough (omega (arith, ap length idle))
            Fits-n;
      falls = inl (omega (arith, ap length idle, length_waits, len-advance k src));
      moves = record {
        events = packet_event (take (n + k) (packet m')) ∷ [];
        calls_are = made;
        go_on = λ es rest s.
            subst (λ t. Scans F t (packet_event (take (n + k) (packet m')) ∷ es) rest) stored_stream
              (subst (λ t. Scans F (take (n + k) (packet m') ++ later) (packet_event t ∷ es) rest)
                same
                (Scans-pass (take (n + k) (packet m') ++ later) (n + k) later
                  (F.accept_stable (take (n + k) (packet m')) later (n + k) good)
                  (drop-append (n + k) (take (n + k) (packet m')) later
                      (omega (arith, length-whole))
                    ∙ ap (λ t. t ++ later)
                        (drop_all (n + k) (take (n + k) (packet m')) (omega (arith, length-whole))))
                  (subst (λ t. Scans F (t ++ later) es rest) idle s)));
      };
    }
      where
        later : Bytes
        later = view (packet m') (advance k src)

        same : take (n + k) (take (n + k) (packet m') ++ later) ≡ take (n + k) (packet m')
        same =
            take-append (n + k) (take (n + k) (packet m')) later (omega (arith, length-whole))
            ∙ take_all (n + k) (take (n + k) (packet m')) (omega (arith, length-whole))

    -- The packet is whole and bad: its first `j` bytes are passed on, and the others read again.
    pub round-reject :
        (j : ℕ)
        → 0 < j
        → j ≤ n + k
        → pending m' ≡ []
        → F.classify (take (n + k) (packet m')) ≡ reject j
        → events_of (calls m') ≡ events_of (calls m) ++ skip_all (take j (packet m'))
        → Rewrites F S m src m' (own j (n + k - j)) (advance k src)
    unfolding len view
    round-reject j some_j le_j idle bad made = record {
      valid = valid;
      keeps = keeps_stored;
      empty = idle;
      fits_inner = (some_j, omega arith);
      fits = Fits-advance size n k src (n + k - j) enough (omega arith) Fits-n;
      falls = omega (arith, length_waits, len-advance k src);
      moves = record {
        events = skip_all (take j (packet m'));
        calls_are = made;
        go_on = λ es rest s.
            subst (λ t. Scans F t (skip_all (take j (packet m')) ++ es) rest) stored_stream
              (subst (λ t. Scans F (take (n + k) (packet m') ++ later) (skip_all t ++ es) rest) same
                (Scans-skip (take (n + k) (packet m') ++ later) j
                  (take (n + k - j) (drop j (packet m')) ++ later)
                  (F.reject_stable (take (n + k) (packet m')) later j bad)
                  (drop-append j (take (n + k) (packet m')) later (omega (arith, length-whole))
                    ∙ ap (λ t. t ++ later)
                        (drop-take j (n + k) (n + k - j) (packet m') (omega arith)))
                  s));
      };
    }
      where
        later : Bytes
        later = view (packet m') (advance k src)

        same : take j (take (n + k) (packet m') ++ later) ≡ take j (packet m')
        same =
            take-append j (take (n + k) (packet m')) later (omega (arith, length-whole))
            ∙ take-take j (n + k) (packet m') le_j
