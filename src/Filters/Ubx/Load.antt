-- ===== src/Filters/Ubx/Load.antt =====
-- The rounds of UBX::write in the states HEADER and LOAD.
use uav_router.Base.{
  ℕ, ◌+◌, ◌-◌, ◌*◌, ◌^◌, ◌≤◌, ◌<◌, min, ◌≡◌, refl, sym, ap, ◌∙◌, inl, inr, Bool, true, false, List,
  [], ◌∷◌, ◌++◌, arith, ◌==◌, ==_iff, Bool-cases, Bytes, length, get_or, take, drop, length-take,
  get_or-take, drop-take, take-take,
}
use mathlib.Core.Path.{subst}
use uav_router.Filters.Source.{
  Source, own, len, view, advance, blit, Fits, AreBytes, length-blit, get_or-blit, AreBytes-blit,
  AreBytes-take, AreBytes-view,
}
use uav_router.Filters.Scan.{accept, skip_all}
use uav_router.Filters.Calls.{
  Call, write_next, write_rest, count, events_of-write_rest, events_of-write_next, events_of-count,
  badcrc,
}
use uav_router.Filters.Loop.{RoundOk, GoesOn, Rewrites, round-store, round-accept, round-reject}
use uav_router.Filters.Ubx.Defs.{
  Ubx, State, before, header, load, preamble0, preamble1, packet_size, step_header, step_load,
  finish_packet, valid_checksum, waiting,
}
use uav_router.Filters.Ubx.Packets.{ubx_format, size_of, sums_up, IsUbx-accept, bad-reject}
use uav_router.Filters.Ubx.Shape.{IsValid, Progress, shape, header_waits, load_waits, size_of-le}

-- The checksum test of the code is that of the packet that the array holds.
valid_checksum-eq :
    (m : Ubx)
    → m.packet_len ≤ length m.packet
    → m.packet_len ≡ 8 + m.payload_len
    → valid_checksum m ≡ sums_up (take m.packet_len m.packet)
unfolding valid_checksum sums_up
valid_checksum-eq m fit long = rw (
  whole,
  get_or-take n p (n - 2) 0 (omega arith),
  get_or-take n p (n - 1) 0 (omega arith),
  summed,
  at_1,
  at_2,
)
  where
    n : ℕ
    n = m.packet_len

    p : Bytes
    p = m.packet

    whole : length (take n p) ≡ n
    whole = omega (arith, length-take n p)

    at_1 : n - 2 ≡ 6 + m.payload_len
    at_1 = omega arith

    at_2 : n - 1 ≡ 7 + m.payload_len
    at_2 = omega arith

    summed : take (n - 4) (drop 2 (take n p)) ≡ take (m.payload_len + 4) (drop 2 p)
    summed =
        ap (take (n - 4)) (drop-take 2 n (n - 2) p (omega arith))
        ∙ take-take (n - 4) (n - 2) (drop 2 p) (omega arith)
        ∙ ap (λ t. take t (drop 2 p)) (omega arith)

module _ (m : Ubx) (src : Source) (v : IsValid m)
    (fits : Fits packet_size (length (take (waiting m) m.packet)) src) (c : ℕ)
    (enough : c ≤ len src) (some_bytes : 0 < c) where
  stored : Bytes
  stored = blit m.packet m.packet_len (take c (view m.packet src))

  -- The state when `c` more bytes are stored.
  loaded : State → ℕ → List Call → Ubx
  loaded s payload cs = record m {
    packet = blit m.packet m.packet_len (take c (view m.packet src));
    packet_len = m.packet_len + c;
    payload_len = payload;
    state = s;
    calls = cs;
  }

  length-stored : length stored ≡ packet_size
  unfolding stored
  length-stored = length-blit m.packet m.packet_len (take c (view m.packet src)) ∙ v.array

  stored-AreBytes : AreBytes stored
  unfolding stored
  stored-AreBytes = AreBytes-blit m.packet m.packet_len (take c (view m.packet src)) v.bytes (
      AreBytes-take c (view m.packet src)
        (AreBytes-view m.packet src packet_size (length (take (waiting m) m.packet)) v.bytes fits))

  stays : (i : ℕ) → i < m.packet_len → get_or stored i 0 ≡ get_or m.packet i 0
  unfolding stored
  stays i h = get_or-blit m.packet m.packet_len (take c (view m.packet src)) i h

  loaded-IsValid :
      (s : State) (payload : ℕ) (cs : List Call)
      → Progress s stored payload (m.packet_len + c)
      → IsValid (loaded s payload cs)
  unfolding loaded stored
  loaded-IsValid s payload cs h = record {
    array = length-stored;
    bytes = stored-AreBytes;
    progress = h;
  }

  module _ (at : m.state ≡ header) where
    begun : Progress header m.packet m.payload_len m.packet_len
    begun = rw at at v.progress

    -- The header is not whole yet.
    header_short :
        m.packet_len + c < 6
        → GoesOn ubx_format shape m src (loaded header m.payload_len m.calls) (advance c src)
    unfolding shape loaded stored
    header_short short =
        round-store ubx_format shape m src v.array fits m.packet_len c
          (loaded header m.payload_len m.calls)
          (loaded-IsValid header m.payload_len m.calls (
            stays 0 (omega (arith, begun)) ∙ begun.0,
            stays 1 (omega (arith, begun)) ∙ begun.1,
            omega (arith, begun),
            short,
          ))
          (header_waits m at) (omega arith) enough some_bytes refl refl refl

    -- The header is whole: the length of the packet is known.
    header_whole :
        m.packet_len + c ≡ 6
        → GoesOn ubx_format shape m src
            (loaded load (get_or stored 4 0 + get_or stored 5 0 * 2 ^ 8) m.calls)
            (advance c src)
    unfolding shape loaded stored
    header_whole whole =
        round-store ubx_format shape m src v.array fits m.packet_len c (loaded load payload m.calls)
          (loaded-IsValid load payload m.calls (
            stays 0 (omega (arith, begun)) ∙ begun.0,
            stays 1 (omega (arith, begun)) ∙ begun.1,
            omega arith,
            refl,
            omega arith,
          ))
          (header_waits m at) (omega arith) enough some_bytes refl refl refl
      where
        payload : ℕ
        payload = get_or stored 4 0 + get_or stored 5 0 * 2 ^ 8

  module _ (at : m.state ≡ load) where
    filling : Progress load m.packet m.payload_len m.packet_len
    filling = rw at at v.progress

    size_stays : size_of stored ≡ 8 + m.payload_len
    size_stays =
        omega (arith, filling, stays 4 (omega (arith, filling)), stays 5 (omega (arith, filling)))

    within : m.packet_len + c ≤ 8 + m.payload_len → m.packet_len + c ≤ packet_size
    within h = omega (arith, size_stays, size_of-le stored stored-AreBytes)

    -- The packet is not whole yet.
    load_short :
        m.packet_len + c < 8 + m.payload_len
        → GoesOn ubx_format shape m src (loaded load m.payload_len m.calls) (advance c src)
    unfolding shape loaded stored
    load_short short =
        round-store ubx_format shape m src v.array fits m.packet_len c
          (loaded load m.payload_len m.calls)
          (loaded-IsValid load m.payload_len m.calls (
            stays 0 (omega (arith, filling)) ∙ filling.0,
            stays 1 (omega (arith, filling)) ∙ filling.1,
            omega (arith, filling),
            sym size_stays,
            short,
          ))
          (load_waits m at) (within (omega arith)) enough some_bytes refl refl refl

    -- The last byte of the packet came.
    module _ (whole : m.packet_len + c ≡ 8 + m.payload_len) where
      length-whole : length (take (m.packet_len + c) stored) ≡ m.packet_len + c
      length-whole =
          omega (arith, length-take (m.packet_len + c) stored, length-stored, within (omega arith))

      same_byte :
          (i : ℕ)
          → i < m.packet_len
          → get_or (take (m.packet_len + c) stored) i 0 ≡ get_or m.packet i 0
      same_byte i h = get_or-take (m.packet_len + c) stored i 0 (omega arith) ∙ stays i h

      starts : get_or (take (m.packet_len + c) stored) 0 0 ≡ preamble0
      starts = same_byte 0 (omega (arith, filling)) ∙ filling.0

      goes_on : get_or (take (m.packet_len + c) stored) 1 0 ≡ preamble1
      goes_on = same_byte 1 (omega (arith, filling)) ∙ filling.1

      long : length (take (m.packet_len + c) stored) ≡ size_of (take (m.packet_len + c) stored)
      long = omega (
        arith,
        length-whole,
        filling,
        same_byte 4 (omega (arith, filling)),
        same_byte 5 (omega (arith, filling)),
      )

      sums_eq :
          (b : Bool)
          → valid_checksum (loaded before m.payload_len m.calls) ≡ b
          → sums_up (take (m.packet_len + c) stored) ≡ b
      unfolding stored loaded
      sums_eq b e =
          sym (
            valid_checksum-eq (loaded before m.payload_len m.calls)
              (omega (arith, length-stored, within (omega arith))) (omega arith))
          ∙ e

      accept_ok :
          valid_checksum (loaded before m.payload_len m.calls) ≡ true
          → GoesOn ubx_format shape m src
              (loaded before m.payload_len
                (m.calls ++ write_next (take (m.packet_len + c) stored) ∷ []))
              (advance c src)
      unfolding shape loaded stored ubx_format waiting
      accept_ok good =
          round-accept ubx_format shape m src v.array fits m.packet_len c
            (loaded before m.payload_len cs) (loaded-IsValid before m.payload_len cs tt)
            (load_waits m at) (within (omega arith)) enough some_bytes refl refl
            (IsUbx-accept (take (m.packet_len + c) stored) (record {
              starts = starts;
              goes_on = goes_on;
              long = long;
              sums = sums_eq true good;
            })
              ∙ ap accept length-whole)
            (events_of-write_next m.calls (take (m.packet_len + c) stored))
        where
          cs : List Call
          cs = m.calls ++ write_next (take (m.packet_len + c) stored) ∷ []

      reject_ok :
          valid_checksum (loaded before m.payload_len m.calls) ≡ false
          → Rewrites ubx_format shape m src
              (loaded before m.payload_len
                ((m.calls ++ count badcrc 1 ∷ []) ++ write_rest (take 2 stored) ∷ []))
              (own 2 (m.packet_len + c - 2))
              (advance c src)
      unfolding shape loaded stored ubx_format waiting
      reject_ok bad =
          round-reject ubx_format shape m src v.array fits m.packet_len c
            (loaded before m.payload_len cs) (loaded-IsValid before m.payload_len cs tt)
            (load_waits m at) (within (omega arith)) enough some_bytes refl 2 (omega arith)
            (omega arith) refl
            (bad-reject (take (m.packet_len + c) stored) starts goes_on long (sums_eq false bad))
            (events_of-write_rest (m.calls ++ count badcrc 1 ∷ []) (take 2 stored)
              ∙ ap (λ t. t ++ skip_all (take 2 stored)) (events_of-count m.calls badcrc 1))
        where
          cs : List Call
          cs = (m.calls ++ count badcrc 1 ∷ []) ++ write_rest (take 2 stored) ∷ []

      finish-Ok :
          RoundOk ubx_format shape m src
            (finish_packet (loaded before m.payload_len m.calls) (advance c src))
      unfolding finish_packet loaded stored
      finish-Ok = elim (Bool-cases (valid_checksum (loaded before m.payload_len m.calls))) [
        | inl good ↦ rw good (accept_ok good)
        | inr bad ↦ rw bad (reject_ok bad)
      ]

module _ (m : Ubx) (src : Source) (v : IsValid m)
    (fits : Fits packet_size (length (take (waiting m) m.packet)) src) (left : 0 < len src) where
  pub header-Ok : m.state ≡ header → RoundOk ubx_format shape m src (step_header m src)
  unfolding step_header loaded stored
  header-Ok at = elim (Bool-cases (m.packet_len + k == 6)) [
    | inl whole ↦ rw whole (header_whole m src v fits k enough some_bytes at ((==_iff _ _).0 whole))
    | inr short ↦ rw short (
        subst
          (λ s.
            GoesOn ubx_format shape m src
              (loaded m src v fits k enough some_bytes s m.payload_len m.calls) (advance k src))
          (sym at) (header_short m src v fits k enough some_bytes at (below short)))
  ]
    where
      begun0 : Progress header m.packet m.payload_len m.packet_len
      begun0 = rw at at v.progress

      k : ℕ
      k = min (6 - m.packet_len) (len src)

      enough : k ≤ len src
      enough = omega arith

      some_bytes : 0 < k
      some_bytes = omega (arith, begun0)

      below : (m.packet_len + k == 6) ≡ false → m.packet_len + k < 6
      below h = ground (arith, begun0)

  pub load-Ok : m.state ≡ load → RoundOk ubx_format shape m src (step_load m src)
  unfolding step_load loaded stored
  load-Ok at = elim (Bool-cases (m.packet_len + k == 8 + m.payload_len)) [
    | inl whole ↦ rw whole (finish-Ok m src v fits k enough some_bytes at ((==_iff _ _).0 whole))
    | inr short ↦ rw short (
        subst
          (λ s.
            GoesOn ubx_format shape m src
              (loaded m src v fits k enough some_bytes s m.payload_len m.calls) (advance k src))
          (sym at) (load_short m src v fits k enough some_bytes at (below short)))
  ]
    where
      filling0 : Progress load m.packet m.payload_len m.packet_len
      filling0 = rw at at v.progress

      k : ℕ
      k = min (8 + m.payload_len - m.packet_len) (len src)

      enough : k ≤ len src
      enough = omega arith

      some_bytes : 0 < k
      some_bytes = omega (arith, filling0)

      below : (m.packet_len + k == 8 + m.payload_len) ≡ false → m.packet_len + k < 8 + m.payload_len
      below h = ground (arith, filling0)
