-- ===== src/Filters/Mavlink/Load.antt =====
-- The rounds of Mavlink_v1::write in the states LEN and LOAD.
use uav_router.Base.{
  ℕ, ◌+◌, ◌-◌, ◌≤◌, ◌<◌, min, ◌≡◌, refl, sym, ap, ◌∙◌, inl, inr, Option, Bool, true, false, List,
  [], ◌∷◌, ◌++◌, arith, ◌==◌, ==_iff, Bool-cases, Bytes, length, get_or, take, drop, length-take,
  get_or-take, drop-take, take-take,
}
use mathlib.Core.Path.{subst}
use uav_router.Filters.Source.{
  Source, own, len, view, advance, blit, Fits, length-blit, get_or-blit, AreBytes-blit,
  AreBytes-get_or, AreBytes-take, AreBytes-view,
}
use uav_router.Filters.Scan.{accept, skip_all}
use uav_router.Filters.Calls.{
  Call, write_next, write_rest, count, events_of-write_rest, events_of-write_next, events_of-count,
  badcrc,
}
use uav_router.Filters.Loop.{
  Round, RoundOk, GoesOn, Rewrites, round-store, round-accept, round-reject,
}
use uav_router.Filters.Mavlink.Defs.{
  step_length, step_load, finish_packet, Mavlink, State, before, length_next, load, stx,
  packet_size, waiting, valid_checksum,
}
use uav_router.Filters.Mavlink.Packets.{mavlink_format, sums_up, IsMavlink-accept, bad-reject}
use uav_router.Filters.Mavlink.Shape.{IsValid, Progress, shape, one_waits, some_wait}

-- The checksum test of the code is that of the packet that the array holds.
valid_checksum-eq :
    (m : Mavlink)
    → m.packet_len ≤ length m.packet
    → m.packet_len ≡ 8 + get_or m.packet 1 0
    → valid_checksum m ≡ sums_up m.crc_extra (take m.packet_len m.packet)
unfolding valid_checksum sums_up
valid_checksum-eq m fit long = rw (
  whole,
  get_or-take n p (n - 2) 0 (omega arith),
  get_or-take n p (n - 1) 0 (omega arith),
  get_or-take n p 5 0 (omega arith),
  summed,
)
  where
    n : ℕ
    n = m.packet_len

    p : Bytes
    p = m.packet

    whole : length (take n p) ≡ n
    whole = omega (arith, length-take n p)

    summed : take (n - 3) (drop 1 (take n p)) ≡ take (get_or p 1 0 + 5) (drop 1 p)
    summed =
        ap (take (n - 3)) (drop-take 1 n (n - 1) p (omega arith))
        ∙ take-take (n - 3) (n - 1) (drop 1 p) (omega arith)
        ∙ ap (λ t. take t (drop 1 p)) (omega arith)

module _ (extra : Option Bytes) (m : Mavlink) (src : Source) (v : IsValid extra m)
    (fits : Fits packet_size (length (take (waiting m) m.packet)) src) (left : 0 < len src) where
  abbrev Ok : Round Mavlink → Type 0
  Ok = RoundOk (mavlink_format extra) (shape extra) m src

  pub length-Ok : m.state ≡ length_next → Ok (step_length m src)
  unfolding step_length shape
  length-Ok at =
      round-store (mavlink_format extra) (shape extra) m src v.array fits 1 1 m' valid
        (one_waits m at) (omega arith) left (omega arith) refl refl refl
    where
      bs : Bytes
      bs = take 1 (view m.packet src)

      m' : Mavlink
      m' = record m { packet = blit m.packet 1 bs; state = load; packet_len = 2 }

      start : get_or m.packet 0 0 ≡ stx
      start = rw at at v.progress

      valid : IsValid extra m'
      valid = record {
        array = length-blit m.packet 1 bs ∙ v.array;
        bytes = AreBytes-blit m.packet 1 bs v.bytes (
            AreBytes-take 1 (view m.packet src) (
              AreBytes-view m.packet src packet_size (length (take (waiting m) m.packet)) v.bytes
                fits));
        seeds = v.seeds;
        progress = (get_or-blit m.packet 1 bs 0 (omega arith) ∙ start, omega arith, omega arith);
      }

  module _ (at : m.state ≡ load) (c : ℕ) (enough : c ≤ len src) (some_bytes : 0 < c) where
    begun : Progress load m.packet m.packet_len
    begun = rw at at v.progress

    -- The state when `c` more bytes are stored.
    loaded : State → List Call → Mavlink
    loaded s cs = record m {
      packet = blit m.packet m.packet_len (take c (view m.packet src));
      packet_len = m.packet_len + c;
      state = s;
      calls = cs;
    }

    start_stays : get_or (blit m.packet m.packet_len (take c (view m.packet src))) 0 0 ≡ stx
    start_stays =
        get_or-blit m.packet m.packet_len (take c (view m.packet src)) 0 (omega (arith, begun))
        ∙ begun.0

    length_stays :
        get_or (blit m.packet m.packet_len (take c (view m.packet src))) 1 0 ≡ get_or m.packet 1 0
    length_stays =
        get_or-blit m.packet m.packet_len (take c (view m.packet src)) 1 (omega (arith, begun))

    loaded-IsValid :
        (s : State) (cs : List Call)
        → Progress s (loaded s cs).packet (m.packet_len + c)
        → IsValid extra (loaded s cs)
    unfolding loaded
    loaded-IsValid s cs h = record {
      array = length-blit m.packet m.packet_len (take c (view m.packet src)) ∙ v.array;
      bytes = AreBytes-blit m.packet m.packet_len (take c (view m.packet src)) v.bytes (
          AreBytes-take c (view m.packet src) (
            AreBytes-view m.packet src packet_size (length (take (waiting m) m.packet)) v.bytes
              fits));
      seeds = v.seeds;
      progress = h;
    }

    -- The packet is not whole yet.
    store_ok :
        m.packet_len + c < 8 + get_or m.packet 1 0
        → GoesOn (mavlink_format extra) (shape extra) m src (loaded load m.calls) (advance c src)
    unfolding shape loaded
    store_ok short =
        round-store (mavlink_format extra) (shape extra) m src v.array fits m.packet_len c
          (loaded load m.calls)
          (loaded-IsValid load m.calls
            (start_stays, omega (arith, begun), omega (arith, length_stays)))
          (some_wait m at) (omega (arith, AreBytes-get_or m.packet 1 v.bytes)) enough some_bytes
          refl refl refl

    -- The last byte of the packet came.
    module _ (whole : m.packet_len + c ≡ 8 + get_or m.packet 1 0) where
      packet' : Bytes
      packet' = blit m.packet m.packet_len (take c (view m.packet src))

      within : m.packet_len + c ≤ packet_size
      within = omega (arith, AreBytes-get_or m.packet 1 v.bytes)

      length_packet' : length (take (m.packet_len + c) packet') ≡ m.packet_len + c
      unfolding packet'
      length_packet' = omega (
        arith,
        length-take (m.packet_len + c) packet',
        length-blit m.packet m.packet_len (take c (view m.packet src)),
        v.array,
        within,
      )

      starts : get_or (take (m.packet_len + c) packet') 0 0 ≡ stx
      unfolding packet'
      starts = get_or-take (m.packet_len + c) packet' 0 0 (omega (arith, begun)) ∙ start_stays

      long :
          length (take (m.packet_len + c) packet')
          ≡ 8 + get_or (take (m.packet_len + c) packet') 1 0
      unfolding packet'
      long = omega (
        arith,
        length_packet',
        whole,
        length_stays,
        get_or-take (m.packet_len + c) packet' 1 0 (omega (arith, begun)),
      )

      sums_eq :
          (b : Bool)
          → valid_checksum (loaded before m.calls) ≡ b
          → sums_up extra (take (m.packet_len + c) packet') ≡ b
      unfolding packet' loaded
      sums_eq b e =
          ap (λ t. sums_up t (take (m.packet_len + c) packet')) (sym v.seeds)
          ∙ sym (
              valid_checksum-eq (loaded before m.calls)
                (omega (
                  arith,
                  length-blit m.packet m.packet_len (take c (view m.packet src)),
                  v.array,
                  within,
                ))
                (omega (arith, whole, length_stays)))
          ∙ e

      accept_ok :
          valid_checksum (loaded before m.calls) ≡ true
          → GoesOn
              (mavlink_format extra)
              (shape extra)
              m
              src
              (loaded before (m.calls ++ write_next (take (m.packet_len + c) packet') ∷ []))
              (advance c src)
      unfolding shape loaded packet' mavlink_format
      accept_ok good =
          round-accept (mavlink_format extra) (shape extra) m src v.array fits m.packet_len c m'
            (loaded-IsValid before cs tt) (some_wait m at) within enough some_bytes refl refl
            (IsMavlink-accept extra (take (m.packet_len + c) packet')
                (record { starts = starts; long = long; sums = sums_eq true good })
              ∙ ap accept length_packet')
            (events_of-write_next m.calls (take (m.packet_len + c) packet'))
        where
          cs : List Call
          cs = m.calls ++ write_next (take (m.packet_len + c) packet') ∷ []

          m' : Mavlink
          m' = loaded before cs

      reject_ok :
          valid_checksum (loaded before m.calls) ≡ false
          → Rewrites
              (mavlink_format extra)
              (shape extra)
              m
              src
              (loaded before ((m.calls ++ count badcrc 1 ∷ []) ++ write_rest (take 1 packet') ∷ []))
              (own 1 (m.packet_len + c - 1))
              (advance c src)
      unfolding shape loaded packet' mavlink_format
      reject_ok bad =
          round-reject (mavlink_format extra) (shape extra) m src v.array fits m.packet_len c m'
            (loaded-IsValid before cs tt) (some_wait m at) within enough some_bytes refl 1
            (omega arith) (omega arith) refl
            (bad-reject extra (take (m.packet_len + c) packet') starts long (sums_eq false bad))
            (events_of-write_rest (m.calls ++ count badcrc 1 ∷ []) (take 1 packet')
              ∙ ap (λ t. t ++ skip_all (take 1 packet')) (events_of-count m.calls badcrc 1))
        where
          cs : List Call
          cs = (m.calls ++ count badcrc 1 ∷ []) ++ write_rest (take 1 packet') ∷ []

          m' : Mavlink
          m' = loaded before cs

      finish-Ok : Ok (finish_packet (loaded before m.calls) (advance c src))
      unfolding finish_packet loaded packet'
      finish-Ok = elim (Bool-cases (valid_checksum (loaded before m.calls))) [
        | inl good ↦ rw good (accept_ok good)
        | inr bad ↦ rw bad (reject_ok bad)
      ]

  pub load-Ok : m.state ≡ load → Ok (step_load m src)
  unfolding step_load loaded
  load-Ok at = elim (Bool-cases (m.packet_len + copy_len == 8 + get_or m.packet 1 0)) [
    | inl whole ↦ rw whole (finish-Ok at copy_len enough some_bytes ((==_iff _ _).0 whole))
    | inr short ↦ rw short (
        subst
          (λ s.
            GoesOn (mavlink_format extra) (shape extra) m src
              (loaded at copy_len enough some_bytes s m.calls) (advance copy_len src))
          (sym at) (store_ok at copy_len enough some_bytes (below short)))
  ]
    where
      begun0 : Progress load m.packet m.packet_len
      begun0 = rw at at v.progress

      copy_len : ℕ
      copy_len = min (8 + get_or m.packet 1 0 - m.packet_len) (len src)

      enough : copy_len ≤ len src
      enough = omega arith

      some_bytes : 0 < copy_len
      some_bytes = omega (arith, begun0)

      below :
          (m.packet_len + copy_len == 8 + get_or m.packet 1 0) ≡ false
          → m.packet_len + copy_len < 8 + get_or m.packet 1 0
      below h = ground (arith, begun0)
