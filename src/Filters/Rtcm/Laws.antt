-- ===== src/Filters/Rtcm/Laws.antt =====
-- RTCM_v3::write implements the scanner of its format.
use uav_router.Base.{
  ℕ, ◌+◌, ◌<◌, ◌≡◌, refl, sym, ap, ◌∙◌, some, arith, Bytes, length, get_or, take, length-take,
  get_or-take,
}
use mathlib.Core.Path.{subst}
use mathlib.Core.Option
use uav_router.Filters.Source.{Source, caller, len, view, memchr, Fits, AreBytes}
use uav_router.Filters.Scan.{more}
use uav_router.Filters.Loop.{RoundOk, loop-Finishes, rounds, cost}
use uav_router.Filters.Stream.{Written}
use uav_router.Filters.Rtcm.Defs.{
  Rtcm, State, before, header, load, preamble, packet_size, step, step_in, waiting, write,
}
use uav_router.Filters.Rtcm.Packets.{
  rtcm_format, classify, size_of-eq, classify-nil_lem, size_of-le, header-more, short-more,
}
use uav_router.Filters.Rtcm.Shape.{IsValid, Progress, shape}
use uav_router.Filters.Rtcm.Start.{before-Ok}
use uav_router.Filters.Rtcm.Load.{header-Ok, load-Ok}

-- What waits has room in the array.
length-pending : (m : Rtcm) → IsValid m → length (take (waiting m) m.packet) ≡ waiting m
unfolding waiting
length-pending m v = go m.state refl
  where
    go : (s : State) → m.state ≡ s → length (take (waiting m) m.packet) ≡ waiting m
    go before at = rw (at, waiting)
    go header at =
        let begun : Progress header m.packet m.payload_len m.packet_len = rw at at v.progress in
        rw (at, waiting) (omega (arith, length-take m.packet_len m.packet, v.array, begun))
    go load at =
        let begun : Progress load m.packet m.payload_len m.packet_len = rw at at v.progress in
        rw (at, waiting)
          (omega (arith, length-take m.packet_len m.packet, v.array, begun, size_of-le m.packet))

step_ok :
    (m : Rtcm) (src : Source)
    → IsValid m
    → Fits packet_size (length (take (waiting m) m.packet)) src
    → 0 < len src
    → RoundOk rtcm_format shape m src (step m src)
unfolding step
step_ok m src v fits left = go m.state refl
  where
    go : (s : State) → m.state ≡ s → RoundOk rtcm_format shape m src (step_in s m src)
    go before at = before-Ok m src v fits left (memchr preamble (view m.packet src)) refl at
    go header at = header-Ok m src v fits left at
    go load at = load-Ok m src v fits left at

-- The bytes that wait begin a packet whose end is not yet there.
pub undecided : (m : Rtcm) → IsValid m → rtcm_format.classify (take (waiting m) m.packet) ≡ more
unfolding rtcm_format waiting
undecided m v = go m.state refl
  where
    front : (n i : ℕ) → i < n → get_or (take n m.packet) i 0 ≡ get_or m.packet i 0
    front n i h = get_or-take n m.packet i 0 h

    go : (s : State) → m.state ≡ s → classify (take (waiting m) m.packet) ≡ more
    go before at = rw (at, waiting) classify-nil_lem
    go header at =
        let begun : Progress header m.packet m.payload_len m.packet_len = rw at at v.progress in
        let n : ℕ = m.packet_len in
        rw (at, waiting)
          (header-more (take n m.packet) (front n 0 (omega (arith, begun)) ∙ begun.0)
            (omega (arith, length-take n m.packet, begun)))
    go load at =
        let begun : Progress load m.packet m.payload_len m.packet_len = rw at at v.progress in
        let n : ℕ = m.packet_len in
        let held : length (take n m.packet) ≡ n =
          omega (arith, length-take n m.packet, v.array, begun, size_of-le m.packet) in
        rw (at, waiting)
          (short-more (take n m.packet) (front n 0 (omega (arith, begun)) ∙ begun.0)
            (omega (arith, begun))
            (omega (
              arith,
              begun,
              size_of-eq (take n m.packet) m.packet (front n 1 (omega (arith, begun)))
                  (front n 2 (omega (arith, begun))),
            )))

pub write_ok :
    (m : Rtcm) (buf : Bytes)
    → IsValid m
    → AreBytes buf
    → (m' : Rtcm) × (write m buf ≡ some (m', length buf)) × Written rtcm_format shape m buf m'
unfolding write shape len view waiting
write_ok m buf v h =
    let (m', e, d) =
      loop-Finishes rtcm_format shape (λ k w. w.array) undecided step step_ok
        (rounds (waiting m) (length buf)) m (caller buf) v h enough in
    (
      m',
      ap (Option.map (λ k. (k, length buf))) e,
      record { valid = d.valid; events = d.events; calls_are = d.calls_are; scans = d.scans },
    )
  where
    enough :
        cost (length (take (waiting m) m.packet) + length buf) (length buf)
        < rounds (waiting m) (length buf)
    enough =
        subst (λ k. cost (k + length buf) (length buf) < rounds (waiting m) (length buf))
          (sym (length-pending m v)) (omega arith)
