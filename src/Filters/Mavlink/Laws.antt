-- ===== src/Filters/Mavlink/Laws.antt =====
-- Mavlink_v1::write implements the scanner of its format.
use uav_router.Base.{
  ◌+◌, ◌<◌, ◌≡◌, refl, sym, ap, ◌∙◌, Option, some, arith, Bytes, length, take, length-take,
  get_or-take,
}
use mathlib.Core.Option
use mathlib.Core.Path.{subst}
use uav_router.Filters.Source.{Source, caller, len, view, memchr, Fits, AreBytes, AreBytes-get_or}
use uav_router.Filters.Scan.{more}
use uav_router.Filters.Loop.{RoundOk, loop-Finishes, rounds, cost}
use uav_router.Filters.Mavlink.Defs.{
  Mavlink, State, before, length_next, load, step, step_in, waiting, write, stx, packet_size,
}
use uav_router.Filters.Mavlink.Packets.{mavlink_format, classify, short-more, classify-nil_lem}
use uav_router.Filters.Stream.{Written}
use uav_router.Filters.Mavlink.Shape.{IsValid, Progress, shape}
use uav_router.Filters.Mavlink.Start.{before-Ok}
use uav_router.Filters.Mavlink.Load.{length-Ok, load-Ok}

-- What waits has room in the array.
pub length-pending :
    (extra : Option Bytes) (m : Mavlink)
    → IsValid extra m
    → length (take (waiting m) m.packet) ≡ waiting m
unfolding waiting
length-pending extra m v = go m.state refl
  where
    go : (s : State) → m.state ≡ s → length (take (waiting m) m.packet) ≡ waiting m
    go before at = rw (at, waiting)
    go length_next at = rw (at, waiting) (omega (arith, length-take 1 m.packet, v.array))
    go load at =
        let begun : Progress load m.packet m.packet_len = rw at at v.progress in
        rw (at, waiting)
          (omega (
            arith,
            length-take m.packet_len m.packet,
            v.array,
            begun,
            AreBytes-get_or m.packet 1 v.bytes,
          ))

module _ (extra : Option Bytes) where
  step_ok :
      (m : Mavlink) (src : Source)
      → IsValid extra m
      → Fits packet_size (length (take (waiting m) m.packet)) src
      → 0 < len src
      → RoundOk (mavlink_format extra) (shape extra) m src (step m src)
  unfolding step
  step_ok m src v fits left = go m.state refl
    where
      go :
          (s : State)
          → m.state ≡ s
          → RoundOk (mavlink_format extra) (shape extra) m src (step_in s m src)
      go before at = before-Ok extra m src v fits left (memchr stx (view m.packet src)) refl at
      go length_next at = length-Ok extra m src v fits left at
      go load at = load-Ok extra m src v fits left at

  pub undecided :
      (m : Mavlink)
      → IsValid extra m
      → (mavlink_format extra).classify (take (waiting m) m.packet) ≡ more
  unfolding mavlink_format waiting
  undecided m v = go m.state refl
    where
      go : (s : State) → m.state ≡ s → classify extra (take (waiting m) m.packet) ≡ more
      go before at = rw (at, waiting) (classify-nil_lem extra)
      go length_next at =
          rw (at, waiting)
            (short-more extra (take 1 m.packet)
              (get_or-take 1 m.packet 0 0 (omega arith) ∙ rw at at v.progress)
              (omega (arith, length-take 1 m.packet)))
      go load at =
          let begun : Progress load m.packet m.packet_len = rw at at v.progress in
          rw (at, waiting)
            (short-more extra (take m.packet_len m.packet)
              (get_or-take m.packet_len m.packet 0 0 (omega (arith, begun)) ∙ begun.0)
              (omega (
                arith,
                length-take m.packet_len m.packet,
                get_or-take m.packet_len m.packet 1 0 (omega (arith, begun)),
                begun,
              )))

  pub write_ok :
      (m : Mavlink) (buf : Bytes)
      → IsValid extra m
      → AreBytes buf
      → (m' : Mavlink) × (write m buf ≡ some (m', length buf))
        × Written (mavlink_format extra) (shape extra) m buf m'
  unfolding write shape len view
  write_ok m buf v h =
      let (m', e, d) =
        loop-Finishes (mavlink_format extra) (shape extra) (λ k w. w.array) undecided step step_ok
          (rounds (waiting m) (length buf)) m (caller buf) v h enough in
      (
        m',
        ap (Option.map (λ k. (k, length buf))) e,
        record { valid = d.valid; events = d.events; calls_are = d.calls_are; scans = d.scans },
      )
    where
      enough :
          cost (length (take (waiting m) m.packet) + length buf) (length buf)
          < rounds (waiting m) (length buf)
      enough =
          subst (λ k. cost (k + length buf) (length buf) < rounds (waiting m) (length buf))
            (sym (length-pending extra m v)) (omega arith)
