-- ===== src/Filters/Mavlink/Start.antt =====
-- The rounds of Mavlink_v1::write in state BEFORE.
use uav_router.Base.{
  ℕ, ◌<◌, ◌≡◌, refl, sym, ap, ◌∙◌, inl, inr, Option, none, some, List, [], ◌∷◌, ◌++◌, arith, ◌==◌,
  Bool-cases, Bytes, length, get_or, take, get_or-take,
}
use uav_router.Filters.Source.{
  Source, len, view, advance, memchr, blit, Fits, length-blit, take-blit, AreBytes-blit,
}
use uav_router.Filters.Scan.{skip_all}
use uav_router.Filters.Calls.{Call, write_rest, events_of, events_of-write_rest, skip_nothing}
use uav_router.Filters.Loop.{Round, RoundOk, GoesOn, round-none, round-start}
use uav_router.Filters.Mavlink.Defs.{
  step_before, Mavlink, before, length_next, stx, packet_size, call, waiting,
}
use uav_router.Filters.Mavlink.Packets.{mavlink_format}
use uav_router.Filters.Mavlink.Shape.{IsValid, shape, other_bytes, idle_before}

module _ (extra : Option Bytes) (m : Mavlink) (src : Source) (v : IsValid extra m)
    (fits : Fits packet_size (length (take (waiting m) m.packet)) src) (left : 0 < len src) where
  abbrev Ok : Round Mavlink → Type 0
  Ok = RoundOk (mavlink_format extra) (shape extra) m src

  before-none :
      memchr stx (view m.packet src) ≡ none → m.state ≡ before → Ok (step_before m src none)
  unfolding step_before shape
  before-none e at =
      round-none (mavlink_format extra) (shape extra) m src v.array fits stx (other_bytes extra)
        (idle_before m at) left (call (write_rest (view m.packet src)) m)
        (record { array = v.array; bytes = v.bytes; seeds = v.seeds; progress = v.progress }) e refl
        (idle_before m at) (events_of-write_rest m.calls (view m.packet src))

  started : List Call → Mavlink
  started cs = record m { packet = blit m.packet 0 (stx ∷ []); state = length_next; calls = cs }

  started-IsValid : (cs : List Call) → IsValid extra (started cs)
  unfolding started
  started-IsValid cs = record {
    array = length-blit m.packet 0 (stx ∷ []) ∙ v.array;
    bytes = AreBytes-blit m.packet 0 (stx ∷ []) v.bytes (omega arith);
    seeds = v.seeds;
    progress =
        sym (get_or-take 1 (blit m.packet 0 (stx ∷ [])) 0 0 (omega arith))
        ∙ ap (λ t. get_or t 0 0)
            (take-blit m.packet 0 (stx ∷ []) 1 (omega arith) (omega (arith, v.array)));
  }

  started_ok :
      (i : ℕ) (cs : List Call)
      → memchr stx (view m.packet src) ≡ some i
      → m.state ≡ before
      → events_of cs ≡ events_of m.calls ++ skip_all (take i (view m.packet src))
      → GoesOn (mavlink_format extra) (shape extra) m src (started cs) (advance 1 (advance i src))
  unfolding shape started
  started_ok i cs e at made =
      round-start (mavlink_format extra) (shape extra) m src v.array fits stx (other_bytes extra)
        (idle_before m at) left (started cs) (started-IsValid cs) i (omega arith) e refl refl made

  pub before-Ok :
      (o : Option ℕ)
      → memchr stx (view m.packet src) ≡ o
      → m.state ≡ before
      → Ok (step_before m src o)
  unfolding step_before started
  before-Ok none e at = before-none e at
  before-Ok (some i) e at = elim (Bool-cases (i == 0)) [
    | inl here ↦
        rw here
          (started_ok i m.calls e at (skip_nothing (events_of m.calls) i (view m.packet src) here))
    | inr there ↦ rw there (
        started_ok i (m.calls ++ write_rest (take i (view m.packet src)) ∷ []) e at
          (events_of-write_rest m.calls (take i (view m.packet src))))
  ]
