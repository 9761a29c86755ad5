-- ===== src/Filters/Rtcm/Start.antt =====
-- The rounds of RTCM_v3::write in state BEFORE.
use uav_router.Base.{
  ℕ, ◌<◌, ◌≡◌, refl, ◌∙◌, inl, inr, Option, none, some, List, [], ◌∷◌, ◌++◌, arith, ◌==◌,
  Bool-cases, length, take,
}
use uav_router.Filters.Source.{
  Source, len, view, advance, memchr, blit, Fits, length-blit, get_or-blit_at, AreBytes-blit,
}
use uav_router.Filters.Scan.{skip_all}
use uav_router.Filters.Calls.{Call, write_rest, events_of, events_of-write_rest, skip_nothing}
use uav_router.Filters.Loop.{Round, RoundOk, GoesOn, round-none, round-start}
use uav_router.Filters.Rtcm.Defs.{
  Rtcm, before, header, preamble, packet_size, call, step_before, waiting,
}
use uav_router.Filters.Rtcm.Packets.{rtcm_format, other_bytes}
use uav_router.Filters.Rtcm.Shape.{IsValid, shape, idle_before}

module _ (m : Rtcm) (src : Source) (v : IsValid m)
    (fits : Fits packet_size (length (take (waiting m) m.packet)) src) (left : 0 < len src) where
  abbrev Ok : Round Rtcm → Type 0
  Ok = RoundOk rtcm_format shape m src

  before-none :
      memchr preamble (view m.packet src) ≡ none → m.state ≡ before → Ok (step_before m src none)
  unfolding step_before shape rtcm_format
  before-none e at =
      round-none rtcm_format shape m src v.array fits preamble other_bytes (idle_before m at) left
        (call (write_rest (view m.packet src)) m)
        (record { array = v.array; bytes = v.bytes; progress = v.progress }) e refl
        (idle_before m at) (events_of-write_rest m.calls (view m.packet src))

  started : List Call → Rtcm
  started cs = record m {
    packet = blit m.packet 0 (preamble ∷ []);
    state = header;
    packet_len = 1;
    calls = cs;
  }

  started-IsValid : (cs : List Call) → IsValid (started cs)
  unfolding started
  started-IsValid cs = record {
    array = length-blit m.packet 0 (preamble ∷ []) ∙ v.array;
    bytes = AreBytes-blit m.packet 0 (preamble ∷ []) v.bytes (omega arith);
    progress =
        (get_or-blit_at m.packet 0 preamble [] (omega (arith, v.array)), omega arith, omega arith);
  }

  started_ok :
      (i : ℕ) (cs : List Call)
      → memchr preamble (view m.packet src) ≡ some i
      → m.state ≡ before
      → events_of cs ≡ events_of m.calls ++ skip_all (take i (view m.packet src))
      → GoesOn rtcm_format shape m src (started cs) (advance 1 (advance i src))
  unfolding shape started rtcm_format waiting
  started_ok i cs e at made =
      round-start rtcm_format shape m src v.array fits preamble other_bytes (idle_before m at) left
        (started cs) (started-IsValid cs) i (omega arith) e refl refl made

  pub before-Ok :
      (o : Option ℕ)
      → memchr preamble (view m.packet src) ≡ o
      → m.state ≡ before
      → Ok (step_before m src o)
  unfolding step_before started
  before-Ok none e at = before-none e at
  before-Ok (some i) e at = elim (Bool-cases (i == 0)) [
    | inl here ↦
        rw here
          (started_ok i m.calls e at (skip_nothing (events_of m.calls) i (view m.packet src) here))
    | inr there ↦ rw there (
        started_ok i (m.calls ++ write_rest (take i (view m.packet src)) ∷ []) e at
          (events_of-write_rest m.calls (take i (view m.packet src))))
  ]
