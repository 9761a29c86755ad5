-- ===== src/Filters/Ubx/Start.antt =====
-- The rounds of UBX::write in the states BEFORE and PREAMBLE.
use uav_router.Base.{
  ℕ, ◌<◌, ◌≡◌, refl, sym, ap, ◌∙◌, inl, inr, Option, none, some, true, false, List, [], ◌∷◌, ◌++◌,
  arith, ◌==◌, ==_iff, Bool-cases, length, get_or, take, get_or-take,
}
use mathlib.Core.Path.{subst}
use uav_router.Filters.Source.{
  Source, len, view, advance, memchr, blit, Fits, length-blit, take-blit, get_or-blit,
  get_or-blit_at, take-one, AreBytes-blit, length-view,
}
use uav_router.Filters.Scan.{reject, skip_all}
use uav_router.Filters.Calls.{Call, write_rest, events_of, events_of-write_rest, skip_nothing}
use uav_router.Filters.Loop.{
  Round, RoundOk, GoesOn, round-none, round-start, round-store, round-drop,
}
use uav_router.Filters.Ubx.Defs.{
  Ubx, before, preamble, header, preamble0, preamble1, packet_size, call, step_before,
  step_preamble, waiting,
}
use uav_router.Filters.Ubx.Packets.{ubx_format, classify, other_bytes, wrong-reject}
use uav_router.Filters.Ubx.Shape.{IsValid, shape, idle_before, one_waits}

module _ (m : Ubx) (src : Source) (v : IsValid m)
    (fits : Fits packet_size (length (take (waiting m) m.packet)) src) (left : 0 < len src) where
  abbrev Ok : Round Ubx → Type 0
  Ok = RoundOk ubx_format shape m src

  before-none :
      memchr preamble0 (view m.packet src) ≡ none → m.state ≡ before → Ok (step_before m src none)
  unfolding step_before shape ubx_format
  before-none e at =
      round-none ubx_format shape m src v.array fits preamble0 other_bytes (idle_before m at) left
        (call (write_rest (view m.packet src)) m)
        (record { array = v.array; bytes = v.bytes; progress = v.progress }) e refl
        (idle_before m at) (events_of-write_rest m.calls (view m.packet src))

  started : List Call → Ubx
  started cs = record m { packet = blit m.packet 0 (preamble0 ∷ []); state = preamble; calls = cs }

  started-IsValid : (cs : List Call) → IsValid (started cs)
  unfolding started
  started-IsValid cs = record {
    array = length-blit m.packet 0 (preamble0 ∷ []) ∙ v.array;
    bytes = AreBytes-blit m.packet 0 (preamble0 ∷ []) v.bytes (omega arith);
    progress =
        sym (get_or-take 1 (blit m.packet 0 (preamble0 ∷ [])) 0 0 (omega arith))
        ∙ ap (λ t. get_or t 0 0)
            (take-blit m.packet 0 (preamble0 ∷ []) 1 (omega arith) (omega (arith, v.array)));
  }

  started_ok :
      (i : ℕ) (cs : List Call)
      → memchr preamble0 (view m.packet src) ≡ some i
      → m.state ≡ before
      → events_of cs ≡ events_of m.calls ++ skip_all (take i (view m.packet src))
      → GoesOn ubx_format shape m src (started cs) (advance 1 (advance i src))
  unfolding shape started ubx_format
  started_ok i cs e at made =
      round-start ubx_format shape m src v.array fits preamble0 other_bytes (idle_before m at) left
        (started cs) (started-IsValid cs) i (omega arith) e refl refl made

  pub before-Ok :
      (o : Option ℕ)
      → memchr preamble0 (view m.packet src) ≡ o
      → m.state ≡ before
      → Ok (step_before m src o)
  unfolding step_before started
  before-Ok none e at = before-none e at
  before-Ok (some i) e at = elim (Bool-cases (i == 0)) [
    | inl here ↦
        rw here
          (started_ok i m.calls e at (skip_nothing (events_of m.calls) i (view m.packet src) here))
    | inr there ↦ rw there (
        started_ok i (m.calls ++ write_rest (take i (view m.packet src)) ∷ []) e at
          (events_of-write_rest m.calls (take i (view m.packet src))))
  ]

  -- The second byte of the preamble came.
  second_ok :
      m.state ≡ preamble
      → (get_or (view m.packet src) 0 0 == preamble1) ≡ true
      → GoesOn ubx_format shape m src
          (record m { packet = blit m.packet 1 (preamble1 ∷ []); state = header; packet_len = 2 })
          (advance 1 src)
  unfolding shape ubx_format waiting
  second_ok at e =
      round-store ubx_format shape m src v.array fits 1 1 m' valid (one_waits m at) (omega arith)
        left (omega arith) (ap (blit m.packet 1) (sym one)) refl refl
    where
      m' : Ubx
      m' = record m { packet = blit m.packet 1 (preamble1 ∷ []); state = header; packet_len = 2 }

      one : take 1 (view m.packet src) ≡ preamble1 ∷ []
      one =
          take-one (view m.packet src) (
            omega (
              arith,
              length-view m.packet src (length (take (waiting m) m.packet)) (rw v.array fits),
            ))
          ∙ ap (λ t. t ∷ []) ((==_iff _ _).0 e)

      start : get_or m.packet 0 0 ≡ preamble0
      start = rw at at v.progress

      valid : IsValid m'
      valid = record {
        array = length-blit m.packet 1 (preamble1 ∷ []) ∙ v.array;
        bytes = AreBytes-blit m.packet 1 (preamble1 ∷ []) v.bytes (omega arith);
        progress = (
          get_or-blit m.packet 1 (preamble1 ∷ []) 0 (omega arith) ∙ start,
          get_or-blit_at m.packet 1 preamble1 [] (omega (arith, v.array)),
          omega arith,
          omega arith,
        );
      }

  -- Another byte came: the first byte of the preamble is given up.
  dropped_ok :
      m.state ≡ preamble
      → (get_or (view m.packet src) 0 0 == preamble1) ≡ false
      → GoesOn ubx_format shape m src
          (call (write_rest (take 1 m.packet)) (record m { state = before }))
          src
  unfolding shape ubx_format waiting
  dropped_ok at e =
      round-drop ubx_format shape m src v.array fits m' valid (omega (arith, ap length one)) refl
        refl
        (subst (λ t. classify (t ++ view m.packet src) ≡ reject (length t)) (sym one)
          (wrong-reject (view m.packet src)
            (omega (
              arith,
              length-view m.packet src (length (take (waiting m) m.packet)) (rw v.array fits),
            ))
            e))
        (subst (λ t. events_of m'.calls ≡ events_of m.calls ++ skip_all t) (sym (one_waits m at))
          (events_of-write_rest m.calls (take 1 m.packet)))
    where
      m' : Ubx
      m' = call (write_rest (take 1 m.packet)) (record m { state = before })

      start : get_or m.packet 0 0 ≡ preamble0
      start = rw at at v.progress

      one : take (waiting m) m.packet ≡ preamble0 ∷ []
      one = one_waits m at ∙ take-one m.packet (omega (arith, v.array)) ∙ ap (λ t. t ∷ []) start

      valid : IsValid m'
      valid = record { array = v.array; bytes = v.bytes; progress = tt }

  pub preamble-Ok : m.state ≡ preamble → Ok (step_preamble m src)
  unfolding step_preamble
  preamble-Ok at = elim (Bool-cases (get_or (view m.packet src) 0 0 == preamble1)) [
    | inl e ↦ rw e (second_ok at e)
    | inr e ↦ rw e (dropped_ok at e)
  ]
