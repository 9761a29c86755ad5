-- ===== src/Filters/Loop/Correct.antt =====
-- From one round to the whole loop: if each round of a recognizer does what the scanner says, then
-- so does the loop, on the caller's buffer and on the filter's own array alike.
use mathlib.Core.Path.{subst}
use uav_router.Base.{
  ℕ, zero, suc, ◌+◌, ◌-◌, ◌≤◌, ◌<◌, ◌≡◌, refl, sym, ap, ◌∙◌, inl, inr, Option, some, List, [], ◌∷◌,
  ◌++◌, append-nil, append_assoc, arith, ◌==◌, Bool-cases, Bytes, length, drop, drop-drop,
}
use uav_router.Filters.Source.{Source, len, view, Fits, Fits-mono, length-view, view-of_drop}
use uav_router.Filters.Scan.{more, Event, Format, Scans, wait, Scans-append, Scans-length-le}
use uav_router.Filters.Calls.{Call, events_of}
use uav_router.Filters.Loop.Defs.{Round, again, rewrite, resume, loop, cost}
use uav_router.Filters.Loop.Fuel.{Falls, cost-Falls}

-- How a recognizer is read: its array, the bytes of it that wait for the rest of their packet, the
-- calls made so far, and its invariant.
pub record Shape (M : Type 0) : Type 1 where
  pub size : ℕ
  pub packet : M → Bytes
  pub pending : M → Bytes
  pub calls : M → List Call
  pub IsValid : M → Type 0

drop-eq_mono : (j k : ℕ) (xs ys : Bytes) → j ≤ k → drop j xs ≡ drop j ys → drop k xs ≡ drop k ys
drop-eq_mono j k xs ys h e =
    sym (drop-drop (k - j) j k xs (omega arith))
    ∙ ap (drop (k - j)) e
    ∙ drop-drop (k - j) j k ys (omega arith)

eq-nil-of-length : (xs : Bytes) → length xs ≡ 0 → xs ≡ []
eq-nil-of-length [] h = refl
eq-nil-of-length (x ∷ xs) h = absurd (omega arith)

resume-rewrite :
    {M : Type 0} (run : M → Source → Option M) (m m' : M) (inner src : Source)
    → run m inner ≡ some m'
    → resume run (rewrite m inner src) ≡ run m' src
unfolding resume
resume-rewrite run m m' inner src e = rw (e, resume)

module _ {M : Type 0} (F : Format) (S : Shape M) where
  open S use {size, packet, pending, calls, IsValid}

  abbrev pub total : M → Source → ℕ
  total m src = length (pending m) + len src

  -- The bytes that wait, and those still to read.
  abbrev pub stream : M → Source → Bytes
  stream m src = pending m ++ view (packet m) src

  -- From `m` to `m'` the calls `es` were made, and a scan of `bs'` is the rest of one of `bs`.
  pub record Moves (m m' : M) (bs bs' : Bytes) : Type 0 where
    pub events : List Event
    pub calls_are : events_of (calls m') ≡ events_of (calls m) ++ events
    pub go_on :
        (es : List Event) (rest : Bytes) → Scans F bs' es rest → Scans F bs (events ++ es) rest

  pub record GoesOn (m : M) (src : Source) (m' : M) (src' : Source) : Type 0 where
    pub valid : IsValid m'
    pub keeps : drop (total m src) (packet m') ≡ drop (total m src) (packet m)
    pub fits : Fits size (length (pending m')) src'
    pub falls : Falls (total m src) (len src) (total m' src') (len src')
    pub moves : Moves m m' (stream m src) (stream m' src')

  pub record Rewrites (m : M) (src : Source) (m' : M) (inner src' : Source) : Type 0 where
    pub valid : IsValid m'
    pub keeps : drop (total m src) (packet m') ≡ drop (total m src) (packet m)
    pub empty : pending m' ≡ []
    pub fits_inner : Fits size 0 inner
    pub fits : Fits size (len inner) src'
    pub falls : len inner + len src' < total m src
    pub moves : Moves m m' (stream m src) (view (packet m') inner ++ view (packet m') src')

  abbrev pub RoundOk : M → Source → Round M → Type 0
  RoundOk m src (again m' src') = GoesOn m src m' src'
  RoundOk m src (rewrite m' inner src') = Rewrites m src m' inner src'

  -- What the whole loop does: it hands on what the scanner says of the bytes that waited and the
  -- bytes read, and writes in its array only where those bytes have room.
  pub record Finished (m : M) (src : Source) (m' : M) : Type 0 where
    pub valid : IsValid m'
    pub keeps : drop (total m src) (packet m') ≡ drop (total m src) (packet m)
    pub events : List Event
    pub calls_are : events_of (calls m') ≡ events_of (calls m) ++ events
    pub scans : Scans F (stream m src) events (pending m')

  abbrev pub Finishes : M → Source → Option M → Type 0
  Finishes m src o = (m' : M) × (o ≡ some m') × Finished m src m'

  Moves-Finished :
      {m m' m'' : M} {src src' : Source}
      → drop (total m src) (packet m') ≡ drop (total m src) (packet m)
      → total m' src' ≤ total m src
      → Moves m m' (stream m src) (stream m' src')
      → Finished m' src' m''
      → Finished m src m''
  Moves-Finished {m} {m'} {m''} {src} {src'} keep le mv d = record {
    valid = d.valid;
    keeps = drop-eq_mono (total m' src') (total m src) (packet m'') (packet m') le d.keeps ∙ keep;
    events = mv.events ++ d.events;
    calls_are =
        d.calls_are
        ∙ ap (λ t. t ++ d.events) mv.calls_are
        ∙ append_assoc (events_of (calls m)) mv.events d.events;
    scans = mv.go_on d.events (pending m'') d.scans;
  }

  module _ (array : (m : M) → IsValid m → length (packet m) ≡ size)
      (undecided : (m : M) → IsValid m → F.classify (pending m) ≡ more)
      (step : M → Source → Round M)
      (step_ok : (m : M) (src : Source)
        → IsValid m
        → Fits size (length (pending m)) src
        → 0 < len src
        → RoundOk m src (step m src)) where
    at_end :
        (m : M) (src : Source)
        → IsValid m
        → Fits size (length (pending m)) src
        → len src ≡ 0
        → Finished m src m
    at_end m src v f e = record {
      valid = v;
      keeps = refl;
      events = [];
      calls_are = sym (append-nil (events_of (calls m)));
      scans = rw (nothing, append-nil) (wait (undecided m v));
    }
      where
        nothing : view (packet m) src ≡ []
        nothing =
            eq-nil-of-length (view (packet m) src)
              (length-view (packet m) src (length (pending m)) (rw (array m v) f) ∙ e)

    empty_total : (m : M) (src : Source) → pending m ≡ [] → total m src ≡ len src
    empty_total m src e = omega (arith, ap length e)

    module _ {m' m'' : M} {inner : Source} (v : IsValid m') (e : pending m' ≡ [])
        (fi : Fits size 0 inner) (d : Finished m' inner m'') where
      inner-Scans : Scans F (view (packet m') inner) d.events (pending m'')
      inner-Scans = rw e at d.scans

      inner_short : length (pending m'') ≤ len inner
      inner_short =
          omega (
            arith,
            Scans-length-le inner-Scans,
            length-view (packet m') inner 0 (rw (array m' v) fi),
          )

      -- The filter's call of itself leaves the bytes of the outer source as they were.
      outer_view :
          (src' : Source)
          → Fits size (len inner) src'
          → view (packet m'') src' ≡ view (packet m') src'
      outer_view src' fo =
          view-of_drop (packet m') (packet m'') src' size (len inner) fo
            (subst (λ t. drop t (packet m'') ≡ drop t (packet m')) (empty_total m' inner e) d.keeps)

    Moves-rewrite :
        {m m' m'' : M} {src inner src' : Source}
        → Rewrites m src m' inner src'
        → Finished m' inner m''
        → Moves m m'' (stream m src) (stream m'' src')
    Moves-rewrite {m} {m'} {m''} {src} {inner} {src'} r d = record {
      events = r.moves.events ++ d.events;
      calls_are =
          d.calls_are
          ∙ ap (λ t. t ++ d.events) r.moves.calls_are
          ∙ append_assoc (events_of (calls m)) r.moves.events d.events;
      go_on = λ es rest s. rw (append_assoc r.moves.events d.events es) (
          r.moves.go_on (d.events ++ es) rest (
            Scans-append (view (packet m') src') (inner-Scans r.valid r.empty r.fits_inner d)
              (rw (outer_view r.valid r.empty r.fits_inner d src' r.fits) at s)));
    }

    module _ (run : M → Source → Option M) (fuel : ℕ)
        (run_ok : (m : M) (src : Source)
          → IsValid m
          → Fits size (length (pending m)) src
          → cost (total m src) (len src) < fuel
          → Finishes m src (run m src)) where
      Finishes-again :
          {m m' : M} {src src' : Source}
          → GoesOn m src m' src'
          → cost (total m src) (len src) < suc fuel
          → Finishes m src (run m' src')
      Finishes-again {m} {m'} {src} {src'} g h =
          let c : cost (total m' src') (len src') < fuel = omega (
            arith,
            cost-Falls (total m src) (len src) (total m' src') (len src') (omega arith) g.falls,
          ) in
          let le : total m' src' ≤ total m src = elim g.falls [
            | inl p ↦ omega arith
            | inr p ↦ p.0
          ] in
          let (m'', e, d) = run_ok m' src' g.valid g.fits c in
          (m'', e, Moves-Finished g.keeps le g.moves d)

      Finishes-rewrite :
          {m m' : M} {src inner src' : Source}
          → Rewrites m src m' inner src'
          → cost (total m src) (len src) < suc fuel
          → Finishes m src (resume run (rewrite m' inner src'))
      Finishes-rewrite {m} {m'} {src} {inner} {src'} r h =
          let t = empty_total m' inner r.empty in
          let fits : Fits size (length (pending m')) inner =
            Fits-mono size 0 (length (pending m')) inner (omega (arith, ap length r.empty))
              r.fits_inner in
          let (m1, e1, d1) =
            run_ok m' inner r.valid fits (below m' inner (omega arith) (omega arith)) in
          let short = inner_short r.valid r.empty r.fits_inner d1 in
          let (m2, e2, d2) =
            run_ok m1 src' d1.valid
              (Fits-mono size (len inner) (length (pending m1)) src' short r.fits)
              (below m1 src' (omega arith) (omega arith)) in
          (
            m2,
            resume-rewrite run m' m1 inner src' e1 ∙ e2,
            Moves-Finished
                (drop-eq_mono (total m' inner) (total m src) (packet m1) (packet m') (omega arith)
                    d1.keeps
                  ∙ r.keeps)
                (omega arith) (Moves-rewrite r d1) d2,
          )
        where
          below :
              (k : M) (s : Source)
              → total k s < total m src
              → len s ≤ total k s
              → cost (total k s) (len s) < fuel
          below k s p q =
              omega (arith, cost-Falls (total m src) (len src) (total k s) (len s) q (inl p))

      Finishes-resume :
          (m : M) (src : Source) (r : Round M)
          → RoundOk m src r
          → cost (total m src) (len src) < suc fuel
          → Finishes m src (resume run r)
      unfolding resume
      Finishes-resume m src (again m' src') g h = Finishes-again g h
      Finishes-resume m src (rewrite m' inner src') g h = Finishes-rewrite g h

    pub loop-Finishes :
        (fuel : ℕ) (m : M) (src : Source)
        → IsValid m
        → Fits size (length (pending m)) src
        → cost (total m src) (len src) < fuel
        → Finishes m src (loop step fuel m src)
    unfolding loop
    loop-Finishes zero m src v f h = absurd (omega arith)
    loop-Finishes (suc fuel) m src v f h = elim (Bool-cases (len src == 0)) [
      | inl done ↦ rw done (m, refl, at_end m src v f (ground arith))
      | inr left ↦ rw left (
          Finishes-resume (loop step fuel) fuel (loop-Finishes fuel) m src (step m src)
            (step_ok m src v f (ground arith)) h)
    ]
