-- ===== src/Filters/Calls.antt =====
-- What a recognizer does to its base class (FilterBase in src/filters/filterbase.h): the calls of
-- write_next, write_rest and cnt->add, in order. It reads nothing back from them.
use uav_router.Base.{
  ℕ, ◌≡◌, refl, ap, ◌∙◌, List, [], ◌∷◌, ◌++◌, append-nil, append_assoc, ◌==◌, ==_iff, true, take,
  Bytes,
}
use uav_router.Filters.Scan.{Event, packet, skip_all}

-- What else a filter counts: the names of those counters in the source.
pub data Reason : Type 0 where
  badcrc sysfilter msgfilter freqfilter : Reason

pub data Call : Type 0 where
  write_next : Bytes → Call
  write_rest : Bytes → Call
  count : Reason → ℕ → Call

-- What the calls hand on, as the scanner says it: a packet, or bytes that belong to none.
abbrev pub events_of : List Call → List Event
events_of [] = []
events_of (write_next p ∷ cs) = packet p ∷ events_of cs
events_of (write_rest bs ∷ cs) = skip_all bs ++ events_of cs
events_of (count name n ∷ cs) = events_of cs

pub events_of-append : (cs ds : List Call) → events_of (cs ++ ds) ≡ events_of cs ++ events_of ds
events_of-append [] ds = refl
events_of-append (write_next p ∷ cs) ds = ap (◌∷◌ (packet p)) (events_of-append cs ds)
events_of-append (write_rest bs ∷ cs) ds =
    rw (append_assoc (skip_all bs) (events_of cs) (events_of ds))
      (ap (◌++◌ (skip_all bs)) (events_of-append cs ds))
events_of-append (count name n ∷ cs) ds = events_of-append cs ds

-- A call made last comes last.
pub events_of-write_rest :
    (cs : List Call) (bs : Bytes)
    → events_of (cs ++ write_rest bs ∷ []) ≡ events_of cs ++ skip_all bs
events_of-write_rest cs bs =
    events_of-append cs (write_rest bs ∷ []) ∙ ap (◌++◌ (events_of cs)) (append-nil (skip_all bs))

pub events_of-write_next :
    (cs : List Call) (p : Bytes)
    → events_of (cs ++ write_next p ∷ []) ≡ events_of cs ++ packet p ∷ []
events_of-write_next cs p = events_of-append cs (write_next p ∷ [])

pub events_of-count :
    (cs : List Call) (name : Reason) (n : ℕ) → events_of (cs ++ count name n ∷ []) ≡ events_of cs
events_of-count cs name n = events_of-append cs (count name n ∷ []) ∙ append-nil (events_of cs)

pub skip_nothing :
    (es : List Event) (i : ℕ) (bs : Bytes) → (i == 0) ≡ true → es ≡ es ++ skip_all (take i bs)
skip_nothing es i bs h = rw ((==_iff i 0).0 h, append-nil)
