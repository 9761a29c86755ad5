-- ===== src/Filters/Counted.antt =====
-- What the counters of a filter say of the bytes that it handed on, and what is attached is given.
mod Tests
use Prim.Native.String.{String}
use uav_router.Base.{
  ℕ, ◌+◌, ◌%◌, ◌^◌, ◌≡◌, ◌≢◌, refl, sym, ap, ◌∙◌, Option, none, some, List, [], ◌∷◌, ◌++◌, arith,
  Bytes, length, length-append, text_lt, text_order, append_assoc, append-nil, true,
}
use mathlib.Core.Option
use native.Mathlib.Nat.{mod-add-mod}
use uav_router.Filters.Calls.{
  Call, Reason, badcrc, sysfilter, msgfilter, freqfilter, write_next, write_rest, count, events_of,
}
use uav_router.Filters.Scan.{
  Event, packet, skipped, skip_all, packets_of, skipped_of, concat, bytes_of,
}
use uav_router.Filters.Sinks.{FilterBase, name_of, give, perform, perform_all}
use uav_router.Stats.Counters.{StatCounters, add, sum_of}
use uav_router.Stats.Reports.{sum_of-add_same, sum_of-add_other}

later : (x y : String) → text_lt x y ≡ true → x ≢ y
later x y h e = ground (arith, h, ap (λ s. text_lt s y) e, text_order.lt_irrefl y)

earlier : (x y : String) → text_lt y x ≡ true → x ≢ y
earlier x y h e = later y x h (sym e)

-- Counting under a name, and under another.
counted :
    (name : String) (n : ℕ) (s : StatCounters) (k : ℕ)
    → sum_of name s % 2 ^ 32 ≡ k % 2 ^ 32
    → sum_of name (add name n s) % 2 ^ 32 ≡ (k + n) % 2 ^ 32
counted name n s k h = omega (arith, sum_of-add_same name n s)

apart :
    (name other : String) (n : ℕ) (s : StatCounters) (k : ℕ)
    → name ≢ other
    → sum_of name s % 2 ^ 32 ≡ k % 2 ^ 32
    → sum_of name (add other n s) % 2 ^ 32 ≡ k % 2 ^ 32
apart name other n s k ne h = rw (sum_of-add_other name other n s ne) h

-- The counters after the calls, from any that stand for `x`, `y` and `z` of before.
module _ (x y z : ℕ) where
  pub record Counted (cs : List Call) (b : FilterBase) : Type 0 where
    pub next_bytes :
        sum_of "next" b.counters % 2 ^ 32
        ≡ (x + length (concat (packets_of (events_of cs)))) % 2 ^ 32
    pub packs :
        sum_of "pack" b.counters % 2 ^ 32 ≡ (y + length (packets_of (events_of cs))) % 2 ^ 32
    pub rest_bytes :
        sum_of "rest" b.counters % 2 ^ 32 ≡ (z + length (skipped_of (events_of cs))) % 2 ^ 32

packets_of-skip_all :
    (bs : Bytes) (es : List Event) → packets_of (skip_all bs ++ es) ≡ packets_of es
packets_of-skip_all [] es = refl
packets_of-skip_all (b ∷ bs) es = packets_of-skip_all bs es

skipped_of-skip_all :
    (bs : Bytes) (es : List Event) → skipped_of (skip_all bs ++ es) ≡ bs ++ skipped_of es
skipped_of-skip_all [] es = refl
skipped_of-skip_all (b ∷ bs) es = ap (◌∷◌ b) (skipped_of-skip_all bs es)

next≢name_of : (r : Reason) → "next" ≢ name_of r
next≢name_of badcrc = earlier "next" "badcrc" refl
next≢name_of sysfilter = later "next" "sysfilter" refl
next≢name_of msgfilter = earlier "next" "msgfilter" refl
next≢name_of freqfilter = earlier "next" "freqfilter" refl

pack≢name_of : (r : Reason) → "pack" ≢ name_of r
pack≢name_of badcrc = earlier "pack" "badcrc" refl
pack≢name_of sysfilter = later "pack" "sysfilter" refl
pack≢name_of msgfilter = earlier "pack" "msgfilter" refl
pack≢name_of freqfilter = earlier "pack" "freqfilter" refl

rest≢name_of : (r : Reason) → "rest" ≢ name_of r
rest≢name_of badcrc = earlier "rest" "badcrc" refl
rest≢name_of sysfilter = later "rest" "sysfilter" refl
rest≢name_of msgfilter = earlier "rest" "msgfilter" refl
rest≢name_of freqfilter = earlier "rest" "freqfilter" refl

-- Whatever calls a filter makes, and whether or not anything is attached to it, its counters say
-- modulo 2^32 how many bytes it handed on in packets, how many packets, and how many bytes that
-- belong to none, on top of what they said before.
pub perform_all-Counted :
    (cs : List Call) (b : FilterBase) (x y z : ℕ)
    → sum_of "next" b.counters % 2 ^ 32 ≡ x % 2 ^ 32
    → sum_of "pack" b.counters % 2 ^ 32 ≡ y % 2 ^ 32
    → sum_of "rest" b.counters % 2 ^ 32 ≡ z % 2 ^ 32
    → Counted x y z cs (perform_all cs b)
unfolding perform
perform_all-Counted [] b x y z hx hy hz = record {
  next_bytes = omega arith;
  packs = omega arith;
  rest_bytes = omega arith;
}
perform_all-Counted (write_next p ∷ cs) b x y z hx hy hz =
    let s1 = add "next" (length p) b.counters in
    let r =
      perform_all-Counted cs (perform (write_next p) b) (x + length p) (y + 1) z
        (apart "next" "pack" 1 s1 (x + length p) (later "next" "pack" refl)
          (counted "next" (length p) b.counters x hx))
        (counted "pack" 1 s1 y
          (apart "pack" "next" (length p) b.counters y (earlier "pack" "next" refl) hy))
        (apart "rest" "pack" 1 s1 z (earlier "rest" "pack" refl)
          (apart "rest" "next" (length p) b.counters z (earlier "rest" "next" refl) hz)) in
    record {
      next_bytes =
          omega (arith, r.next_bytes, length-append p (concat (packets_of (events_of cs))));
      packs = omega (arith, r.packs);
      rest_bytes = r.rest_bytes;
    }
perform_all-Counted (write_rest bs ∷ cs) b x y z hx hy hz =
    let r =
      perform_all-Counted cs (perform (write_rest bs) b) x y (z + length bs)
        (apart "next" "rest" (length bs) b.counters x (later "next" "rest" refl) hx)
        (apart "pack" "rest" (length bs) b.counters y (later "pack" "rest" refl) hy)
        (counted "rest" (length bs) b.counters z hz) in
    record {
      next_bytes = rw (packets_of-skip_all bs (events_of cs)) r.next_bytes;
      packs = rw (packets_of-skip_all bs (events_of cs)) r.packs;
      rest_bytes =
          rw (skipped_of-skip_all bs (events_of cs))
            (omega (arith, r.rest_bytes, length-append bs (skipped_of (events_of cs))));
    }
perform_all-Counted (count reason n ∷ cs) b x y z hx hy hz =
    let r =
      perform_all-Counted cs (perform (count reason n) b) x y z
        (apart "next" (name_of reason) n b.counters x (next≢name_of reason) hx)
        (apart "pack" (name_of reason) n b.counters y (pack≢name_of reason) hy)
        (apart "rest" (name_of reason) n b.counters z (rest≢name_of reason) hz) in
    record { next_bytes = r.next_bytes; packs = r.packs; rest_bytes = r.rest_bytes }

-- Whatever calls a filter makes, and whether or not anything is attached to it, its counters say
-- modulo 2^32 how many bytes it handed on in packets, how many packets, and how many bytes that
-- belong to none, on top of what they said before.
pub counters_say :
    (cs : List Call) (b : FilterBase)
    → Counted
        (sum_of "next" b.counters)
        (sum_of "pack" b.counters)
        (sum_of "rest" b.counters)
        cs
        (perform_all cs b)
counters_say cs b =
    perform_all-Counted cs b (sum_of "next" b.counters) (sum_of "pack" b.counters)
      (sum_of "rest" b.counters) refl refl refl

-- Bytes are in packets or in none.
pub length-bytes_of :
    (es : List Event)
    → length (bytes_of es) ≡ length (concat (packets_of es)) + length (skipped_of es)
length-bytes_of [] = refl
length-bytes_of (packet p ∷ es) = omega (
  arith,
  length-append p (bytes_of es),
  length-append p (concat (packets_of es)),
  length-bytes_of es,
)
length-bytes_of (skipped b ∷ es) = omega (arith, length-bytes_of es)
