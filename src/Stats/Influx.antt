-- ===== src/Stats/Influx.antt =====
-- Class InfluxStream in src/impl/influx.h. The text that Metric::to_stream makes of a metric is an
-- argument of `send`; sizes are numbers.
use uav_router.Base.{
  ℕ, zero, suc, Option, none, some, Bool, List, [], ◌∷◌, ◌++◌, false, if◌then◌else◌, Bytes, length,
  take, replicate, ltb, ◌==◌, ◌-◌,
}

-- `queue` is the deque from its front to its back. `offers` are the buffers given to `_out->write`,
-- each with what it answered: how much of it was taken, or `none` for -1.
pub record InfluxStream : Type 0 where
  pub pack_size : ℕ
  pub queue_max_size : ℕ
  pub queue_shrink_size : ℕ
  pub pack : Bytes
  pub queue : List Bytes
  pub offers : List (Bytes × Option ℕ)

-- deque::resize
unfoldable pub resize : ℕ → List Bytes → List Bytes
resize n q = take n q ++ replicate (n - length q) []

abbrev pub behind : Bytes → Option (Bytes × List Bytes) → Option (Bytes × List Bytes)
behind q none = some (q, [])
behind q (some (back, rest)) = some (back, q ∷ rest)

-- `back()` with what is left by `pop_back()`
unfoldable pub pop_back : List Bytes → Option (Bytes × List Bytes)
pop_back [] = none
pop_back (q ∷ qs) = behind q (pop_back qs)

-- `_pack<<_queue.back()<<'\n'; _queue.pop_back();`
abbrev pub move : Bytes × List Bytes → InfluxStream → InfluxStream
move (back, rest) s = record s { pack = s.pack ++ (back ++ 10 ∷ []); queue = rest }

-- the inner loop of flush, on fuel
unfoldable pub refill_one :
    (InfluxStream → InfluxStream) → Option (Bytes × List Bytes) → InfluxStream → InfluxStream
refill_one more none s = s
refill_one more (some r) s =
    if ltb s.pack_size (length (move r s).pack) then move r s else more (move r s)

unfoldable pub refill : ℕ → InfluxStream → InfluxStream
unfolding refill_one pop_back
refill zero s = s
refill (suc fuel) s = refill_one (refill fuel) (pop_back s.queue) s

-- `ret==ps`
abbrev pub is_whole : Option ℕ → Bytes → Bool
is_whole none b = false
is_whole (some n) b = n == length b

-- `answers` is what is attached: what it answers to a buffer, after those that it was offered.
module _ (answers : List (Bytes × Option ℕ) → Bytes → Option ℕ) where
  -- `ret = _out->write(…)` and, if all was taken, `_pack.str("")`
  unfoldable pub offer : InfluxStream → Bool × InfluxStream
  offer s =
      let ret = answers s.offers s.pack in
      let whole = is_whole ret s.pack in
      (
        whole,
        record s { pack = if whole then [] else s.pack; offers = s.offers ++ (s.pack, ret) ∷ [] },
      )

  unfoldable pub send : Bytes → InfluxStream → InfluxStream
  unfolding offer resize
  send line s =
      if ltb s.pack_size (length s.pack)
      then record s {
        pack = s.pack ++ line;
        queue =
            []
            ∷ (if ltb s.queue_max_size (length s.queue)
                then resize s.queue_shrink_size s.queue
                else s.queue);
      }
      else (let s1 = record s { pack = s.pack ++ (line ++ 10 ∷ []) } in
          if ltb s.pack_size (length s1.pack) then (offer s1).1 else s1)

  -- the outer loop of flush, on fuel; `none` is a loop that outlasts it
  unfoldable pub flush_loop : ℕ → InfluxStream → Option InfluxStream
  unfolding offer refill
  flush_loop zero s = if length s.pack == 0 then some s else none
  flush_loop (suc fuel) s =
      let (taken, s1) = offer s in
      let s2 = refill (length s1.queue) s1 in
      let rest = flush_loop fuel s2 in
      if length s.pack == 0 then some s else if taken then rest else some s1

  -- A round takes an entry of the queue, or it is the last.
  unfoldable pub flush : InfluxStream → Option InfluxStream
  unfolding flush_loop
  flush s = flush_loop (suc (length s.queue)) s
