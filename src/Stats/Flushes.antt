-- ===== src/Stats/Flushes.antt =====
-- What a flush of an InfluxStream does.
use uav_router.Base.{
  ℕ, zero, suc, ◌≤◌, ◌<◌, ◌≡◌, refl, sym, ap, ◌∙◌, Option, none, some, false, List, [], ◌∷◌, ◌++◌,
  append-nil, append_assoc, Bool-cases, inl, inr, Bytes, length, ltb, ◌⊎◌, arith, take,
}
use uav_router.Stats.Influx.{InfluxStream, pop_back, behind, move, refill_one, refill, is_whole}

-- The text of the queue in the order in which it is sent: from the back, each entry with a newline.
abbrev pub lines_back : List Bytes → Bytes
lines_back [] = []
lines_back (q ∷ qs) = lines_back qs ++ (q ++ 10 ∷ [])

-- What the sink took of a buffer.
abbrev pub taken : Option ℕ → Bytes → Bytes
taken none b = []
taken (some n) b = take n b

-- The text that the sink took, short writes included.
abbrev pub received_of : List (Bytes × Option ℕ) → Bytes
received_of [] = []
received_of ((b, ret) ∷ os) = taken ret b ++ received_of os

-- The text that waits.
unfoldable pub waiting : InfluxStream → Bytes
waiting s = s.pack ++ lines_back s.queue

-- What `pop_back` takes.
abbrev Popped : List Bytes → Option (Bytes × List Bytes) → Type 0
Popped q none = q ≡ []
Popped q (some (back, rest)) =
    (lines_back q ≡ (back ++ 10 ∷ []) ++ lines_back rest) × (length q ≡ suc (length rest))

behind-Popped :
    (q : Bytes) (qs : List Bytes) (o : Option (Bytes × List Bytes))
    → Popped qs o
    → Popped (q ∷ qs) (behind q o)
behind-Popped q qs none h = (rw h (sym (append-nil (q ++ 10 ∷ []))), ap (λ t. suc (length t)) h)
behind-Popped q qs (some (back, rest)) (e, l) = (
  ap (λ t. t ++ (q ++ 10 ∷ [])) e ∙ append_assoc (back ++ 10 ∷ []) (lines_back rest) (q ++ 10 ∷ []),
  ap suc l,
)

pop_back-Popped : (q : List Bytes) → Popped q (pop_back q)
unfolding pop_back
pop_back-Popped [] = refl
pop_back-Popped (q ∷ qs) = behind-Popped q qs (pop_back qs) (pop_back-Popped qs)

-- The text that waits and the offers are those of before, and the queue is not longer.
record Kept (s t : InfluxStream) : Type 0 where
  text : waiting t ≡ waiting s
  offers : t.offers ≡ s.offers
  queue : length t.queue ≤ length s.queue

-- With fuel for the whole queue, the inner loop stops only where the queue is empty or the pack full.
refill_one-full :
    (more : InfluxStream → InfluxStream) (o : Option (Bytes × List Bytes)) (s : InfluxStream)
    (n : ℕ)
    → Popped s.queue o
    → length s.queue ≤ suc n
    → ((t : InfluxStream)
        → length t.queue ≤ n
        → ((more t).queue ≡ []) ⊎ (t.pack_size < length (more t).pack))
    → ((refill_one more o s).queue ≡ []) ⊎ (s.pack_size < length (refill_one more o s).pack)
unfolding refill_one
refill_one-full more none s n h l k = inl h
refill_one-full more (some (back, rest)) s n h l k =
    let m = move (back, rest) s in
    elim (Bool-cases (ltb s.pack_size (length m.pack))) [
      | inl big ↦ rw big (inr (ground (arith, big)))
      | inr small ↦ rw small (k m (omega (arith, h.1)))
    ]

none_left : {A : Type 0} (q : List A) → length q ≤ 0 → q ≡ []
none_left [] h = refl
none_left (x ∷ q) h = absurd (omega arith)

-- Fuel for each entry of the queue is enough for the inner loop of a flush: it stops where the queue
-- is empty or the pack is full.
pub refill-full :
    (n : ℕ) (s : InfluxStream)
    → length s.queue ≤ n
    → ((refill n s).queue ≡ []) ⊎ (s.pack_size < length (refill n s).pack)
unfolding refill
refill-full zero s h = inl (none_left s.queue h)
refill-full (suc n) s h =
    refill_one-full (refill n) (pop_back s.queue) s n (pop_back-Popped s.queue) h (refill-full n)

abbrev took : Option ℕ → InfluxStream → InfluxStream
took ret s = record s { pack = []; offers = s.offers ++ (s.pack, ret) ∷ [] }

-- What a flush did: `sent` has left the pack and the queue for the sink. Either nothing is left in the
-- pack, or what is left was offered last and not taken whole.
pub record Flushed (s s' : InfluxStream) : Type 0 where
  pub sent : Bytes
  pub left : waiting s ≡ sent ++ waiting s'
  pub ends :
      ((s'.pack ≡ []) × (received_of s'.offers ≡ received_of s.offers ++ sent))
      ⊎ ((ret : Option ℕ) × (is_whole ret s'.pack ≡ false)
          × (received_of s'.offers ≡ (received_of s.offers ++ sent) ++ taken ret s'.pack))
