-- ===== src/Stats/Sends.antt =====
-- What an InfluxStream does with a metric that is sent, and with many and flushes between them.
mod Tests
use uav_router.Base.{
  ℕ, zero, suc, ◌-◌, ◌≡◌, refl, sym, ap, ◌∙◌, Option, none, some, Bool, true, false, List, [], ◌∷◌,
  ◌++◌, append-nil, append_assoc, if◌then◌else◌, Bool-cases, inl, inr, Bytes, length, take,
  replicate, ltb, ◌==◌,
}
use uav_router.Stats.Influx.{InfluxStream, resize, is_whole, offer, send}
use uav_router.Stats.Flushes.{waiting, lines_back}

-- The text of the buffers that were taken whole.
abbrev pub taken_of : List (Bytes × Option ℕ) → Bytes
taken_of [] = []
taken_of ((b, ret) ∷ os) = (if is_whole ret b then b else []) ++ taken_of os

-- What was taken so far and what waits.
unfoldable pub total : InfluxStream → Bytes
unfolding waiting
total s = taken_of s.offers ++ waiting s

taken_of-append :
    (os : List (Bytes × Option ℕ)) (b : Bytes) (ret : Option ℕ)
    → taken_of (os ++ (b, ret) ∷ []) ≡ taken_of os ++ (if is_whole ret b then b else [])
taken_of-append [] b ret = append-nil (if is_whole ret b then b else [])
taken_of-append ((c, r) ∷ os) b ret =
    ap (◌++◌ (if is_whole r c then c else [])) (taken_of-append os b ret)
    ∙ sym (
        append_assoc (if is_whole r c then c else []) (taken_of os)
          (if is_whole ret b then b else []))

-- A text without its newlines.
unfoldable pub joined : Bytes → Bytes
joined [] = []
joined (b ∷ bs) = if b == 10 then joined bs else b ∷ joined bs

abbrev pub AllEmpty : List Bytes → Type 0
AllEmpty [] = Unit {0}
AllEmpty (q ∷ qs) = (q ≡ []) × AllEmpty qs

joined-append : (xs ys : Bytes) → joined (xs ++ ys) ≡ joined xs ++ joined ys
unfolding joined
joined-append [] ys = refl
joined-append (x ∷ xs) ys = elim (Bool-cases (x == 10)) [
  | inl h ↦ rw h (joined-append xs ys)
  | inr h ↦ rw h (ap (◌∷◌ x) (joined-append xs ys))
]

joined-lines_back : (q : List Bytes) → AllEmpty q → joined (lines_back q) ≡ []
unfolding joined
joined-lines_back [] h = refl
joined-lines_back (q ∷ qs) (e, h) =
    joined-append (lines_back qs) (q ++ 10 ∷ [])
    ∙ ap (λ t. t ++ joined (q ++ 10 ∷ [])) (joined-lines_back qs h)
    ∙ ap (λ t. joined (t ++ 10 ∷ [])) e

AllEmpty-append : (p q : List Bytes) → AllEmpty p → AllEmpty q → AllEmpty (p ++ q)
AllEmpty-append [] q h k = k
AllEmpty-append (p ∷ ps) q (e, h) k = (e, AllEmpty-append ps q h k)

AllEmpty-take : (n : ℕ) (q : List Bytes) → AllEmpty q → AllEmpty (take n q)
AllEmpty-take zero q h = tt
AllEmpty-take (suc n) [] h = tt
AllEmpty-take (suc n) (q ∷ qs) (e, h) = (e, AllEmpty-take n qs h)

AllEmpty-replicate : (n : ℕ) → AllEmpty (replicate n [])
AllEmpty-replicate zero = tt
AllEmpty-replicate (suc n) = (refl, AllEmpty-replicate n)

AllEmpty-resize : (n : ℕ) (q : List Bytes) → AllEmpty q → AllEmpty (resize n q)
unfolding resize
AllEmpty-resize n q h =
    AllEmpty-append (take n q) (replicate (n - length q) []) (AllEmpty-take n q h)
      (AllEmpty-replicate (n - length q))

-- The text without newlines: what was taken, then the pack. The queue adds nothing to it.
joined-total :
    (s : InfluxStream)
    → AllEmpty s.queue
    → joined (total s) ≡ joined (taken_of s.offers) ++ joined s.pack
unfolding total waiting
joined-total s h =
    joined-append (taken_of s.offers) (s.pack ++ lines_back s.queue)
    ∙ ap (◌++◌ (joined (taken_of s.offers))) (
        joined-append s.pack (lines_back s.queue)
        ∙ ap (◌++◌ (joined s.pack)) (joined-lines_back s.queue h)
        ∙ append-nil (joined s.pack))

-- Text that is put behind the pack.
joined-behind :
    (s : InfluxStream) (text : Bytes) (queue : List Bytes)
    → AllEmpty s.queue
    → AllEmpty queue
    → joined (total (record s { pack = s.pack ++ text; queue = queue }))
      ≡ joined (total s) ++ joined text
joined-behind s text queue h k =
    joined-total (record s { pack = s.pack ++ text; queue = queue }) k
    ∙ ap (◌++◌ (joined (taken_of s.offers))) (joined-append s.pack text)
    ∙ sym (append_assoc (joined (taken_of s.offers)) (joined s.pack) (joined text))
    ∙ ap (λ t. t ++ joined text) (sym (joined-total s h))

joined-line : (line : Bytes) → joined (line ++ 10 ∷ []) ≡ joined line
unfolding joined
joined-line line = joined-append line (10 ∷ []) ∙ append-nil (joined line)

module _ (answers : List (Bytes × Option ℕ) → Bytes → Option ℕ) where
  offer-total : (s : InfluxStream) → total (offer answers s).1 ≡ total s
  unfolding offer total waiting
  offer-total s =
      let ret = answers s.offers s.pack in
      let offered = taken_of-append s.offers s.pack ret in
      elim (Bool-cases (is_whole ret s.pack)) [
        | inl h ↦ rw (offered, h) (append_assoc (taken_of s.offers) s.pack (lines_back s.queue))
        | inr h ↦
            rw (offered, h)
              (ap (λ t. t ++ (s.pack ++ lines_back s.queue)) (append-nil (taken_of s.offers)))
      ]

  -- The queue of a stream never holds a metric: where it holds only empty texts, it does so after
  -- another metric is sent, and this is behind what was taken
  -- whole or waits before, if newlines are left
  -- out of account.
  pub send-total :
      (line : Bytes) (s : InfluxStream)
      → AllEmpty s.queue
      → AllEmpty (send answers line s).queue
        × (joined (total (send answers line s)) ≡ joined (total s) ++ joined line)
  unfolding send
  send-total line s h = elim (Bool-cases (ltb s.pack_size (length s.pack))) [
    | inl full ↦ rw full (elim (Bool-cases (ltb s.queue_max_size (length s.queue))) [
      | inl many ↦ rw many (
        (refl, AllEmpty-resize s.queue_shrink_size s.queue h),
        joined-behind s line ([] ∷ resize s.queue_shrink_size s.queue) h
            (refl, AllEmpty-resize s.queue_shrink_size s.queue h),
      )
      | inr few ↦ rw few ((refl, h), joined-behind s line ([] ∷ s.queue) h (refl, h))
    ])
    | inr room ↦
        let s1 : InfluxStream = record s { pack = s.pack ++ (line ++ 10 ∷ []) } in
        let added =
          joined-behind s (line ++ 10 ∷ []) s.queue h h
          ∙ ap (◌++◌ (joined (total s))) (joined-line line) in
        rw room (elim (Bool-cases (ltb s.pack_size (length s1.pack))) [
          | inl full ↦ rw full (h, ap joined (offer-total s1) ∙ added)
          | inr fits ↦ rw fits (h, added)
        ])
  ]
