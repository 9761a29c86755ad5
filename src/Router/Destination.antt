-- ===== src/Router/Destination.antt =====
-- Class Destination in app/uav-router.cpp: a set of endpoints that get the same data. An endpoint is
-- held by a weak pointer under the address that it had when it was added; `alive` says of an object
-- whether it still exists, and it does so throughout a call of `write`.
mod Tests
use uav_router.Base.{
  ℕ, zero, suc, ◌≡◌, refl, ap, ◌∙◌, Bool, true, false, not, ◌||◌, List, [], ◌∷◌, if◌then◌else◌,
  Bool-cases, inl, inr, Bytes, length, ltb, ◌==◌, ==_iff, ℤ, pos, nat_order, Order, Map, put, arith,
}

-- addresses with the objects that were there
pub record Destination : Type 0 where
  pub endpoints : Map ℕ ℕ

unfoldable pub add : ℕ → ℕ → Destination → Destination
add address object d = record d { endpoints = put address object d.endpoints }

unfoldable pub clear : Destination → Destination
clear d = record d { endpoints = [] }

-- What a call of `write` does: the objects whose `write` it calls with the buffer, in order, what
-- is registered afterwards, and what it returns.
pub record Outcome : Type 0 where
  pub written : List ℕ
  pub after : Destination
  pub result : ℤ

-- `answer` is what the `write` of an object returns for a buffer.
module _ (alive : ℕ → Bool) (answer : ℕ → Bytes → ℤ) where
  -- the loop over the endpoints: those written to, and those that are not erased
  unfoldable pub write_each : Map ℕ ℕ → List ℕ × Map ℕ ℕ
  write_each [] = ([], [])
  write_each ((address, object) ∷ rest) =
      let r = write_each rest in if alive object then (object ∷ r.0, (address, object) ∷ r.1) else r

  unfoldable pub write_map : Bytes → Map ℕ ℕ → Outcome
  unfolding write_each
  write_map buf [] = record { written = []; after = record { endpoints = [] }; result = pos 0 }
  write_map buf ((address, object) ∷ []) =
      if alive object
      then record {
        written = object ∷ [];
        after = record { endpoints = (address, object) ∷ [] };
        result = answer object buf;
      }
      else record { written = []; after = record { endpoints = [] }; result = pos 0 }
  write_map buf (e ∷ f ∷ rest) =
      let r = write_each (e ∷ f ∷ rest) in
      record { written = r.0; after = record { endpoints = r.1 }; result = pos (length buf) }

  unfoldable pub write : Bytes → Destination → Outcome
  unfolding write_map
  write buf d = write_map buf d.endpoints

  -- What lives, and where.
  unfoldable pub living : Map ℕ ℕ → Map ℕ ℕ
  living [] = []
  living ((address, object) ∷ rest) =
      if alive object then (address, object) ∷ living rest else living rest

  abbrev pub objects : Map ℕ ℕ → List ℕ
  objects [] = []
  objects ((address, object) ∷ rest) = object ∷ objects rest

  write_each-living :
      (m : Map ℕ ℕ) → ((write_each m).0 ≡ objects (living m)) × ((write_each m).1 ≡ living m)
  unfolding write_each living
  write_each-living [] = (refl, refl)
  write_each-living ((address, object) ∷ rest) =
      let (w, k) = write_each-living rest in
      elim (Bool-cases (alive object)) [
        | inl h ↦ rw h (ap (◌∷◌ object) w, ap (◌∷◌ (address, object)) k)
        | inr h ↦ rw h (w, k)
      ]

  write_map-living :
      (buf : Bytes) (m : Map ℕ ℕ)
      → ((write_map buf m).written ≡ objects (living m))
        × ((write_map buf m).after.endpoints ≡ living m)
  unfolding write_map living
  write_map-living buf [] = (refl, refl)
  write_map-living buf ((address, object) ∷ []) = elim (Bool-cases (alive object)) [
    | inl h ↦ rw h (refl, refl)
    | inr h ↦ rw h (refl, refl)
  ]
  write_map-living buf (e ∷ f ∷ rest) = write_each-living (e ∷ f ∷ rest)

  -- However many endpoints there are, a buffer is written once to each of those that still exist, in
  -- the order of their addresses, and to no other; these are registered afterwards, and no other.
  pub write-living :
      (buf : Bytes) (d : Destination)
      → ((write buf d).written ≡ objects (living d.endpoints))
        × ((write buf d).after.endpoints ≡ living d.endpoints)
  unfolding write
  write-living buf d = write_map-living buf d.endpoints

  -- Whether an object is in a list.
  abbrev pub has : ℕ → List ℕ → Bool
  has o [] = false
  has o (p ∷ ps) = (o == p) || has o ps

  or_true : (b : Bool) → (b || true) ≡ true
  or_true true = refl
  or_true false = refl

  has-living-front :
      (address object : ℕ) (m : Map ℕ ℕ)
      → alive object ≡ true
      → has object (objects (living ((address, object) ∷ m))) ≡ true
  unfolding living
  has-living-front address object m h = rw h (rw ((==_iff object object).1 refl) refl)

  has-living-put :
      (address object : ℕ) (m : Map ℕ ℕ)
      → alive object ≡ true
      → has object (objects (living (put address object m))) ≡ true
  unfolding living
  has-living-put address object [] h = has-living-front address object [] h
  has-living-put address object ((j, w) ∷ m) h = elim (Bool-cases (ltb address j)) [
    | inl x ↦ rw x (has-living-front address object ((j, w) ∷ m) h)
    | inr x ↦ elim (Bool-cases (ltb j address)) [
      | inl y ↦
          rw (x, y)
            (elim (Bool-cases (alive w)) [
              | inl z ↦ rw z (
                  ap (λ b. (object == w) || b) (has-living-put address object m h)
                  ∙ or_true (object == w))
              | inr z ↦ rw z (has-living-put address object m h)
            ])
      | inr y ↦ rw (x, y) (has-living-front j object m h)
    ]
  ]

  -- An endpoint that was added last and still exists gets the next buffer.
  pub add-write :
      (address object : ℕ) (buf : Bytes) (d : Destination)
      → alive object ≡ true
      → has object (write buf (add address object d)).written ≡ true
  unfolding add
  add-write address object buf d h =
      ap (has object) (write-living buf (add address object d)).0
      ∙ has-living-put address object d.endpoints h
