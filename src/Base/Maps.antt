-- ===== src/Base/Maps.antt =====
-- std::map, kept in the order of its keys: find, operator[] and insertion. A std::set is a map to
-- nothing.
use mathlib.Core.Path.{◌≡◌, refl, sym, ap, ◌∙◌}
use mathlib.Core.Logic.{◌≢◌, inl, inr}
use mathlib.Core.Option.{Option, none, some}
use mathlib.Core.List.{List, [], ◌∷◌}
use uav_router.Base.Tests.{if◌then◌else◌, Bool-cases}
use uav_router.Base.Orders.{Order}

abbrev pub Map {ℓ ℓ'} : Type ℓ → Type ℓ' → Type (ℓ ⊔ ℓ')
Map K V = List (K × V)

module _ {ℓ ℓ'} {K : Type ℓ} {V : Type ℓ'} ⦃o : Order K⦄ where
  -- Two keys are one where neither is before the other.
  abbrev pub find : K → Map K V → Option V
  find k [] = none
  find k ((j, v) ∷ m) = if o.lt k j then none else if o.lt j k then find k m else some v

  abbrev pub put : K → V → Map K V → Map K V
  put k v [] = (k, v) ∷ []
  put k v ((j, w) ∷ m) =
      if o.lt k j then (k, v) ∷ (j, w) ∷ m else if o.lt j k then (j, w) ∷ put k v m else (j, v) ∷ m

  pub find-put_same : (k : K) (v : V) (m : Map K V) → find k (put k v m) ≡ some v
  find-put_same k v [] = rw (o.lt_irrefl k) refl
  find-put_same k v ((j, w) ∷ m) = elim (Bool-cases (o.lt k j)) [
    | inl h ↦ rw h (rw (o.lt_irrefl k) refl)
    | inr h ↦ elim (Bool-cases (o.lt j k)) [
      | inl h' ↦ rw (h, h') (rw (h, h') (find-put_same k v m))
      | inr h' ↦ rw (h, h') (rw (h, h') refl)
    ]
  ]

  -- What `put` writes under one key is not seen under another.
  pub find-put_other : (i k : K) (v : V) (m : Map K V) → i ≢ k → find i (put k v m) ≡ find i m
  find-put_other i k v [] ne = elim (Bool-cases (o.lt i k)) [
    | inl ik ↦ rw ik refl
    | inr ik ↦ elim (Bool-cases (o.lt k i)) [
      | inl ki ↦ rw (ik, ki) refl
      | inr ki ↦ absurd (ne (o.lt_connected i k ik ki))
    ]
  ]
  find-put_other i k v ((j, w) ∷ m) ne = elim (Bool-cases (o.lt k j)) [
    | inl kj ↦ rw kj (elim (Bool-cases (o.lt i k)) [
      | inl ik ↦ rw (ik, o.lt_trans i k j ik kj) refl
      | inr ik ↦ elim (Bool-cases (o.lt k i)) [
        | inl ki ↦ rw (ik, ki) refl
        | inr ki ↦ absurd (ne (o.lt_connected i k ik ki))
      ]
    ])
    | inr kj ↦ rw kj (elim (Bool-cases (o.lt j k)) [
      | inl jk ↦ rw jk (
          ap (λ r. if o.lt i j then none else if o.lt j i then r else some w)
            (find-put_other i k v m ne))
      | inr jk ↦ rw jk (elim (Bool-cases (o.lt i j)) [
        | inl ij ↦ rw ij refl
        | inr ij ↦ elim (Bool-cases (o.lt j i)) [
          | inl ji ↦ rw (ij, ji) refl
          | inr ji ↦ absurd (ne (o.lt_connected i j ij ji ∙ sym (o.lt_connected k j kj jk)))
        ]
      ])
    ])
  ]

module _ {ℓ ℓ'} {K : Type ℓ} {V : Type ℓ'} ⦃o : Order K⦄ where
  -- erase
  abbrev pub erase : K → Map K V → Map K V
  erase k [] = []
  erase k ((j, v) ∷ m) =
      let rest = erase k m in if o.lt k j then (j, v) ∷ m else if o.lt j k then (j, v) ∷ rest else m
