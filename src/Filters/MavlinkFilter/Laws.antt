-- ===== src/Filters/MavlinkFilter/Laws.antt =====
-- Which packets Mavlink_v1_filter lets pass.
use uav_router.Base.{
  ℕ, ◌≡◌, ◌≢◌, refl, sym, ap, ◌∙◌, none, some, Bool, true, false, not, ◌||◌, List, [], ◌∷◌, arith,
  Bool-cases, inl, inr, ℤ, pos, ltℤ, integer_order, put, find-put_same, find-put_other,
}
use uav_router.Filters.MavlinkFilter.Defs.{
  MavlinkFilter, FilterType, Set, insert_all, contains, is_empty, xor, sys_key, sys_filter,
  sys_passes,
}

-- Whether a list has a number.
unfoldable pub listed : ℤ → List ℤ → Bool
listed v [] = false
listed v (w ∷ ws) = not (ltℤ v w || ltℤ w v) || listed v ws

lt_apart : (v w : ℤ) → ltℤ v w ≡ true → v ≢ w
lt_apart v w h e = ground (arith, h, ap (λ s. ltℤ s w) e, integer_order.lt_irrefl w)

contains-put :
    (v w : ℤ) (s : Set) → contains v (put w tt s) ≡ (not (ltℤ v w || ltℤ w v) || contains v s)
contains-put v w s = elim (Bool-cases (ltℤ v w)) [
  | inl h ↦
      ap (λ o. elim o [ none ↦ false | some u ↦ true ]) (find-put_other v w tt s (lt_apart v w h))
      ∙ ap (λ b. not (b || ltℤ w v) || contains v s) (sym h)
  | inr h ↦ elim (Bool-cases (ltℤ w v)) [
    | inl k ↦
        ap (λ o. elim o [ none ↦ false | some u ↦ true ])
          (find-put_other v w tt s (λ e. lt_apart w v k (sym e)))
        ∙ ap (λ b. not (b || true) || contains v s) (sym h)
        ∙ ap (λ b. not (ltℤ v w || b) || contains v s) (sym k)
    | inr k ↦
        ap (λ x. contains x (put w tt s)) (integer_order.lt_connected v w h k)
        ∙ ap (λ o. elim o [ none ↦ false | some u ↦ true ]) (find-put_same w tt s)
        ∙ ap (λ b. not (b || false) || contains v s) (sym h)
        ∙ ap (λ b. not (ltℤ v w || b) || contains v s) (sym k)
  ]
]

swap_or : (a b c : Bool) → (a || (b || c)) ≡ ((b || a) || c)
swap_or true true c = refl
swap_or true false c = refl
swap_or false true c = refl
swap_or false false c = refl

contains-insert_all :
    (v : ℤ) (ws : List ℤ) (s : Set) → contains v (insert_all ws s) ≡ (listed v ws || contains v s)
unfolding listed
contains-insert_all v [] s = refl
contains-insert_all v (w ∷ ws) s =
    contains-insert_all v ws (put w tt s)
    ∙ ap (λ b. listed v ws || b) (contains-put v w s)
    ∙ swap_or (listed v ws) (not (ltℤ v w || ltℤ w v)) (contains v s)

or_false : (b : Bool) → (b || false) ≡ b
or_false true = refl
or_false false = refl

is_empty-put : (w : ℤ) (s : Set) → is_empty (put w tt s) ≡ false
is_empty-put w [] = refl
is_empty-put w ((j, u) ∷ s) = elim (Bool-cases (ltℤ w j)) [
  | inl h ↦ rw h refl
  | inr h ↦ elim (Bool-cases (ltℤ j w)) [ inl k ↦ rw (h, k) refl | inr k ↦ rw (h, k) refl ]
]

is_empty-insert_all :
    (ws : List ℤ) (s : Set) → is_empty s ≡ false → is_empty (insert_all ws s) ≡ false
is_empty-insert_all [] s h = h
is_empty-insert_all (w ∷ ws) s h = is_empty-insert_all ws (put w tt s) (is_empty-put w s)

-- After a list of systems, components or pairs of both is set, in any order and with any
-- repetitions, a packet passes this test if and only if its own is listed and the list is one of
-- allowed, or is not listed and the list is one of denied. An empty list lets every packet pass.
pub sys_filter-sys_passes :
    (allow : Bool) (t : FilterType) (vs : List ℤ) (m : MavlinkFilter) (s c : ℕ)
    → sys_passes s c (sys_filter allow t vs m)
      ≡ (is_empty vs || not (xor allow (listed (pos (sys_key t s c)) vs)))
unfolding sys_passes sys_filter
sys_filter-sys_passes allow t [] m s c = refl
sys_filter-sys_passes allow t (v ∷ vs) m s c =
    rw (is_empty-insert_all vs (put v tt []) (is_empty-put v [])) (
      ap (λ b. not (xor allow b))
        (contains-insert_all (pos (sys_key t s c)) (v ∷ vs) []
          ∙ or_false (listed (pos (sys_key t s c)) (v ∷ vs))))
