-- ===== src/Router/Frame.antt =====
-- What the construction of a route leaves as it was.
use mathlib.Core.Option
use mathlib.Core.Path.{subst}
use uav_router.Base.{
  ℕ, suc, ◌≤◌, ◌<◌, ◌≡◌, ◌≢◌, refl, sym, ap, ◌∙◌, Option, none, some, false, [], nat_order,
  text_order, Map, find, find-put_same, find-put_other, ◌==◌, ==_iff, Bool-cases, inl, inr, arith,
}
use uav_router.Router.Destination.{Destination, add}
use uav_router.Router.Store.{World, new_dest, with_added, add_object}

pub not_equal : (i k : ℕ) → (i == k) ≡ false → i ≢ k
not_equal i k h e = ground (arith, h, e)

-- There is a destination at the address.
abbrev pub Known : ℕ → World → Type 0
Known a w = (d : Destination) × (find a w.dests ≡ some d)

-- The destination at `a` has the object at `b` among its endpoints.
abbrev pub Leads : ℕ → ℕ → World → Type 0
Leads a b w = (d : Destination) × (find a w.dests ≡ some d) × (find b d.endpoints ≡ some b)

-- From `w` to `w'` the names stay, and of the destinations that there were, only the one at `dest` has
-- changed: it may have more endpoints.
pub record Keeps (dest : ℕ) (w w' : World) : Type 0 where
  pub store : w'.store ≡ w.store
  pub fresh : w.fresh ≤ w'.fresh
  pub others : (a : ℕ) → a < w.fresh → a ≢ dest → find a w'.dests ≡ find a w.dests
  pub known : Known dest w → Known dest w'
  pub own : (b : ℕ) → Leads dest b w → Leads dest b w'

pub Keeps-refl : (dest : ℕ) (w : World) → Keeps dest w w
Keeps-refl dest w = record {
  store = refl;
  fresh = omega arith;
  others = λ a h ne. refl;
  known = λ k. k;
  own = λ b l. l;
}

pub Keeps-trans : (dest : ℕ) (u v w : World) → Keeps dest u v → Keeps dest v w → Keeps dest u w
Keeps-trans dest u v w h k = record {
  store = k.store ∙ h.store;
  fresh = omega (arith, h.fresh, k.fresh);
  others = λ a l ne. k.others a (omega (arith, h.fresh, l)) ne ∙ h.others a l ne;
  known = λ x. k.known (h.known x);
  own = λ b l. k.own b (h.own b l);
}

-- What happens at a new address does not show at one that there was.
pub Keeps-inside :
    (dest : ℕ) (u v w : World)
    → dest < u.fresh
    → v.store ≡ u.store
    → v.fresh ≡ suc u.fresh
    → ((a : ℕ) → a < u.fresh → find a v.dests ≡ find a u.dests)
    → Keeps u.fresh v w
    → Keeps dest u w
Keeps-inside dest u v w old s f same k =
    let kept : (a : ℕ) → a < u.fresh → find a w.dests ≡ find a u.dests =
      λ a l. k.others a (omega (arith, l, f)) (λ e. ground (arith, e, l)) ∙ same a l in
    record {
      store = k.store ∙ s;
      fresh = omega (arith, k.fresh, f);
      others = λ a l ne. kept a l;
      known = λ (d, e). (d, kept dest old ∙ e);
      own = λ b (d, e, l). (d, kept dest old ∙ e, l);
    }

pub new_dest-same : (w : World) (a : ℕ) → a < w.fresh → find a (new_dest w).dests ≡ find a w.dests
new_dest-same w a h =
    find-put_other a w.fresh (record { endpoints = [] }) w.dests (λ e. ground (arith, e, h))

-- More endpoints.
add-find :
    (b object : ℕ) (d : Destination)
    → find b d.endpoints ≡ some b
    → find b (add object object d).endpoints ≡ some b
unfolding add
add-find b object d h = elim (Bool-cases (b == object)) [
  | inl e ↦ let same = (==_iff b object).0 e in rw same (find-put_same object object d.endpoints)
  | inr e ↦ find-put_other b object object d.endpoints (not_equal b object e) ∙ h
]

with_added-others :
    (dest object : ℕ) (o : Option Destination) (ds : Map ℕ Destination) (a : ℕ)
    → a ≢ dest
    → find a (with_added dest object o ds) ≡ find a ds
with_added-others dest object none ds a ne = refl
with_added-others dest object (some d) ds a ne = find-put_other a dest (add object object d) ds ne

with_added-own :
    (dest object : ℕ) (o : Option Destination) (ds : Map ℕ Destination) (d : Destination)
    → o ≡ some d
    → find dest (with_added dest object o ds) ≡ some (add object object d)
with_added-own dest object none ds d h = absurd (ground (arith, h))
with_added-own dest object (some c) ds d h =
    find-put_same dest (add object object c) ds ∙ ap (λ o. Option.map (add object object) o) h

pub add_object-Keeps : (dest object : ℕ) (w : World) → Keeps dest w (add_object dest object w)
unfolding add_object
add_object-Keeps dest object w = record {
  store = refl;
  fresh = omega arith;
  others = λ a h ne. with_added-others dest object (find dest w.dests) w.dests a ne;
  known =
      λ (d, e). (add object object d, with_added-own dest object (find dest w.dests) w.dests d e);
  own = λ b (d, e, l). (
    add object object d,
    with_added-own dest object (find dest w.dests) w.dests d e,
    add-find b object d l,
  );
}

pub add_object-Leads :
    (dest object : ℕ) (w : World) → Known dest w → Leads dest object (add_object dest object w)
unfolding add_object add
add_object-Leads dest object w (d, e) = (
  add object object d,
  with_added-own dest object (find dest w.dests) w.dests d e,
  find-put_same object object d.endpoints,
)

-- An addition anywhere takes nothing away.
pub add_object_mono :
    (a b dest object : ℕ) (w : World) → Leads a b w → Leads a b (add_object dest object w)
unfolding add_object
add_object_mono a b dest object w l = elim (Bool-cases (a == dest)) [
  | inl e ↦
      let same = (==_iff a dest).0 e in
      rw same ((add_object-Keeps dest object w).own b (rw_dest a dest same l))
  | inr e ↦ (
    l.0,
    with_added-others dest object (find dest w.dests) w.dests a (not_equal a dest e) ∙ l.1,
    l.2,
  )
]
  where
    rw_dest : (a d : ℕ) → a ≡ d → Leads a b w → Leads d b w
    rw_dest a d e l = rw (sym e) l

pub add_object-Known :
    (a dest object : ℕ) (w : World) → Known a w → Known a (add_object dest object w)
unfolding add_object
add_object-Known a dest object w k = elim (Bool-cases (a == dest)) [
  | inl e ↦
      let same = (==_iff a dest).0 e in
      rw same ((add_object-Keeps dest object w).known (subst (λ t. Known t w) same k))
  | inr e ↦
      (k.0, with_added-others dest object (find dest w.dests) w.dests a (not_equal a dest e) ∙ k.1)
]
