-- ===== src/Router/Delivers.antt =====
-- From the start of a route to what is attached at its end.
use Prim.Native.String.{String}
use mathlib.Core.Path.{subst}
use uav_router.Base.{
  ℕ, ◌<◌, ◌≡◌, ◌≢◌, refl, sym, ap, ◌∙◌, ◌⊎◌, Option, none, some, Bool, true, false, if◌then◌else◌,
  List, [], ◌∷◌, nat_order, text_order, find, put, Bool-cases, inl, inr, arith,
}
use uav_router.Yaml.{Node, undefined, null, scalar, sequence, mapping, Nodes, nil, cons}
use uav_router.Router.Names.{is_pattern}
use uav_router.Router.Store.{
  World, add_object, pointer, slot, add_if, connect_to_dest, add_to_matching, register_write_end,
}
use uav_router.Router.Routes.{Build, built, and_then, construct_route, construct_each}
use uav_router.Router.Frame.{
  Known, Leads, Keeps, add_object-Leads, add_object_mono, add_object-Known,
}
use uav_router.Router.Isolated.{
  add_matching-Keeps, Kept, KeptResult, construct_route-Kept, construct_each-Kept, built-Kept,
}

-- `name` stands in the node outside of any filter.
mutual
  pub data Lists (name : String) : Node → Type 0 where
    named : Lists name (scalar name)
    among : {ns : Nodes} → ListsIn name ns → Lists name (sequence ns)

  pub data ListsIn (name : String) : Nodes → Type 0 where
    first : {n : Node} {ns : Nodes} → Lists name n → ListsIn name (cons n ns)
    later : {n : Node} {ns : Nodes} → ListsIn name ns → ListsIn name (cons n ns)

abbrev LeadsAfter : ℕ → ℕ → Option Build → Type 0
LeadsAfter a b none = Unit {0}
LeadsAfter a b (some c) = Leads a b c.world

abbrev LeadsResult : ℕ → ℕ → Option (Bool × Build) → Type 0
LeadsResult a b none = Unit {0}
LeadsResult a b (some r) = Leads a b r.1.world

module _ (matches : String → String → Bool) where
  connect_to_dest-Leads :
      (name : String) (dest : ℕ) (p : Option ℕ) (w : World)
      → find name w.store.endpoints ≡ some p
      → Known dest w
      → Leads dest (pointer p) (connect_to_dest matches name dest w)
  unfolding connect_to_dest
  connect_to_dest-Leads name dest p w e k =
      let w1 = add_object dest (pointer p) w in
      let first = add_object-Leads dest (pointer p) w k in
      rw e (elim (Bool-cases (is_pattern name)) [
        | inl h ↦ rw h first
        | inr h ↦ rw h (
            (add_matching-Keeps matches name dest w.store.regex_endpoints w1).own (pointer p) first)
      ])

  built-Leads : (a b : ℕ) (o : Option (Bool × Build)) → LeadsResult a b o → LeadsAfter a b (built o)
  built-Leads a b none h = tt
  built-Leads a b (some r) h = h

  -- What was reached stays reached.
  stays : (a b : ℕ) (u : World) (o : Option Build) → Leads a b u → Kept a u o → LeadsAfter a b o
  stays a b u none l k = tt
  stays a b u (some c) l k = k.own b l

  each-stays :
      (ns : Nodes) (dest b : ℕ) (u : World) (o : Option Build)
      → dest < u.fresh
      → Kept dest u o
      → LeadsAfter dest b o
      → LeadsAfter dest b (and_then o (construct_each matches ns dest))
  each-stays ns dest b u none old k l = tt
  each-stays ns dest b u (some c) old k l =
      stays dest b c.world (construct_each matches ns dest c) l
        (construct_each-Kept matches ns dest c (omega (arith, k.fresh)))

  sequence-Leads :
      (dest b : ℕ) (o : Option Build)
      → LeadsAfter dest b o
      → LeadsResult dest b (elim o [ none ↦ none | some c ↦ some (true, c) ])
  sequence-Leads dest b none h = tt
  sequence-Leads dest b (some c) h = h

  rest-Leads :
      (dest : ℕ) (name : String) (p : Option ℕ) (u : World) (o : Option Build)
      (f : Build → Option Build)
      → dest < u.fresh
      → find name u.store.endpoints ≡ some p
      → Known dest u
      → Kept dest u o
      → ((c : Build)
          → dest < c.world.fresh
          → find name c.world.store.endpoints ≡ some p
          → Known dest c.world
          → LeadsAfter dest (pointer p) (f c))
      → LeadsAfter dest (pointer p) (and_then o f)
  rest-Leads dest name p u none f old e k h g = tt
  rest-Leads dest name p u (some c) f old e k h g =
      g c (omega (arith, h.fresh)) (ap (λ s. find name s.endpoints) h.store ∙ e) (h.known k)

  mutual
    unfolding construct_route

    construct_route-Leads :
        (cfg : Node) (dest : ℕ) (b : Build) (name : String) (p : Option ℕ)
        → Lists name cfg
        → dest < b.world.fresh
        → find name b.world.store.endpoints ≡ some p
        → Known dest b.world
        → LeadsResult dest (pointer p) (construct_route matches cfg dest b)
    construct_route-Leads undefined dest b name p l old e k = elim l [ ]
    construct_route-Leads null dest b name p l old e k = elim l [ ]
    construct_route-Leads (mapping es) dest b name p l old e k = elim l [ ]
    construct_route-Leads (scalar s) dest b name p named old e k =
        connect_to_dest-Leads s dest p b.world e k
    construct_route-Leads (sequence ns) dest b name p (among l) old e k =
        sequence-Leads dest (pointer p) (construct_each matches ns dest b)
          (construct_each-Leads ns dest b name p l old e k)

    construct_each-Leads :
        (ns : Nodes) (dest : ℕ) (b : Build) (name : String) (p : Option ℕ)
        → ListsIn name ns
        → dest < b.world.fresh
        → find name b.world.store.endpoints ≡ some p
        → Known dest b.world
        → LeadsAfter dest (pointer p) (construct_each matches ns dest b)
    construct_each-Leads nil dest b name p l old e k = elim l [ ]
    construct_each-Leads (cons n ns) dest b name p (first l) old e k =
        each-stays ns dest (pointer p) b.world (built (construct_route matches n dest b)) old
          (built-Kept dest b.world (construct_route matches n dest b)
            (construct_route-Kept matches n dest b old))
          (built-Leads dest (pointer p) (construct_route matches n dest b)
            (construct_route-Leads n dest b name p l old e k))
    construct_each-Leads (cons n ns) dest b name p (later l) old e k =
        rest-Leads dest name p b.world (built (construct_route matches n dest b))
          (construct_each matches ns dest) old e k
          (built-Kept dest b.world (construct_route matches n dest b)
            (construct_route-Kept matches n dest b old))
          (λ c old' e' k'. construct_each-Leads ns dest c name p l old' e' k')

  -- `name` is matched by the pattern of the destination `d`.
  abbrev pub Matches : String → ℕ → List (String × ℕ) → Type 0
  Matches name d [] = ⊥
  Matches name d ((pattern, e) ∷ rest) =
      ((e ≡ d) × (matches pattern name ≡ true)) ⊎ Matches name d rest

  -- What is registered under `name` is attached to the destination `d`: it is the name's, or matched.
  abbrev pub Receives : String → ℕ → World → Type 0
  Receives name d w =
      (find name w.store.endpoints ≡ some (some d)) ⊎ Matches name d w.store.regex_endpoints

  -- one round of add_to_matching
  matched :
      (name pattern : String) (sink d : ℕ) (rest : List (String × ℕ)) (w : World)
      → matches pattern name ≡ true
      → add_to_matching matches name sink ((pattern, d) ∷ rest) w
        ≡ add_to_matching matches name sink rest (add_object d sink w)
  unfolding add_to_matching
  matched name pattern sink d rest w h =
      ap (λ v. add_to_matching matches name sink rest (if v then add_object d sink w else w)) h

  passed_by :
      (name pattern : String) (sink d : ℕ) (rest : List (String × ℕ)) (w : World)
      → matches pattern name ≡ false
      → add_to_matching matches name sink ((pattern, d) ∷ rest) w
        ≡ add_to_matching matches name sink rest w
  unfolding add_to_matching
  passed_by name pattern sink d rest w h =
      ap (λ v. add_to_matching matches name sink rest (if v then add_object d sink w else w)) h

  add_to_matching_mono :
      (name : String) (sink : ℕ) (es : List (String × ℕ)) (w : World) (a b : ℕ)
      → Leads a b w
      → Leads a b (add_to_matching matches name sink es w)
  unfolding add_to_matching
  add_to_matching_mono name sink [] w a b l = l
  add_to_matching_mono name sink ((pattern, d) ∷ rest) w a b l =
      elim (Bool-cases (matches pattern name)) [
        | inl h ↦ subst (Leads a b) (sym (matched name pattern sink d rest w h)) (
            add_to_matching_mono name sink rest (add_object d sink w) a b
              (add_object_mono a b d sink w l))
        | inr h ↦
            subst (Leads a b) (sym (passed_by name pattern sink d rest w h))
              (add_to_matching_mono name sink rest w a b l)
      ]

  add_to_matching-Leads :
      (name : String) (sink : ℕ) (es : List (String × ℕ)) (w : World) (d : ℕ)
      → Known d w
      → Matches name d es
      → Leads d sink (add_to_matching matches name sink es w)
  unfolding add_to_matching
  add_to_matching-Leads name sink [] w d k m = absurd m
  add_to_matching-Leads name sink ((pattern, e) ∷ rest) w d k (inl (same, h)) =
      let w1 = add_object e sink w in
      let there = add_object-Leads e sink w (subst (λ t. Known t w) (sym same) k) in
      subst (λ t. Leads t sink (add_to_matching matches name sink ((pattern, e) ∷ rest) w)) same
        (subst (Leads e sink) (sym (matched name pattern sink e rest w h))
          (add_to_matching_mono name sink rest w1 e sink there))
  add_to_matching-Leads name sink ((pattern, e) ∷ rest) w d k (inr m) =
      elim (Bool-cases (matches pattern name)) [
        | inl h ↦ subst (Leads d sink) (sym (matched name pattern sink e rest w h)) (
            add_to_matching-Leads name sink rest (add_object e sink w) d
              (add_object-Known d e sink w k) m)
        | inr h ↦
            subst (Leads d sink) (sym (passed_by name pattern sink e rest w h))
              (add_to_matching-Leads name sink rest w d k m)
      ]

  add_to_matching-Known :
      (name : String) (sink : ℕ) (es : List (String × ℕ)) (w : World) (a : ℕ)
      → Known a w
      → Known a (add_to_matching matches name sink es w)
  unfolding add_to_matching
  add_to_matching-Known name sink [] w a k = k
  add_to_matching-Known name sink ((pattern, d) ∷ rest) w a k =
      elim (Bool-cases (matches pattern name)) [
        | inl h ↦ subst (Known a) (sym (matched name pattern sink d rest w h)) (
            add_to_matching-Known name sink rest (add_object d sink w) a
              (add_object-Known a d sink w k))
        | inr h ↦
            subst (Known a) (sym (passed_by name pattern sink d rest w h))
              (add_to_matching-Known name sink rest w a k)
      ]

  add_to_matching-fresh :
      (name : String) (sink : ℕ) (es : List (String × ℕ)) (w : World)
      → (add_to_matching matches name sink es w).fresh ≡ w.fresh
  unfolding add_to_matching add_object
  add_to_matching-fresh name sink [] w = refl
  add_to_matching-fresh name sink ((pattern, d) ∷ rest) w =
      elim (Bool-cases (matches pattern name)) [
        | inl h ↦
            ap (λ u. u.fresh) (matched name pattern sink d rest w h)
            ∙ add_to_matching-fresh name sink rest (add_object d sink w)
        | inr h ↦
            ap (λ u. u.fresh) (passed_by name pattern sink d rest w h)
            ∙ add_to_matching-fresh name sink rest w
      ]

  add_if_mono :
      (o : Option ℕ) (sink : ℕ) (w : World) (a b : ℕ) → Leads a b w → Leads a b (add_if o sink w)
  add_if_mono none sink w a b l = l
  add_if_mono (some d) sink w a b l = add_object_mono a b d sink w l

  add_if-Known :
      (o : Option ℕ) (sink : ℕ) (w : World) (a : ℕ) → Known a w → Known a (add_if o sink w)
  add_if-Known none sink w a k = k
  add_if-Known (some d) sink w a k = add_object-Known a d sink w k

  add_if-fresh : (o : Option ℕ) (sink : ℕ) (w : World) → (add_if o sink w).fresh ≡ w.fresh
  unfolding add_object
  add_if-fresh none sink w = refl
  add_if-fresh (some d) sink w = refl

  pub register_write_end-Known :
      (name : String) (sink : ℕ) (w : World) (a : ℕ)
      → Known a w
      → Known a (register_write_end matches name sink w)
        × ((register_write_end matches name sink w).fresh ≡ w.fresh)
  unfolding register_write_end
  register_write_end-Known name sink w a k =
      let p = slot (find name w.store.endpoints) in
      let w1 = record w { store = record w.store { endpoints = put name p w.store.endpoints } } in
      (
        add_to_matching-Known name sink w.store.regex_endpoints (add_if p sink w1) a
            (add_if-Known p sink w1 a k),
        add_to_matching-fresh name sink w.store.regex_endpoints (add_if p sink w1)
            ∙ add_if-fresh p sink w1,
      )

  register_write_end_mono :
      (name : String) (sink : ℕ) (w : World) (a b : ℕ)
      → Leads a b w
      → Leads a b (register_write_end matches name sink w)
  unfolding register_write_end
  register_write_end_mono name sink w a b l =
      let p = slot (find name w.store.endpoints) in
      let w1 = record w { store = record w.store { endpoints = put name p w.store.endpoints } } in
      add_to_matching_mono name sink w.store.regex_endpoints (add_if p sink w1) a b
        (add_if_mono p sink w1 a b l)

  register_write_end-Leads :
      (name : String) (sink : ℕ) (w : World) (d : ℕ)
      → Known d w
      → Receives name d w
      → Leads d sink (register_write_end matches name sink w)
  unfolding register_write_end
  register_write_end-Leads name sink w d k (inl e) =
      let w1 = record w {
        store = record w.store { endpoints = put name (some d) w.store.endpoints };
      } in
      rw e (
        add_to_matching_mono name sink w.store.regex_endpoints (add_object d sink w1) d sink
          (add_object-Leads d sink w1 k))
  register_write_end-Leads name sink w d k (inr m) =
      let p = slot (find name w.store.endpoints) in
      let w1 = record w { store = record w.store { endpoints = put name p w.store.endpoints } } in
      add_to_matching-Leads name sink w.store.regex_endpoints (add_if p sink w1) d
        (add_if-Known p sink w1 d k) m

  -- A route lists the name of a destination. When it is built into `dest`, and then an endpoint is
  -- registered under a name that the destination receives, the data of `dest` goes to the destination,
  -- and from there to the endpoint.
  pub construct-register :
      (cfg : Node) (dest : ℕ) (b c : Build) (done : Bool) (name end_name : String) (d sink : ℕ)
      → Lists name cfg
      → dest < b.world.fresh
      → Known dest b.world
      → d < b.world.fresh
      → Known d b.world
      → d ≢ dest
      → find name b.world.store.endpoints ≡ some (some d)
      → Receives end_name d b.world
      → construct_route matches cfg dest b ≡ some (done, c)
      → Leads dest d (register_write_end matches end_name sink c.world)
        × Leads d sink (register_write_end matches end_name sink c.world)
  construct-register cfg dest b c done name end_name d sink l old k old_d k_d ne e r run =
      let led : Leads dest d c.world =
        subst (LeadsResult dest d) run (construct_route-Leads cfg dest b name (some d) l old e k) in
      let kept : Keeps dest b.world c.world =
        subst (KeptResult dest b.world) run (construct_route-Kept matches cfg dest b old) in
      let known : Known d c.world = (k_d.0, kept.others d old_d ne ∙ k_d.1) in
      (
        register_write_end_mono end_name sink c.world dest d led,
        register_write_end-Leads end_name sink c.world d known (
            subst
              (λ s.
                (find end_name s.endpoints ≡ some (some d)) ⊎ Matches end_name d s.regex_endpoints)
              (sym kept.store) r),
      )
