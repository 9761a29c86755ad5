-- ===== src/Router/Isolated.antt =====
-- A route is built without a change to what other endpoints have.
use Prim.Native.String.{String}
use text.Mathlib.Text.{◌==◌ as ◌=s=◌}
use mathlib.Core.Path.{subst}
use uav_router.Base.{
  ℕ, ◌<◌, ◌≡◌, refl, Option, none, some, Bool, true, false, List, [], ◌∷◌, nat_order, text_order,
  find, Bool-cases, inl, inr, arith,
}
use uav_router.Yaml.{
  Node, undefined, null, scalar, sequence, mapping, Nodes, nil, cons, Entries, none_left, entry,
  lookup, is_defined,
}
use uav_router.Filters.Factory.{Kind, create}
use uav_router.Router.Names.{is_pattern}
use uav_router.Router.Store.{
  World, new_dest, add_object, pointer, add_matching, add_named, connect_to_dest,
}
use uav_router.Router.Routes.{
  Build, Exit, to_next, to_rest, new_filter, attach, build_exit, build_filter, build_type, built,
  and_then, placed, construct_route, construct_each, construct_under,
}
use uav_router.Router.Frame.{
  Keeps, Keeps-refl, Keeps-trans, Keeps-inside, new_dest-same, add_object-Keeps,
}

-- What holds of a result, if there is one.
abbrev pub Kept : ℕ → World → Option Build → Type 0
Kept dest w none = Unit {0}
Kept dest w (some b) = Keeps dest w b.world

abbrev pub KeptResult : ℕ → World → Option (Bool × Build) → Type 0
KeptResult dest w none = Unit {0}
KeptResult dest w (some r) = Keeps dest w r.1.world

module _ (matches : String → String → Bool) where
  pub add_matching-Keeps :
      (name : String) (dest : ℕ) (es : List (String × ℕ)) (w : World)
      → Keeps dest w (add_matching matches name dest es w)
  unfolding add_matching
  add_matching-Keeps name dest [] w = Keeps-refl dest w
  add_matching-Keeps name dest ((pattern, d) ∷ rest) w = elim (Bool-cases (matches pattern name)) [
    | inl h ↦ rw h (
        Keeps-trans dest w (add_object dest d w)
          (add_matching matches name dest rest (add_object dest d w)) (add_object-Keeps dest d w)
          (add_matching-Keeps name dest rest (add_object dest d w)))
    | inr h ↦ rw h (add_matching-Keeps name dest rest w)
  ]

  pub add_named-Keeps :
      (dest : ℕ) (o : Option (Option ℕ)) (w : World) → Keeps dest w (add_named matches dest o w)
  add_named-Keeps dest none w = Keeps-refl dest w
  add_named-Keeps dest (some p) w = add_object-Keeps dest (pointer p) w

  pub connect_to_dest-Keeps :
      (name : String) (dest : ℕ) (w : World) → Keeps dest w (connect_to_dest matches name dest w)
  unfolding connect_to_dest
  connect_to_dest-Keeps name dest w =
      let w1 = add_named matches dest (find name w.store.endpoints) w in
      let first = add_named-Keeps dest (find name w.store.endpoints) w in
      elim (Bool-cases (is_pattern name)) [
        | inl h ↦ rw h first
        | inr h ↦ rw h (
            Keeps-trans dest w w1 (add_matching matches name dest w.store.regex_endpoints w1) first
              (add_matching-Keeps name dest w.store.regex_endpoints w1))
      ]

-- A new filter is no destination.
new_filter-Keeps :
    (dest : ℕ) (kind : Kind) (b : Build) → Keeps dest b.world (new_filter kind b).world
new_filter-Keeps dest kind b = record {
  store = refl;
  fresh = omega arith;
  others = λ a h ne. refl;
  known = λ k. k;
  own = λ a l. l;
}

Kept-after :
    (dest : ℕ) (u v : World) (o : Option Build) → Keeps dest u v → Kept dest v o → Kept dest u o
Kept-after dest u v none h k = tt
Kept-after dest u v (some b) h k = Keeps-trans dest u v b.world h k

pub and_then-Kept :
    (dest : ℕ) (w : World) (o : Option Build) (f : Build → Option Build)
    → Kept dest w o
    → ((b : Build) → Keeps dest w b.world → Kept dest b.world (f b))
    → Kept dest w (and_then o f)
and_then-Kept dest w none f h k = tt
and_then-Kept dest w (some b) f h k = Kept-after dest w b.world (f b) h (k b h)

pub built-Kept :
    (dest : ℕ) (w : World) (o : Option (Bool × Build)) → KeptResult dest w o → Kept dest w (built o)
built-Kept dest w none h = tt
built-Kept dest w (some r) h = h

inside :
    (e : Exit) (filter dest : ℕ) (b : Build) (o : Option Build)
    → dest < b.world.fresh
    → Kept b.world.fresh (attach e filter b.world.fresh (new_dest b.world)) o
    → Kept dest b.world o
inside e filter dest b none old h = tt
inside e filter dest b (some c) old h =
    Keeps-inside dest b.world (attach e filter b.world.fresh (new_dest b.world)) c.world old refl
      refl (new_dest-same b.world) h

-- Builders that keep the destination that they are given, if it was there.
abbrev Builds : (ℕ → Build → Option Build) → Type 0
Builds go = (d : ℕ) (b : Build) → d < b.world.fresh → Kept d b.world (go d b)

build_exit-Kept :
    (e : Exit) (has : Bool) (go : ℕ → Build → Option Build) (filter dest : ℕ) (b : Build)
    → Builds go
    → dest < b.world.fresh
    → Kept dest b.world (build_exit e has go filter b)
unfolding build_exit
build_exit-Kept e false go filter dest b h old = Keeps-refl dest b.world
build_exit-Kept e true go filter dest b h old =
    let d = b.world.fresh in
    let b1 = record b { world = attach e filter d (new_dest b.world) } in
    inside e filter dest b (go d b1) old (h d b1 (omega arith))

-- Exits of a filter that keep the destination in which the filter is.
abbrev Exits : (ℕ → Build → Option Build) → Type 0
Exits go = (filter dest : ℕ) (b : Build) → dest < b.world.fresh → Kept dest b.world (go filter b)

placed-Kept :
    (dest filter : ℕ) (w : World) (o : Option Build)
    → Kept dest w o
    → KeptResult dest w (placed dest filter o)
placed-Kept dest filter w none h = tt
placed-Kept dest filter w (some b) h =
    Keeps-trans dest w b.world (add_object dest filter b.world) h
      (add_object-Keeps dest filter b.world)

build_filter-Kept :
    (o : Option Kind) (next rest : ℕ → Build → Option Build) (dest : ℕ) (b : Build)
    → Exits next
    → Exits rest
    → dest < b.world.fresh
    → KeptResult dest b.world (build_filter o next rest dest b)
unfolding build_filter
build_filter-Kept none next rest dest b hn hr old = Keeps-refl dest b.world
build_filter-Kept (some kind) next rest dest b hn hr old =
    let f = b.world.fresh in
    let b1 = new_filter kind b in
    placed-Kept dest f b.world (and_then (next f b1) (rest f)) (
      Kept-after dest b.world b1.world (and_then (next f b1) (rest f))
        (new_filter-Keeps dest kind b)
        (and_then-Kept dest b1.world (next f b1) (rest f) (hn f dest b1 (omega arith))
          (λ c k. hr f dest c (omega (arith, k.fresh)))))

build_type-Kept :
    (type : Node) (next rest : ℕ → Build → Option Build) (dest : ℕ) (b : Build)
    → Exits next
    → Exits rest
    → dest < b.world.fresh
    → KeptResult dest b.world (build_type type next rest dest b)
unfolding build_type
build_type-Kept undefined next rest dest b hn hr old = Keeps-refl dest b.world
build_type-Kept null next rest dest b hn hr old =
    build_filter-Kept (create "null") next rest dest b hn hr old
build_type-Kept (scalar s) next rest dest b hn hr old =
    build_filter-Kept (create s) next rest dest b hn hr old
build_type-Kept (sequence ns) next rest dest b hn hr old = tt
build_type-Kept (mapping es) next rest dest b hn hr old = tt

through :
    (dest : ℕ) (w : World) (o : Option Build)
    → Kept dest w o
    → KeptResult dest w (elim o [ none ↦ none | some b ↦ some (true, b) ])
through dest w none h = tt
through dest w (some b) h = h

module _ (matches : String → String → Bool) where
  mutual
    unfolding construct_route

    pub construct_route-Kept :
        (cfg : Node) (dest : ℕ) (b : Build)
        → dest < b.world.fresh
        → KeptResult dest b.world (construct_route matches cfg dest b)
    construct_route-Kept undefined dest b old = Keeps-refl dest b.world
    construct_route-Kept null dest b old = Keeps-refl dest b.world
    construct_route-Kept (scalar s) dest b old = connect_to_dest-Keeps matches s dest b.world
    construct_route-Kept (sequence ns) dest b old =
        through dest b.world (construct_each matches ns dest b) (construct_each-Kept ns dest b old)
    construct_route-Kept (mapping es) dest b old =
        build_type-Kept (lookup "type" es)
          (build_exit to_next (is_defined (lookup "dst" es)) (construct_under matches "dst" es))
          (build_exit to_rest (is_defined (lookup "rest" es)) (construct_under matches "rest" es))
          dest b
          (λ f d c h.
            build_exit-Kept to_next (is_defined (lookup "dst" es))
              (construct_under matches "dst" es) f d c (construct_under-Kept "dst" es) h)
          (λ f d c h.
            build_exit-Kept to_rest (is_defined (lookup "rest" es))
              (construct_under matches "rest" es) f d c (construct_under-Kept "rest" es) h)
          old

    pub construct_each-Kept :
        (ns : Nodes) (dest : ℕ) (b : Build)
        → dest < b.world.fresh
        → Kept dest b.world (construct_each matches ns dest b)
    construct_each-Kept nil dest b old = Keeps-refl dest b.world
    construct_each-Kept (cons n ns) dest b old =
        and_then-Kept dest b.world (built (construct_route matches n dest b))
          (construct_each matches ns dest)
          (built-Kept dest b.world (construct_route matches n dest b)
            (construct_route-Kept n dest b old))
          (λ c k. construct_each-Kept ns dest c (omega (arith, k.fresh)))

    construct_under-Kept :
        (key : String) (es : Entries) (dest : ℕ) (b : Build)
        → dest < b.world.fresh
        → Kept dest b.world (construct_under matches key es dest b)
    construct_under-Kept key none_left dest b old = Keeps-refl dest b.world
    construct_under-Kept key (entry k n es) dest b old = elim (Bool-cases (k =s= key)) [
      | inl h ↦ rw h (
          built-Kept dest b.world (construct_route matches n dest b)
            (construct_route-Kept n dest b old))
      | inr h ↦ rw h (construct_under-Kept key es dest b old)
    ]

  -- Where a route is built into the destination `dest`, the names and the destinations that there
  -- were stay, but for `dest`, which keeps its endpoints and may have more.
  pub construct_route-Keeps :
      (cfg : Node) (dest : ℕ) (b c : Build) (done : Bool)
      → dest < b.world.fresh
      → construct_route matches cfg dest b ≡ some (done, c)
      → Keeps dest b.world c.world
  construct_route-Keeps cfg dest b c done old run =
      subst (KeptResult dest b.world) run (construct_route-Kept cfg dest b old)
