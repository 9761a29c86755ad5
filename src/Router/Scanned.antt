-- ===== src/Router/Scanned.antt =====
-- Which destinations there are once the destinations of a route are scanned.
use Prim.Native.String.{String}
use mathlib.Core.Path.{subst}
use text.Mathlib.Text.{◌==◌ as ◌=s=◌}
use text.Mathlib.TextEquality.{eq_iff}
use uav_router.Base.{
  ℕ, ◌<◌, ◌≡◌, refl, sym, ap, ◌∙◌, ◌⊎◌, Option, none, some, Bool, true, false, not, ◌&&◌,
  if◌then◌else◌, [], nat_order, text_order, find, find-put_same, find-put_other, Bool-cases, inl,
  inr, arith,
}
use uav_router.Yaml.{
  Node, undefined, null, scalar, sequence, mapping, Nodes, nil, cons, Entries, none_left, entry,
  lookup, is_defined,
}
use mathlib.Core.Option.{none-ne-some, some-injective}
use mathlib.Core.Bool.{false≢true}
use uav_router.Router.Store.{World, register_name}
use uav_router.Router.Frame.{Known, new_dest-same}
use uav_router.Router.Loading.{and_also, returned, scan_dst, scan_each, scan_under}

-- The name has a destination, which exists.
abbrev pub Registered : String → World → Type 0
Registered name w =
    (d : ℕ) × (find name w.store.endpoints ≡ some (some d)) × (d < w.fresh) × Known d w

-- The node mentions the name, also behind filters.
mutual
  pub data Mentions (name : String) : Node → Type 0 where
    named : Mentions name (scalar name)
    among : {ns : Nodes} → MentionsIn name ns → Mentions name (sequence ns)
    behind_next : {es : Entries} → MentionsUnder name "dst" es → Mentions name (mapping es)
    behind_rest : {es : Entries} → MentionsUnder name "rest" es → Mentions name (mapping es)

  pub data MentionsIn (name : String) : Nodes → Type 0 where
    first : {n : Node} {ns : Nodes} → Mentions name n → MentionsIn name (cons n ns)
    later : {n : Node} {ns : Nodes} → MentionsIn name ns → MentionsIn name (cons n ns)

  pub data MentionsUnder (name : String) : String → Entries → Type 0 where
    here :
        {key k : String} {n : Node} {es : Entries}
        → (k =s= key) ≡ true
        → Mentions name n
        → MentionsUnder name key (entry k n es)
    there :
        {key k : String} {n : Node} {es : Entries}
        → (k =s= key) ≡ false
        → MentionsUnder name key es
        → MentionsUnder name key (entry k n es)

-- Steps that follow each other, and a step under a condition.
and_also-Registered :
    (other : String) (r : Option Bool × World) (f : World → Option Bool × World)
    → Registered other r.1
    → ((u : World) → Registered other u → Registered other (f u).1)
    → Registered other (and_also r f).1
and_also-Registered other (none, w) f h k = h
and_also-Registered other (some true, w) f h k = k w h
and_also-Registered other (some false, w) f h k = h

returned-Registered :
    (other : String) (r : Bool × World) → Registered other r.1 → Registered other (returned r).1
returned-Registered other (true, w) h = h
returned-Registered other (false, w) h = h

and_also-true :
    (r : Option Bool × World) (f : World → Option Bool × World)
    → (and_also r f).0 ≡ some true
    → (r.0 ≡ some true) × ((f r.1).0 ≡ some true) × (and_also r f ≡ f r.1)
and_also-true (none, w) f h = absurd (none-ne-some true h)
and_also-true (some true, w) f h = (refl, h, refl)
and_also-true (some false, w) f h = absurd (false≢true (some-injective false true h))

if-Registered :
    (other : String) (v : Bool) (x y : Option Bool × World)
    → Registered other x.1
    → Registered other y.1
    → Registered other (if v then x else y).1
if-Registered other true x y h k = h
if-Registered other false x y h k = k

if_true :
    (v : Bool) (w : World) (y : Option Bool × World)
    → (if v then (some false, w) else y).0 ≡ some true
    → (if v then (some false, w) else y) ≡ y
if_true true w y h = absurd (false≢true (some-injective false true h))
if_true false w y h = refl

module _ (valid : String → Bool) where
  fresh_one : (name : String) (w : World) → Registered name (register_name valid name w).1
  unfolding register_name
  fresh_one name w = (
    w.fresh,
    find-put_same name (some w.fresh) w.store.endpoints,
    omega arith,
    (record { endpoints = [] }, find-put_same w.fresh (record { endpoints = [] }) w.dests),
  )

  -- A registration takes no name away.
  register_name-Registered :
      (name other : String) (w : World)
      → Registered other w ⊎ (other ≡ name)
      → Registered other (register_name valid name w).1
  unfolding register_name
  register_name-Registered name other w (inl r) = elim (Bool-cases (other =s= name)) [
    | inl e ↦
        subst (λ t. Registered t (register_name valid name w).1) (sym ((eq_iff other name).0 e))
          (fresh_one name w)
    | inr ne ↦
        let (d, e, old, known) = r in
        (
          d,
          find-put_other other name (some w.fresh) w.store.endpoints
                (λ same. ground (arith, ne, (eq_iff other name).1 same))
              ∙ e,
          omega (arith, old),
          (known.0, new_dest-same w d old ∙ known.1),
        )
  ]
  register_name-Registered name other w (inr e) =
      subst (λ t. Registered t (register_name valid name w).1) (sym e) (fresh_one name w)

  -- What is registered stays so.
  mutual
    unfolding scan_dst

    pub scan_dst-Registered :
        (cfg : Node) (w : World) (other : String)
        → Registered other w
        → Registered other (scan_dst valid cfg w).1
    scan_dst-Registered undefined w other r = r
    scan_dst-Registered null w other r = r
    scan_dst-Registered (scalar s) w other r =
        returned-Registered other (register_name valid s w)
          (register_name-Registered s other w (inl r))
    scan_dst-Registered (sequence ns) w other r = scan_each-Registered ns w other r
    scan_dst-Registered (mapping es) w other r =
        if-Registered other
          (not (is_defined (lookup "dst" es)) && not (is_defined (lookup "rest" es)))
          (some false, w) (and_also (scan_under valid "dst" es w) (scan_under valid "rest" es)) r
          (and_also-Registered other (scan_under valid "dst" es w) (scan_under valid "rest" es)
            (scan_under-Registered "dst" es w other r)
            (λ u q. scan_under-Registered "rest" es u other q))

    scan_each-Registered :
        (ns : Nodes) (w : World) (other : String)
        → Registered other w
        → Registered other (scan_each valid ns w).1
    scan_each-Registered nil w other r = r
    scan_each-Registered (cons n ns) w other r =
        and_also-Registered other (scan_dst valid n w) (scan_each valid ns)
          (scan_dst-Registered n w other r) (λ u q. scan_each-Registered ns u other q)

    scan_under-Registered :
        (key : String) (es : Entries) (w : World) (other : String)
        → Registered other w
        → Registered other (scan_under valid key es w).1
    scan_under-Registered key none_left w other r = r
    scan_under-Registered key (entry k n es) w other r =
        if-Registered other (k =s= key) (scan_dst valid n w) (scan_under valid key es w)
          (scan_dst-Registered n w other r) (scan_under-Registered key es w other r)

  -- A node that is scanned to its end has each name that it mentions registered.
  mutual
    unfolding scan_dst

    pub scan_dst-Mentions :
        (cfg : Node) (w : World) (name : String)
        → Mentions name cfg
        → (scan_dst valid cfg w).0 ≡ some true
        → Registered name (scan_dst valid cfg w).1
    scan_dst-Mentions undefined w name m h = elim m [ ]
    scan_dst-Mentions null w name m h = elim m [ ]
    scan_dst-Mentions (scalar s) w name named h =
        returned-Registered name (register_name valid name w) (fresh_one name w)
    scan_dst-Mentions (sequence ns) w name (among m) h = scan_each-Mentions ns w name m h
    scan_dst-Mentions (mapping es) w name (behind_next m) h =
        let v = not (is_defined (lookup "dst" es)) && not (is_defined (lookup "rest" es)) in
        let y = and_also (scan_under valid "dst" es w) (scan_under valid "rest" es) in
        let taken = if_true v w y h in
        let parts =
          and_also-true (scan_under valid "dst" es w) (scan_under valid "rest" es)
            (sym (ap (λ r. r.0) taken) ∙ h) in
        subst (λ r. Registered name r.1) (sym (taken ∙ parts.2))
          (scan_under-Registered "rest" es (scan_under valid "dst" es w).1 name
            (scan_under-Mentions "dst" es w name m parts.0))
    scan_dst-Mentions (mapping es) w name (behind_rest m) h =
        let v = not (is_defined (lookup "dst" es)) && not (is_defined (lookup "rest" es)) in
        let y = and_also (scan_under valid "dst" es w) (scan_under valid "rest" es) in
        let taken = if_true v w y h in
        let parts =
          and_also-true (scan_under valid "dst" es w) (scan_under valid "rest" es)
            (sym (ap (λ r. r.0) taken) ∙ h) in
        subst (λ r. Registered name r.1) (sym (taken ∙ parts.2))
          (scan_under-Mentions "rest" es (scan_under valid "dst" es w).1 name m parts.1)

    scan_each-Mentions :
        (ns : Nodes) (w : World) (name : String)
        → MentionsIn name ns
        → (scan_each valid ns w).0 ≡ some true
        → Registered name (scan_each valid ns w).1
    scan_each-Mentions nil w name m h = elim m [ ]
    scan_each-Mentions (cons n ns) w name (first m) h =
        let parts = and_also-true (scan_dst valid n w) (scan_each valid ns) h in
        subst (λ r. Registered name r.1) (sym parts.2)
          (scan_each-Registered ns (scan_dst valid n w).1 name
            (scan_dst-Mentions n w name m parts.0))
    scan_each-Mentions (cons n ns) w name (later m) h =
        let parts = and_also-true (scan_dst valid n w) (scan_each valid ns) h in
        subst (λ r. Registered name r.1) (sym parts.2)
          (scan_each-Mentions ns (scan_dst valid n w).1 name m parts.1)

    scan_under-Mentions :
        (key : String) (es : Entries) (w : World) (name : String)
        → MentionsUnder name key es
        → (scan_under valid key es w).0 ≡ some true
        → Registered name (scan_under valid key es w).1
    scan_under-Mentions key none_left w name m h = elim m [ ]
    scan_under-Mentions key (entry k n es) w name (here e m) h =
        let found = ap (λ v. if v then scan_dst valid n w else scan_under valid key es w) e in
        subst (λ r. Registered name r.1) (sym found)
          (scan_dst-Mentions n w name m (sym (ap (λ r. r.0) found) ∙ h))
    scan_under-Mentions key (entry k n es) w name (there e m) h =
        let found = ap (λ v. if v then scan_dst valid n w else scan_under valid key es w) e in
        subst (λ r. Registered name r.1) (sym found)
          (scan_under-Mentions key es w name m (sym (ap (λ r. r.0) found) ∙ h))
