-- ===== src/Router/Loading.antt =====
-- How app/uav-router.cpp reads its routes: scan_dst, load_routes, equal_name and construct_routes. An
-- exception is `none`, as in Routes. `valid` is whether the constructor of std::regex takes a pattern.
use Prim.Native.String.{String}
use text.Mathlib.Text.{◌==◌ as ◌=s=◌}
use uav_router.Base.{
  ℕ, Option, none, some, Bool, true, false, not, ◌&&◌, if◌then◌else◌, List, [], ◌∷◌, ◌++◌,
}
use uav_router.Yaml.{
  Node, undefined, null, scalar, sequence, mapping, Nodes, nil, cons, Entries, none_left, entry,
  lookup, is_defined,
}
use uav_router.Router.Names.{is_pattern, pattern_of}
use uav_router.Router.Store.{World, register_name}
use uav_router.Router.Routes.{Build, built, and_then, construct_route}

-- `a` and, if it succeeds, `b`
abbrev pub and_also : Option Bool × World → (World → Option Bool × World) → Option Bool × World
and_also (none, w) f = (none, w)
and_also (some true, w) f = f w
and_also (some false, w) f = (some false, w)

-- The result of a call that gives `true` where it returns.
abbrev pub returned : Bool × World → Option Bool × World
returned (true, w) = (some true, w)
returned (false, w) = (none, w)

module _ (valid : String → Bool) where
  unfoldable mutual
    unfolding register_name

    pub scan_dst : Node → World → Option Bool × World
    scan_dst undefined w = (some false, w)
    scan_dst null w = (some false, w)
    scan_dst (scalar s) w = returned (register_name valid s w)
    scan_dst (sequence ns) w = scan_each ns w
    scan_dst (mapping es) w =
        let dst = scan_under "dst" es in
        let rest = scan_under "rest" es in
        if not (is_defined (lookup "dst" es)) && not (is_defined (lookup "rest" es))
        then (some false, w)
        else and_also (dst w) rest

    -- the loop over a sequence
    pub scan_each : Nodes → World → Option Bool × World
    scan_each nil w = (some true, w)
    scan_each (cons n ns) w = and_also (scan_dst n w) (scan_each ns)

    -- scan_dst on the value of a key, if there is one
    pub scan_under : String → Entries → World → Option Bool × World
    scan_under key none_left w = (some true, w)
    scan_under key (entry k n es) w =
        let rest = scan_under key es in if k =s= key then scan_dst n w else rest w

-- the tuples in `routes`
pub record Route : Type 0 where
  pub source : String
  pub name : String
  pub dst : Node

-- `name.as<std::string>()`
abbrev pub text_of : Node → Option String
text_of undefined = none
text_of null = some "null"
text_of (scalar s) = some s
text_of (sequence ns) = none
text_of (mapping es) = none

abbrev pub one_more : Option String → String → Node → Option (List Route) → Option (List Route)
one_more none route dst rest = none
one_more (some s) route dst none = none
one_more (some s) route dst (some rs) = some (record { source = s; name = route; dst = dst } ∷ rs)

-- a route for each source of a sequence
unfoldable pub routes_of : String → Node → Nodes → Option (List Route)
routes_of route dst nil = some []
routes_of route dst (cons n ns) = one_more (text_of n) route dst (routes_of route dst ns)

-- the sources of a route
unfoldable pub routes_from : String → Node → Node → Option (List Route)
unfolding routes_of
routes_from route dst undefined = some []
routes_from route dst null = some []
routes_from route dst (scalar s) = some (record { source = s; name = route; dst = dst } ∷ [])
routes_from route dst (sequence ns) = routes_of route dst ns
routes_from route dst (mapping es) = some []

-- the routes of a route whose destination was scanned
abbrev pub if_scanned : Option Bool → Option (List Route) → Option (List Route)
if_scanned none rs = none
if_scanned (some true) rs = rs
if_scanned (some false) rs = some []

abbrev pub more_routes : List Route → Option (List Route) × World → Option (List Route) × World
more_routes qs (none, w) = (none, w)
more_routes qs (some rs, w) = (some (qs ++ rs), w)

-- an exception leaves the loop
abbrev pub then_routes :
    Option (List Route) × World
    → (World → Option (List Route) × World)
    → Option (List Route) × World
then_routes (none, w) f = (none, w)
then_routes (some qs, w) f = more_routes qs (f w)

module _ (valid : String → Bool) where
  -- one route of load_routes: `none` if an exception leaves the loop
  unfoldable pub load_route : String → Node → World → Option (List Route) × World
  unfolding scan_dst routes_from
  load_route route cfg w = elim cfg [
    | undefined ↦ (some [], w)
    | null ↦ (some [], w)
    | scalar s ↦ (some [], w)
    | sequence ns ↦ (some [], w)
    | mapping es ↦
        (let dst = lookup "dst" es in
          let r = scan_dst valid dst w in
          (if_scanned r.0 (routes_from route dst (lookup "src" es)), r.1))
  ]

  -- the loop of load_routes
  unfoldable pub load_entries : Entries → World → Option (List Route) × World
  unfolding load_route
  load_entries none_left w = (some [], w)
  load_entries (entry route cfg es) w = then_routes (load_route route cfg w) (load_entries es)

  -- load_routes: whether there is a map of routes, the routes, and the destinations that they name
  unfoldable pub load_routes : Node → World → Bool × Option (List Route) × World
  unfolding load_entries
  load_routes undefined w = (false, some [], w)
  load_routes null w = (false, some [], w)
  load_routes (scalar s) w = (false, some [], w)
  load_routes (sequence ns) w = (false, some [], w)
  load_routes (mapping es) w = let r = load_entries es w in (true, r.0, r.1)

-- Where the names of an endpoint and of a source were compared.
abbrev pub if_equal : Option Bool → Option Build → Build → Option Build
if_equal none o b = none
if_equal (some true) o b = o
if_equal (some false) o b = some b

module _ (valid : String → Bool) (matches : String → String → Bool) where
  unfoldable pub equal_name : String → String → Option Bool
  equal_name pattern name =
      if is_pattern pattern
      then (if valid (pattern_of pattern) then some (matches (pattern_of pattern) name) else none)
      else some (pattern =s= name)

  -- what the routes from an endpoint lead to, in `dest`
  unfoldable pub construct_routes : String → List Route → ℕ → Build → Option Build
  unfolding equal_name construct_route
  construct_routes name [] dest b = some b
  construct_routes name (r ∷ rs) dest b =
      and_then
        (if_equal (equal_name r.source name) (built (construct_route matches r.dst dest b)) b)
        (construct_routes name rs dest)
