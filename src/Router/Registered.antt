-- ===== src/Router/Registered.antt =====
-- Which destinations there are once the routes are read.
use Prim.Native.String.{String}
use mathlib.Core.Path.{subst}
use uav_router.Base.{
  ◌≡◌, refl, Option, none, some, Bool, true, false, List, [], ◌∷◌, ◌++◌, nat_order, text_order,
}
use uav_router.Yaml.{
  Node, undefined, null, scalar, sequence, mapping, Nodes, nil, cons, Entries, none_left, entry,
  lookup,
}
use uav_router.Router.Store.{World}
use uav_router.Router.Scanned.{Registered, Mentions, scan_dst-Registered, scan_dst-Mentions}
use uav_router.Router.Loading.{
  scan_dst, Route, routes_of, routes_from, load_route, load_entries, load_routes, if_scanned,
  more_routes, then_routes, one_more, text_of,
}

-- Every name that the destination of a route mentions is registered.
abbrev pub AllRegistered : List Route → World → Type 0
AllRegistered [] w = Unit {0}
AllRegistered (r ∷ rs) w =
    ((name : String) → Mentions name r.dst → Registered name w) × AllRegistered rs w

abbrev pub RoutesRegistered : Option (List Route) → World → Type 0
RoutesRegistered none w = Unit {0}
RoutesRegistered (some rs) w = AllRegistered rs w

AllRegistered-later :
    (rs : List Route) (u w : World)
    → ((name : String) → Registered name u → Registered name w)
    → AllRegistered rs u
    → AllRegistered rs w
AllRegistered-later [] u w h k = tt
AllRegistered-later (r ∷ rs) u w h k =
    (λ name m. h name (k.0 name m), AllRegistered-later rs u w h k.1)

AllRegistered-append :
    (qs rs : List Route) (w : World)
    → AllRegistered qs w
    → AllRegistered rs w
    → AllRegistered (qs ++ rs) w
AllRegistered-append [] rs w h k = k
AllRegistered-append (q ∷ qs) rs w h k = (h.0, AllRegistered-append qs rs w h.1 k)

module _ (dst : Node) (w : World)
    (good : (name : String) → Mentions name dst → Registered name w) where
  one_more-Registered :
      (o : Option String) (route : String) (rs : Option (List Route))
      → RoutesRegistered rs w
      → RoutesRegistered (one_more o route dst rs) w
  one_more-Registered none route rs h = tt
  one_more-Registered (some s) route none h = tt
  one_more-Registered (some s) route (some rs) h = (good, h)

  routes_of-Registered : (route : String) (ns : Nodes) → RoutesRegistered (routes_of route dst ns) w
  unfolding routes_of
  routes_of-Registered route nil = tt
  routes_of-Registered route (cons n ns) =
      one_more-Registered (text_of n) route (routes_of route dst ns) (routes_of-Registered route ns)

  routes_from-Registered :
      (route : String) (src : Node) → RoutesRegistered (routes_from route dst src) w
  unfolding routes_from
  routes_from-Registered route undefined = tt
  routes_from-Registered route null = tt
  routes_from-Registered route (scalar s) = (good, tt)
  routes_from-Registered route (sequence ns) = routes_of-Registered route ns
  routes_from-Registered route (mapping es) = tt

accepted :
    (route : String) (dst src : Node) (w : World) (v : Option Bool)
    → (v ≡ some true → (name : String) → Mentions name dst → Registered name w)
    → RoutesRegistered (if_scanned v (routes_from route dst src)) w
accepted route dst src w none h = tt
accepted route dst src w (some true) h = routes_from-Registered dst w (h refl) route src
accepted route dst src w (some false) h = tt

more_routes-Registered :
    (qs : List Route) (r : Option (List Route) × World)
    → AllRegistered qs r.1
    → RoutesRegistered r.0 r.1
    → RoutesRegistered (more_routes qs r).0 (more_routes qs r).1
more_routes-Registered qs (none, w) h k = tt
more_routes-Registered qs (some rs, w) h k = AllRegistered-append qs rs w h k

more_routes-later :
    (name : String) (qs : List Route) (r : Option (List Route) × World)
    → Registered name r.1
    → Registered name (more_routes qs r).1
more_routes-later name qs (none, w) h = h
more_routes-later name qs (some rs, w) h = h

-- Routes that are registered stay so while more are loaded.
then_routes-Registered :
    (r : Option (List Route) × World) (f : World → Option (List Route) × World)
    → RoutesRegistered r.0 r.1
    → RoutesRegistered (f r.1).0 (f r.1).1
    → ((name : String) → Registered name r.1 → Registered name (f r.1).1)
    → RoutesRegistered (then_routes r f).0 (then_routes r f).1
then_routes-Registered (none, w) f h k l = tt
then_routes-Registered (some qs, w) f h k l =
    more_routes-Registered qs (f w) (AllRegistered-later qs w (f w).1 l h) k

then_routes-later :
    (name : String) (r : Option (List Route) × World) (f : World → Option (List Route) × World)
    → Registered name r.1
    → ((u : World) → Registered name u → Registered name (f u).1)
    → Registered name (then_routes r f).1
then_routes-later name (none, w) f h k = h
then_routes-later name (some qs, w) f h k = more_routes-later name qs (f w) (k w h)

module _ (valid : String → Bool) where
  load_route-Registered :
      (route : String) (cfg : Node) (w : World)
      → RoutesRegistered (load_route valid route cfg w).0 (load_route valid route cfg w).1
        × ((name : String) → Registered name w → Registered name (load_route valid route cfg w).1)
  unfolding load_route
  load_route-Registered route undefined w = (tt, λ name r. r)
  load_route-Registered route null w = (tt, λ name r. r)
  load_route-Registered route (scalar s) w = (tt, λ name r. r)
  load_route-Registered route (sequence ns) w = (tt, λ name r. r)
  load_route-Registered route (mapping es) w =
      let dst = lookup "dst" es in
      (
        accepted route dst (lookup "src" es) (scan_dst valid dst w).1 (scan_dst valid dst w).0
            (λ h name m. scan_dst-Mentions valid dst w name m h),
        λ name r. scan_dst-Registered valid dst w name r,
      )

  load_entries-Registered :
      (es : Entries) (w : World)
      → RoutesRegistered (load_entries valid es w).0 (load_entries valid es w).1
        × ((name : String) → Registered name w → Registered name (load_entries valid es w).1)
  unfolding load_entries
  load_entries-Registered none_left w = (tt, λ name r. r)
  load_entries-Registered (entry route cfg es) w =
      let r = load_route valid route cfg w in
      let first = load_route-Registered route cfg w in
      (
        then_routes-Registered r (load_entries valid es) first.0 (load_entries-Registered es r.1).0
            (load_entries-Registered es r.1).1,
        λ name q.
            then_routes-later name r (load_entries valid es) (first.1 name q)
              (λ u k. (load_entries-Registered es u).1 name k),
      )

  -- Where no exception ends the loading, each name that the destination of a loaded route mentions,
  -- also behind filters, has a destination in the store afterwards, which exists.
  pub load_routes-Registered :
      (cfg : Node) (w w' : World) (rs : List Route) (found : Bool)
      → load_routes valid cfg w ≡ (found, some rs, w')
      → AllRegistered rs w'
  unfolding load_routes
  load_routes-Registered cfg w w' rs found run =
      subst (λ r. RoutesRegistered r.1 r.2) run (all cfg w)
    where
      all :
          (cfg : Node) (w : World)
          → RoutesRegistered (load_routes valid cfg w).1 (load_routes valid cfg w).2
      all undefined w = tt
      all null w = tt
      all (scalar s) w = tt
      all (sequence ns) w = tt
      all (mapping es) w = (load_entries-Registered es w).0
