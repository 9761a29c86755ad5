-- ===== src/Router/Clients.antt =====
-- What is attached to a client that connects.
use Prim.Native.String.{String}
use mathlib.Core.Path.{subst}
use uav_router.Base.{
  ℕ, ◌<◌, ◌≡◌, refl, Option, none, some, Bool, true, false, List, [], ◌∷◌, nat_order, text_order,
  Map, find, find-put_same, arith,
}
use uav_router.Router.Destination.{Destination, clear}
use uav_router.Router.Store.{World, register_write_end}
use uav_router.Router.Routes.{Build, built, construct_route}
use uav_router.Router.Loading.{Route, if_equal, equal_name, construct_routes}
use uav_router.Router.Endpoints.{
  App, SourceEntry, ClientEntry, client_entry, cleared, clear_dest, register_client, connected,
  on_connect,
}
use uav_router.Router.Frame.{Known, Leads, Keeps-refl, add_object-Leads}
use uav_router.Router.Isolated.{Kept, built-Kept, construct_route-Kept, and_then-Kept}
use uav_router.Router.Delivers.{register_write_end-Known}

-- There is a destination, at an address that was given out.
abbrev pub Old : ℕ → World → Type 0
Old d w = Known d w × (d < w.fresh)

cleared-Known :
    (dest : ℕ) (o : Option Destination) (ds : Map ℕ Destination)
    → find dest ds ≡ o
    → (d : Destination) × (o ≡ some d)
    → (d : Destination) × (find dest (cleared dest o ds) ≡ some d)
unfolding clear
cleared-Known dest none ds e (d, h) = absurd (ground (arith, h))
cleared-Known dest (some c) ds e (d, h) = (clear c, find-put_same dest (clear c) ds)

clear_dest-Old : (dest : ℕ) (w : World) → Old dest w → Old dest (clear_dest dest w)
unfolding clear_dest
clear_dest-Old dest w (k, l) = (cleared-Known dest (find dest w.dests) w.dests refl k, l)

-- The destination of the entry of a client, new or old.
client_entry-Old :
    (o : Option ClientEntry) (cli : ℕ) (w : World)
    → ((e : ClientEntry) → o ≡ some e → Old e.destination w)
    → Old (client_entry o cli w).0.destination (client_entry o cli w).1
client_entry-Old none cli w h = (
  (record { endpoints = [] }, find-put_same w.fresh (record { endpoints = [] }) w.dests),
  omega arith,
)
client_entry-Old (some e) cli w h = h e refl

client_entry-client :
    (o : Option ClientEntry) (cli : ℕ) (w : World) → (client_entry o cli w).0.client ≡ cli
client_entry-client none cli w = refl
client_entry-client (some e) cli w = refl

-- The entry of a client that is connected.
abbrev Attached : String → SourceEntry → ℕ → Option App → Type 0
Attached cli_name source cli none = Unit {0}
Attached cli_name source cli (some a) =
    (f : ClientEntry) × (find cli_name a.client_entries ≡ some f)
    × (f.client ≡ cli)
    × Leads f.destination source.destination a.world

module _ (valid : String → Bool) (matches : String → String → Bool) where
  register_client-Old :
      (registers : Bool) (cli_name name : String) (cli : ℕ) (w : World) (d : ℕ)
      → Old d w
      → Old d (register_client valid matches registers cli_name name cli w)
  register_client-Old false cli_name name cli w d h = h
  register_client-Old true cli_name name cli w d (k, l) =
      let w1 = register_write_end matches cli_name cli w in
      let first = register_write_end-Known matches cli_name cli w d k in
      let second = register_write_end-Known matches name cli w1 d first.0 in
      (second.0, omega (arith, l, first.1, second.1))

  if_equal-Kept :
      (v : Option Bool) (dest : ℕ) (b : Build) (o : Option Build)
      → Kept dest b.world o
      → Kept dest b.world (if_equal v o b)
  if_equal-Kept none dest b o h = tt
  if_equal-Kept (some true) dest b o h = h
  if_equal-Kept (some false) dest b o h = Keeps-refl dest b.world

  pub construct_routes-Kept :
      (name : String) (rs : List Route) (dest : ℕ) (b : Build)
      → dest < b.world.fresh
      → Kept dest b.world (construct_routes valid matches name rs dest b)
  unfolding construct_routes
  construct_routes-Kept name [] dest b old = Keeps-refl dest b.world
  construct_routes-Kept name (r ∷ rs) dest b old =
      and_then-Kept dest b.world
        (if_equal (equal_name valid matches r.source name)
          (built (construct_route matches r.dst dest b)) b)
        (construct_routes valid matches name rs dest)
        (if_equal-Kept (equal_name valid matches r.source name) dest b
          (built (construct_route matches r.dst dest b))
          (built-Kept dest b.world (construct_route matches r.dst dest b)
            (construct_route-Kept matches r.dst dest b old)))
        (λ c k. construct_routes-Kept name rs dest c (omega (arith, k.fresh)))

  finished :
      (cli_name : String) (e : ClientEntry) (source : SourceEntry) (cli : ℕ) (a : App) (u : World)
      (o : Option Build)
      → e.client ≡ cli
      → Known e.destination u
      → Kept e.destination u o
      → Attached cli_name source cli (connected cli_name e source a o)
  finished cli_name e source cli a u none c k h = tt
  finished cli_name e source cli a u (some b) c k h =
      let f = record e { filters = b.filters } in
      (
        f,
        find-put_same cli_name f a.client_entries,
        c,
        add_object-Leads e.destination source.destination b.world (h.known k),
      )

  -- After a client has connected, its name has an entry with the client, and the destination of the
  -- entry leads to that of the endpoint that it came by: what the client sends goes where what the
  -- endpoint receives goes. This holds if an entry that the name had before has a destination.
  pub on_connect-Attached :
      (name : String) (source : SourceEntry) (cli : ℕ) (cli_name : String) (a a' : App)
      → ((e : ClientEntry) → find cli_name a.client_entries ≡ some e → Old e.destination a.world)
      → on_connect valid matches name source cli cli_name a ≡ some a'
      → (f : ClientEntry) × (find cli_name a'.client_entries ≡ some f)
        × (f.client ≡ cli)
        × Leads f.destination source.destination a'.world
  unfolding on_connect
  on_connect-Attached name source cli cli_name a a' h run =
      let w = register_client valid matches source.registers cli_name name cli a.world in
      let o = find cli_name a.client_entries in
      let e = client_entry o cli w in
      let old = client_entry-Old o cli w (λ f g.
        register_client-Old source.registers cli_name name cli a.world f.destination (h f g)) in
      let b : Build = record { world = clear_dest e.0.destination e.1; filters = e.0.filters } in
      let there = clear_dest-Old e.0.destination e.1 old in
      subst (Attached cli_name source cli) run (
        finished cli_name e.0 source cli a b.world
          (construct_routes valid matches cli_name a.routes e.0.destination b)
          (client_entry-client o cli w) there.0
          (construct_routes-Kept cli_name a.routes e.0.destination b there.1))
