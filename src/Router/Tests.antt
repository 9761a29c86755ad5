-- ===== src/Router/Tests.antt =====
-- A route from the endpoint "gps" through a filter of UBX to "out" and past it to "log", and one to "out".
use Prim.Native.String.{String}
use Prim.Native.Char.{code}
use text.Mathlib.Text.{◌==◌ as ◌=s=◌}
use uav_router.Base.{
  ℕ, ◌≡◌, ◌≢◌, refl, none, some, Bool, true, not, ◌==◌, List, [], ◌∷◌, arith, inl, find, nat_order,
  text_order,
}
use uav_router.Yaml.{Node, scalar, sequence, mapping, nil, cons, none_left, entry}
use uav_router.Filters.Factory.{ubx, create}
use uav_router.Router.Store.{World, register_write_end}
use uav_router.Router.Routes.{Build, construct_route}
use uav_router.Router.Loading.{Route, load_routes}
use uav_router.Router.Endpoints.{App, SourceEntry, ClientEntry, on_connect}
use uav_router.Router.Frame.{Leads, Keeps}
use uav_router.Router.Isolated.{construct_route-Keeps}
use uav_router.Router.Delivers.{named, first, later, among, construct-register}
use uav_router.Router.Registered.{AllRegistered, load_routes-Registered}
use uav_router.Router.Clients.{on_connect-Attached}

-- A pattern stands for itself alone.
abbrev same_text : String → String → Bool
same_text pattern name = pattern =s= name

abbrev empty_world : World
empty_world = record {
  dests = [];
  filters = [];
  fresh = 1;
  store = record { endpoints = []; regex_endpoints = [] };
}

abbrev dst : Node
dst = sequence (
    cons
      (mapping (
        entry "type" (scalar "ubx")
          (entry "dst" (scalar "out") (entry "rest" (scalar "log") none_left))))
      (cons (scalar "out") nil))

abbrev config : Node
config =
    mapping
      (entry "main" (mapping (entry "src" (scalar "gps") (entry "dst" dst none_left))) none_left)

abbrev routes : List Route
routes = record { source = "gps"; name = "main"; dst = dst } ∷ []

-- "out" is registered twice: the second destination takes the name.
abbrev loaded : World
loaded = record {
  dests =
      (1, record { endpoints = [] })
      ∷ (2, record { endpoints = [] })
      ∷ (3, record { endpoints = [] })
      ∷ [];
  filters = [];
  fresh = 4;
  store = record { endpoints = ("log", some 2) ∷ ("out", some 3) ∷ []; regex_endpoints = [] };
}

-- Patterns are taken if they do not begin with a quantifier.
abbrev is_regex : String → Bool
is_regex String.[] = true
is_regex (String.◌∷◌ c s) = not (code c == 42)

load_routes-config : load_routes is_regex config empty_world ≡ (true, some routes, loaded)
unfolding load_routes
load_routes-config = refl

-- A pattern that is not taken: the name has its entry, and an exception ends the loading.
bad_config :
    (load_routes is_regex
      (mapping (entry "main" (mapping (entry "dst" (scalar "/*") none_left)) none_left))
      empty_world).1
    ≡ none
unfolding load_routes
bad_config = refl

load_routes-Registered_example : AllRegistered routes loaded
load_routes-Registered_example =
    load_routes-Registered is_regex config empty_world loaded routes true load_routes-config

-- the world with a destination at 4 for the endpoint
abbrev before : Build
before = record {
  world = record loaded {
    dests =
        (1, record { endpoints = [] })
        ∷ (2, record { endpoints = [] })
        ∷ (3, record { endpoints = [] })
        ∷ (4, record { endpoints = [] })
        ∷ [];
    fresh = 5;
  };
  filters = [];
}

abbrev after : Build
after = record {
  world = record loaded {
    dests =
        (1, record { endpoints = [] })
        ∷ (2, record { endpoints = [] })
        ∷ (3, record { endpoints = [] })
        ∷ (4, record { endpoints = (3, 3) ∷ (5, 5) ∷ [] })
        ∷ (6, record { endpoints = (3, 3) ∷ [] })
        ∷ (7, record { endpoints = (2, 2) ∷ [] })
        ∷ [];
    filters = (5, record { kind = ubx; next = some 6; rest = some 7 }) ∷ [];
    fresh = 8;
  };
  filters = 5 ∷ [];
}

construct_route-dst : construct_route same_text dst 4 before ≡ some (true, after)
unfolding construct_route create
construct_route-dst = refl

construct_route-Keeps_example : Keeps 4 before.world after.world
construct_route-Keeps_example =
    construct_route-Keeps same_text dst 4 before after true (omega arith) construct_route-dst

three≢four : ◌≢◌ {A = ℕ} 3 4
three≢four e = omega arith

construct-register_example :
    Leads 4 3 (register_write_end same_text "out" 9 after.world)
    × Leads 3 9 (register_write_end same_text "out" 9 after.world)
construct-register_example =
    construct-register same_text dst 4 before after true "out" "out" 3 9
      (among (later (first named))) (omega arith) (record { endpoints = [] }, refl) (omega arith)
      (record { endpoints = [] }, refl) three≢four refl (inl refl) construct_route-dst

abbrev gps : SourceEntry
gps = record { connection = 9; destination = 4; filters = 5 ∷ []; registers = true }

abbrev app : App
app = record {
  world = after.world;
  routes = routes;
  source_entries = ("gps", gps) ∷ [];
  client_entries = [];
  file_entries = [];
}

abbrev connected_app : App
connected_app = record app {
  world = record after.world {
    dests =
        (1, record { endpoints = [] })
        ∷ (2, record { endpoints = [] })
        ∷ (3, record { endpoints = (10, 10) ∷ [] })
        ∷ (4, record { endpoints = (3, 3) ∷ (5, 5) ∷ [] })
        ∷ (6, record { endpoints = (3, 3) ∷ [] })
        ∷ (7, record { endpoints = (2, 2) ∷ [] })
        ∷ (8, record { endpoints = (4, 4) ∷ [] })
        ∷ [];
    fresh = 9;
    store = record {
      endpoints = ("gps", none) ∷ ("log", some 2) ∷ ("out", some 3) ∷ [];
      regex_endpoints = [];
    };
  };
  client_entries = ("out", record { client = 10; destination = 8; filters = [] }) ∷ [];
}

on_connect-app : on_connect is_regex same_text "gps" gps 10 "out" app ≡ some connected_app
unfolding on_connect register_write_end
on_connect-app = refl

on_connect-Attached_example :
    (f : ClientEntry) × (find "out" connected_app.client_entries ≡ some f)
    × (f.client ≡ 10)
    × Leads f.destination 4 connected_app.world
on_connect-Attached_example =
    on_connect-Attached is_regex same_text "gps" gps 10 "out" app connected_app
      (λ e h. absurd (ground (arith, h))) on_connect-app
