-- ===== src/Router/Endpoints.antt =====
-- The endpoints of app/uav-router.cpp: setup_endpoint with its callbacks, load_endpoints and cleanup.
-- Objects have addresses; the one that a client or an endpoint has is given where it comes from
-- outside. Where an exception leaves the set-up of a route, the result is `none` and the run is not
-- followed further.
use Prim.Native.String.{String}
use uav_router.Base.{
  ℕ, suc, Option, none, some, Bool, true, false, ◌&&◌, if◌then◌else◌, List, [], ◌∷◌, ◌++◌,
  nat_order, text_order, Map, find, put, erase,
}
use uav_router.Yaml.{
  Node, undefined, null, scalar, sequence, mapping, Entries, none_left, entry, lookup, child,
}
use uav_router.Router.Destination.{Destination, clear}
use uav_router.Router.Store.{World, new_dest, add_object, register_write_end, clear_store}
use uav_router.Router.Routes.{Build}
use uav_router.Router.Loading.{Route, construct_routes}

-- `registers` is what the callback of the endpoint was made with.
pub record SourceEntry : Type 0 where
  pub connection : ℕ
  pub destination : ℕ
  pub filters : List ℕ
  pub registers : Bool

pub record ClientEntry : Type 0 where
  pub client : ℕ
  pub destination : ℕ
  pub filters : List ℕ

pub record App : Type 0 where
  pub world : World
  pub routes : List Route
  pub source_entries : Map String SourceEntry
  pub client_entries : Map String ClientEntry
  pub file_entries : List ℕ

-- `source_entries[name]`: the entry, and the destinations with its own
abbrev pub source_entry : Option SourceEntry → ℕ → World → Bool → SourceEntry × World
source_entry none connection w registers = (
  record { connection = connection; destination = w.fresh; filters = []; registers = registers },
  new_dest w,
)
source_entry (some e) connection w registers =
    (record e { connection = connection; registers = registers }, w)

-- `client_entries[cli_name]`
abbrev pub client_entry : Option ClientEntry → ℕ → World → ClientEntry × World
client_entry none client w =
    (record { client = client; destination = w.fresh; filters = [] }, new_dest w)
client_entry (some e) client w = (record e { client = client }, w)

-- `destination->clear()`
abbrev pub cleared : ℕ → Option Destination → Map ℕ Destination → Map ℕ Destination
cleared dest none ds = ds
cleared dest (some d) ds = put dest (clear d) ds

unfoldable pub clear_dest : ℕ → World → World
unfolding clear
clear_dest dest w = record w { dests = cleared dest (find dest w.dests) w.dests }

-- `client.destination->add(entry.destination)`, with the routes built
abbrev pub connected : String → ClientEntry → SourceEntry → App → Option Build → Option App
connected cli_name e source a none = none
connected cli_name e source a (some b) = some (record a {
  world = add_object e.destination source.destination b.world;
  client_entries = put cli_name (record e { filters = b.filters }) a.client_entries;
})

-- the kinds of endpoints
pub data EndpointKind : Type 0 where
  uart tcp_client tcp_server udp_client udp_server file : EndpointKind

module _ (valid : String → Bool) (matches : String → String → Bool) where
  -- setup_endpoint, up to its callbacks
  unfoldable pub setup_endpoint : String → ℕ → Bool → App → Option App
  unfolding construct_routes
  setup_endpoint name endpoint registers a =
      let e = source_entry (find name a.source_entries) endpoint a.world registers in
      elim (construct_routes valid matches name a.routes e.0.destination
        (record { world = e.1; filters = e.0.filters })) [
          | none ↦ none
          | some b ↦ some (record a {
            world = b.world;
            source_entries = put name (record e.0 { filters = b.filters }) a.source_entries;
          })
        ]

  -- the two registrations of a client
  abbrev pub register_client : Bool → String → String → ℕ → World → World
  register_client false cli_name name cli w = w
  register_client true cli_name name cli w =
      register_write_end matches name cli (register_write_end matches cli_name cli w)

  -- on_connect, of the endpoint `name` with the entry `source`
  unfoldable pub on_connect : String → SourceEntry → ℕ → String → App → Option App
  unfolding construct_routes clear_dest add_object
  on_connect name source cli cli_name a =
      let w = register_client source.registers cli_name name cli a.world in
      let e = client_entry (find cli_name a.client_entries) cli w in
      connected cli_name e.0 source a (
        construct_routes valid matches cli_name a.routes e.0.destination
          (record { world = clear_dest e.0.destination e.1; filters = e.0.filters }))

  -- on_close of a client
  unfoldable pub on_close : String → App → App
  on_close cli_name a = record a { client_entries = erase cli_name a.client_entries }

  -- `init kind name cfg` is whether `init_yaml` of the endpoint succeeds; an error and an exception
  -- are both logged, and the endpoint is dropped.
  module _ (init : EndpointKind → String → Node → Bool) where
    -- one entry of a chapter: the object, `init_yaml`, and what a success does
    abbrev pub start : EndpointKind → String → App → Option App
    start uart name a =
        setup_endpoint name a.world.fresh true
          (record a { world = record a.world { fresh = suc a.world.fresh } })
    start tcp_client name a =
        setup_endpoint name a.world.fresh true
          (record a { world = record a.world { fresh = suc a.world.fresh } })
    start tcp_server name a =
        setup_endpoint name a.world.fresh true
          (record a { world = record a.world { fresh = suc a.world.fresh } })
    start udp_server name a =
        setup_endpoint name a.world.fresh true
          (record a { world = record a.world { fresh = suc a.world.fresh } })
    start udp_client name a = setup_endpoint name a.world.fresh false (record a {
      world =
          register_write_end matches name a.world.fresh
            (record a.world { fresh = suc a.world.fresh });
    })
    start file name a = some (record a {
      world =
          register_write_end matches name a.world.fresh
            (record a.world { fresh = suc a.world.fresh });
      file_entries = a.file_entries ++ a.world.fresh ∷ [];
    })

    abbrev pub is_map : Node → Bool
    is_map undefined = false
    is_map null = false
    is_map (scalar s) = false
    is_map (sequence ns) = false
    is_map (mapping es) = true

    -- A file has to be a map; of the others `init_yaml` decides.
    abbrev pub accepts : EndpointKind → String → Node → Bool
    accepts file name cfg = is_map cfg && init file name cfg
    accepts uart name cfg = init uart name cfg
    accepts tcp_client name cfg = init tcp_client name cfg
    accepts tcp_server name cfg = init tcp_server name cfg
    accepts udp_client name cfg = init udp_client name cfg
    accepts udp_server name cfg = init udp_server name cfg

    abbrev pub and_next : Option App → (App → Option App) → Option App
    and_next none f = none
    and_next (some a) f = f a

    unfoldable pub load_chapter : EndpointKind → Entries → App → Option App
    unfolding setup_endpoint
    load_chapter kind none_left a = some a
    load_chapter kind (entry name cfg es) a =
        and_next (if accepts kind name cfg then start kind name a else some a)
          (load_chapter kind es)

    -- a chapter that is a map
    abbrev pub load_if : EndpointKind → Node → App → Option App
    load_if kind undefined a = some a
    load_if kind null a = some a
    load_if kind (scalar s) a = some a
    load_if kind (sequence ns) a = some a
    load_if kind (mapping es) a = load_chapter kind es a

    -- The clients of UDP are made while the chapters are collected, the files at the end.
    unfoldable pub load_endpoints : Node → App → Bool × Option App
    unfolding load_chapter
    load_endpoints undefined a = (false, some a)
    load_endpoints null a = (false, some a)
    load_endpoints (scalar s) a = (false, some a)
    load_endpoints (sequence ns) a = (false, some a)
    load_endpoints (mapping es) a =
        let tcp = lookup "tcp" es in
        let udp = lookup "udp" es in
        (
          true,
          and_next (load_if udp_client (child "clients" udp) a) (λ b.
              and_next (load_if uart (lookup "uart" es) b) (λ c.
                and_next (load_if tcp_client (child "clients" tcp) c) (λ d.
                  and_next (load_if tcp_server (child "servers" tcp) d) (λ e.
                    and_next (load_if udp_server (child "servers" udp) e)
                      (λ f. load_if file (lookup "file" es) f))))),
        )

-- cleanup
unfoldable pub cleanup : App → App
unfolding clear_store
cleanup a = record {
  world = clear_store a.world;
  routes = [];
  source_entries = [];
  client_entries = [];
  file_entries = [];
}
