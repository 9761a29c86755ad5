-- ===== src/Router/Routes.antt =====
-- The routes of app/uav-router.cpp: what they name, and what is built for the endpoint at the start of
-- one. Where the source asks for the text of a node that has none, an exception leaves the function:
-- the result is `none`.
use Prim.Native.String.{String}
use text.Mathlib.Text.{◌==◌}
use uav_router.Base.{
  ℕ, suc, Option, none, some, Bool, true, false, if◌then◌else◌, List, [], ◌∷◌, ◌++◌, nat_order, Map,
  find, put,
}
use uav_router.Yaml.{
  Node, undefined, null, scalar, sequence, mapping, Nodes, nil, cons, Entries, none_left, entry,
  lookup, is_defined,
}
use uav_router.Filters.Factory.{Kind, create}
use uav_router.Router.Store.{World, FilterNode, new_dest, add_object, connect_to_dest}

-- `filters` is the vector that keeps the filters of one endpoint.
pub record Build : Type 0 where
  pub world : World
  pub filters : List ℕ

abbrev pub new_filter : Kind → Build → Build
new_filter kind b = record {
  world = record b.world {
    filters = put b.world.fresh (record { kind = kind; next = none; rest = none }) b.world.filters;
    fresh = suc b.world.fresh;
  };
  filters = b.filters ++ b.world.fresh ∷ [];
}

-- `filter->chain(…)` and `filter->rest(…)`
pub data Exit : Type 0 where
  to_next to_rest : Exit

abbrev pub set_exit : Exit → ℕ → Option FilterNode → Option FilterNode
set_exit e d none = none
set_exit to_next d (some f) = some (record f { next = some d })
set_exit to_rest d (some f) = some (record f { rest = some d })

abbrev pub put_if : ℕ → Option FilterNode → Map ℕ FilterNode → Map ℕ FilterNode
put_if a none m = m
put_if a (some f) m = put a f m

abbrev pub attach : Exit → ℕ → ℕ → World → World
attach e filter d w = record w {
  filters = put_if filter (set_exit e d (find filter w.filters)) w.filters;
}

-- `if (dst)` and `if (rest)`: a new destination behind the filter, and what the route gives for it
unfoldable pub build_exit : Exit → Bool → (ℕ → Build → Option Build) → ℕ → Build → Option Build
build_exit e false go filter b = some b
build_exit e true go filter b =
    let d = b.world.fresh in go d (record b { world = attach e filter d (new_dest b.world) })

abbrev pub and_then : Option Build → (Build → Option Build) → Option Build
and_then none f = none
and_then (some b) f = f b

-- `dest->add(filter); return true;`
abbrev pub placed : ℕ → ℕ → Option Build → Option (Bool × Build)
placed dest filter none = none
placed dest filter (some b) = some (true, record b { world = add_object dest filter b.world })

-- The filter of a name, with what is behind it, in `dest`.
unfoldable pub build_filter :
    Option Kind
    → (ℕ → Build → Option Build)
    → (ℕ → Build → Option Build)
    → ℕ
    → Build
    → Option (Bool × Build)
unfolding add_object
build_filter none next rest dest b = some (false, b)
build_filter (some kind) next rest dest b =
    let f = b.world.fresh in placed dest f (and_then (next f (new_filter kind b)) (rest f))

-- `cfg["type"]`
unfoldable pub build_type :
    Node
    → (ℕ → Build → Option Build)
    → (ℕ → Build → Option Build)
    → ℕ
    → Build
    → Option (Bool × Build)
unfolding build_filter create
build_type undefined next rest dest b = some (false, b)
build_type null next rest dest b = build_filter (create "null") next rest dest b
build_type (scalar s) next rest dest b = build_filter (create s) next rest dest b
build_type (sequence ns) next rest dest b = none
build_type (mapping es) next rest dest b = none

abbrev pub built : Option (Bool × Build) → Option Build
built none = none
built (some r) = some r.1

-- `matches pattern name` is std::regex_match.
module _ (matches : String → String → Bool) where
  unfoldable mutual
    unfolding connect_to_dest build_type build_exit

    pub construct_route : Node → ℕ → Build → Option (Bool × Build)
    construct_route undefined dest b = some (false, b)
    construct_route null dest b = some (false, b)
    construct_route (scalar s) dest b =
        some (true, record b { world = connect_to_dest matches s dest b.world })
    construct_route (sequence ns) dest b = elim (construct_each ns dest b) [
      | none ↦ none
      | some b1 ↦ some (true, b1)
    ]
    construct_route (mapping es) dest b =
        build_type (lookup "type" es)
          (build_exit to_next (is_defined (lookup "dst" es)) (construct_under "dst" es))
          (build_exit to_rest (is_defined (lookup "rest" es)) (construct_under "rest" es)) dest b

    -- the loop over a sequence
    pub construct_each : Nodes → ℕ → Build → Option Build
    construct_each nil dest b = some b
    construct_each (cons n ns) dest b =
        and_then (built (construct_route n dest b)) (construct_each ns dest)

    -- construct_route on the value of a key
    pub construct_under : String → Entries → ℕ → Build → Option Build
    construct_under key none_left dest b = some b
    construct_under key (entry k n es) dest b =
        let rest = construct_under key es in
        if k == key then built (construct_route n dest b) else rest dest b
