-- ===== src/Router/Store.antt =====
-- Class EndpointStore in app/uav-router.cpp, and the objects that the router makes: destinations and
-- filters, by their addresses. Addresses are not used again; 0 is the null pointer.
use Prim.Native.String.{String}
use uav_router.Base.{
  ℕ, suc, Option, none, some, Bool, not, ◌&&◌, ◌||◌, if◌then◌else◌, List, [], ◌∷◌, ◌++◌, nat_order,
  text_order, Map, find, put,
}
use uav_router.Router.Destination.{Destination, add}
use uav_router.Filters.Factory.{Kind}
use uav_router.Router.Names.{is_pattern, pattern_of}

-- `endpoints` may hold null pointers.
pub record EndpointStore : Type 0 where
  pub endpoints : Map String (Option ℕ)
  pub regex_endpoints : List (String × ℕ)

-- What Filters::create makes, and what is attached to it.
pub record FilterNode : Type 0 where
  pub kind : Kind
  pub next : Option ℕ
  pub rest : Option ℕ

pub record World : Type 0 where
  pub dests : Map ℕ Destination
  pub filters : Map ℕ FilterNode
  pub fresh : ℕ
  pub store : EndpointStore

-- `std::make_shared<Destination>()`
abbrev pub new_dest : World → World
new_dest w = record w {
  dests = put w.fresh (record { endpoints = [] }) w.dests;
  fresh = suc w.fresh;
}

-- `dest->add(object)`, for a destination that exists
abbrev pub with_added : ℕ → ℕ → Option Destination → Map ℕ Destination → Map ℕ Destination
with_added dest object none ds = ds
with_added dest object (some d) ds = put dest (add object object d) ds

unfoldable pub add_object : ℕ → ℕ → World → World
unfolding add
add_object dest object w = record w { dests = with_added dest object (find dest w.dests) w.dests }

-- EndpointStore::register_name: `true` where it returns. `valid` is whether the constructor of
-- std::regex takes a pattern; where it throws, the name has its entry already.
unfoldable pub register_name : (String → Bool) → String → World → Bool × World
register_name valid name w =
    let pattern = is_pattern name in
    let taken = valid (pattern_of name) in
    (
      not pattern || taken,
      record (new_dest w) {
        store = record {
          endpoints = put name (some w.fresh) w.store.endpoints;
          regex_endpoints =
              if pattern && taken
              then w.store.regex_endpoints ++ (pattern_of name, w.fresh) ∷ []
              else w.store.regex_endpoints;
        };
      },
    )

-- the pointer in an entry of `endpoints`, and what `endpoints[name]` finds or makes
abbrev pub pointer : Option ℕ → ℕ
pointer none = 0
pointer (some d) = d

abbrev pub slot : Option (Option ℕ) → Option ℕ
slot none = none
slot (some p) = p

abbrev pub add_if : Option ℕ → ℕ → World → World
add_if none object w = w
add_if (some d) object w = add_object d object w

-- `matches pattern name` is std::regex_match.
module _ (matches : String → String → Bool) where
  -- the loop of register_write_end
  unfoldable pub add_to_matching : String → ℕ → List (String × ℕ) → World → World
  unfolding add_object
  add_to_matching name sink [] w = w
  add_to_matching name sink ((pattern, d) ∷ rest) w =
      add_to_matching name sink rest (if matches pattern name then add_object d sink w else w)

  -- EndpointStore::register_write_end
  unfoldable pub register_write_end : String → ℕ → World → World
  unfolding add_to_matching
  register_write_end name sink w =
      let p = slot (find name w.store.endpoints) in
      let w1 = record w { store = record w.store { endpoints = put name p w.store.endpoints } } in
      add_to_matching name sink w.store.regex_endpoints (add_if p sink w1)

  -- the loop of connect_to_dest
  unfoldable pub add_matching : String → ℕ → List (String × ℕ) → World → World
  unfolding add_object
  add_matching name dest [] w = w
  add_matching name dest ((pattern, d) ∷ rest) w =
      add_matching name dest rest (if matches pattern name then add_object dest d w else w)

  -- the entry of the name itself
  abbrev pub add_named : ℕ → Option (Option ℕ) → World → World
  add_named dest none w = w
  add_named dest (some p) w = add_object dest (pointer p) w

  -- EndpointStore::connect_to_dest
  unfoldable pub connect_to_dest : String → ℕ → World → World
  unfolding add_matching
  connect_to_dest name dest w =
      let w1 = add_named dest (find name w.store.endpoints) w in
      if is_pattern name then w1 else add_matching name dest w.store.regex_endpoints w1

-- EndpointStore::clear
unfoldable pub clear_store : World → World
clear_store w = record w { store = record { endpoints = []; regex_endpoints = [] } }
