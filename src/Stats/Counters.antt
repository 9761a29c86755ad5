-- ===== src/Stats/Counters.antt =====
-- Class StatCounters in src/impl/statobj.h, and of class Metric in src/inc/metric.h the name, the
-- tags and the fields, in the order in which they were added.
use Prim.Native.String.{String}
use uav_router.Base.{
  ℕ, ◌+◌, ◌%◌, ◌^◌, Bool, true, false, Option, none, some, List, [], ◌∷◌, ◌++◌, if◌then◌else◌,
  text_order, Map, find, put,
}

pub record Metric : Type 0 where
  pub name : String
  pub tags : List (String × String)
  pub fields : List (String × ℕ)

unfoldable pub add_tag : Metric → String × String → Metric
add_tag m tag = record m { tags = m.tags ++ tag ∷ [] }

unfoldable pub add_field : Metric → String → ℕ → Metric
add_field m name value = record m { fields = m.fields ++ (name, value) ∷ [] }

-- `std::pair<int,bool>`. The sum is kept as its 32 bits, and they wrap.
pub record Counter : Type 0 where
  pub sum : ℕ
  pub changed : Bool

pub record StatCounters : Type 0 where
  pub name : String
  pub tags : List (String × String)
  pub values : Map String Counter

-- `values[name]`, which makes an entry {0, false} where there is none
abbrev pub counter_of : Option Counter → Counter
counter_of none = record { sum = 0; changed = false }
counter_of (some c) = c

abbrev pub entry : String → StatCounters → Counter
entry name s = counter_of (find name s.values)

unfoldable pub add : String → ℕ → StatCounters → StatCounters
add name value s = record s {
  values =
      put name (record { sum = ((entry name s).sum + value) % 2 ^ 32; changed = true }) s.values;
}

-- the loop of report over the entries
unfoldable pub report_values : Map String Counter → Metric → Metric × Map String Counter
unfolding add_field
report_values [] meter = (meter, [])
report_values ((name, c) ∷ cs) meter =
    let (meter1, cs1) =
      report_values cs (if c.changed then add_field meter name c.sum else meter) in
    (meter1, (name, record c { changed = false }) ∷ cs1)

abbrev pub tag_all : List (String × String) → Metric → Metric
tag_all [] meter = meter
tag_all (tag ∷ tags) meter = tag_all tags (add_tag meter tag)

-- The metric that is sent, and the counters afterwards.
unfoldable pub report : StatCounters → Metric × StatCounters
unfolding report_values add_tag
report s =
    let (meter, vs) =
      report_values s.values (tag_all s.tags (record { name = s.name; tags = []; fields = [] })) in
    (meter, record s { values = vs })

-- The sum that is counted under a name.
unfoldable pub sum_of : String → StatCounters → ℕ
sum_of name s = (entry name s).sum
