-- ===== src/Stats/Reports.antt =====
-- What a report of the counters says, and when a counter is reported again.
mod Tests
use Prim.Native.String.{String}
use uav_router.Base.{
  ℕ, ◌+◌, ◌%◌, ◌^◌, ◌≡◌, ◌≢◌, refl, sym, ap, ◌∙◌, Bool, true, false, Option, none, some, List, [],
  ◌∷◌, ◌++◌, arith, if◌then◌else◌, Bool-cases, Option-cases, inl, inr, Order, text_order, Map, find,
  put, find-put_same, find-put_other, text_lt, append_assoc, append-nil,
}
use uav_router.Stats.Counters.{
  Metric, Counter, StatCounters, counter_of, entry, add, add_field, add_tag, tag_all, report_values,
  report, sum_of,
}

pub sum_of-add_same :
    (name : String) (value : ℕ) (s : StatCounters)
    → sum_of name (add name value s) ≡ (sum_of name s + value) % 2 ^ 32
unfolding sum_of add
sum_of-add_same name value s =
    ap (λ o. (counter_of o).sum)
      (find-put_same name (record { sum = ((entry name s).sum + value) % 2 ^ 32; changed = true })
        s.values)

pub sum_of-add_other :
    (name other : String) (value : ℕ) (s : StatCounters)
    → name ≢ other
    → sum_of name (add other value s) ≡ sum_of name s
unfolding sum_of add
sum_of-add_other name other value s ne =
    ap (λ o. (counter_of o).sum)
      (find-put_other name other
        (record { sum = ((entry other s).sum + value) % 2 ^ 32; changed = true }) s.values ne)

-- The entries after a report.
settle : Map String Counter → Map String Counter
settle [] = []
settle ((name, c) ∷ cs) = (name, record c { changed = false }) ∷ settle cs

report_values-settle :
    (cs : Map String Counter) (meter : Metric) → (report_values cs meter).1 ≡ settle cs
unfolding report_values settle
report_values-settle [] meter = refl
report_values-settle ((name, c) ∷ cs) meter =
    ap (◌∷◌ (name, record c { changed = false }))
      (report_values-settle cs (if c.changed then add_field meter name c.sum else meter))

report_values-quiet :
    (cs : Map String Counter) (meter : Metric) → (report_values (settle cs) meter).0 ≡ meter
unfolding report_values settle
report_values-quiet [] meter = refl
report_values-quiet ((name, c) ∷ cs) meter = report_values-quiet cs meter

report_values-put :
    (name : String) (sum : ℕ) (cs : Map String Counter) (meter : Metric)
    → (report_values (put name (record { sum = sum; changed = true }) (settle cs)) meter).0
      ≡ add_field meter name sum
unfolding report_values settle
report_values-put name sum [] meter = refl
report_values-put name sum ((other, c) ∷ cs) meter = elim (Bool-cases (text_lt name other)) [
  | inl h ↦ rw h (report_values-quiet cs (add_field meter name sum))
  | inr h ↦ elim (Bool-cases (text_lt other name)) [
    | inl k ↦ rw (h, k) (report_values-put name sum cs meter)
    | inr k ↦
        rw (h, k)
          (report_values-quiet cs (add_field meter other sum)
            ∙ ap (λ s. add_field meter s sum) (sym (text_order.lt_connected name other h k)))
  ]
]

counter_of-settle :
    (name : String) (cs : Map String Counter)
    → (counter_of (find name (settle cs))).sum ≡ (counter_of (find name cs)).sum
unfolding settle
counter_of-settle name [] = refl
counter_of-settle name ((other, c) ∷ cs) = elim (Bool-cases (text_lt name other)) [
  | inl h ↦ rw h refl
  | inr h ↦ elim (Bool-cases (text_lt other name)) [
    | inl k ↦ rw (h, k) (counter_of-settle name cs)
    | inr k ↦ rw (h, k) refl
  ]
]

tag_all-fields :
    (tags : List (String × String)) (meter : Metric) → (tag_all tags meter).fields ≡ meter.fields
unfolding add_tag
tag_all-fields [] meter = refl
tag_all-fields (tag ∷ tags) meter = tag_all-fields tags (add_tag meter tag)

abbrev blank : StatCounters → Metric
blank s = record { name = s.name; tags = []; fields = [] }

report-settle : (s : StatCounters) → (report s).1 ≡ record s { values = settle s.values }
unfolding report
report-settle s =
    ap (λ cs. record s { values = cs }) (report_values-settle s.values (tag_all s.tags (blank s)))

-- A report changes no sum, under any name.
pub sum_of-report : (name : String) (s : StatCounters) → sum_of name (report s).1 ≡ sum_of name s
unfolding sum_of
sum_of-report name s = ap (sum_of name) (report-settle s) ∙ counter_of-settle name s.values

-- What was added to a counter after a report is in the next report: its name with the sum of all
-- that was added to it so far, modulo 2^32, and no other field.
pub report-add :
    (name : String) (value : ℕ) (s : StatCounters)
    → (report (add name value (report s).1)).0.fields
      ≡ (name, (sum_of name s + value) % 2 ^ 32) ∷ []
unfolding report add add_field sum_of
report-add name value s =
    ap (λ t. (report (add name value t)).0.fields) (report-settle s)
    ∙ ap (λ m. m.fields)
        (report_values-put name (((counter_of (find name (settle s.values))).sum + value) % 2 ^ 32)
          s.values (tag_all s.tags (blank s)))
    ∙ ap
        (λ fs. fs ++ (name, ((counter_of (find name (settle s.values))).sum + value) % 2 ^ 32) ∷ [])
        (tag_all-fields s.tags (blank s))
    ∙ ap (λ n. (name, (n + value) % 2 ^ 32) ∷ []) (counter_of-settle name s.values)

-- After a report, another one has no fields until something is added.
pub report-report : (s : StatCounters) → (report (report s).1).0.fields ≡ []
unfolding report
report-report s =
    ap (λ t. (report t).0.fields) (report-settle s)
    ∙ ap (λ m. m.fields) (report_values-quiet s.values (tag_all s.tags (blank s)))
    ∙ tag_all-fields s.tags (blank s)
