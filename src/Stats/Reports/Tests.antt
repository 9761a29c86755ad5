-- ===== src/Stats/Reports/Tests.antt =====
-- Counters with two names, one of them added to after a report.
use uav_router.Base.{◌≡◌, [], ◌∷◌, true}
use uav_router.Stats.Counters.{StatCounters, add, report, sum_of}
use uav_router.Stats.Reports.{report-add}

abbrev two_names : StatCounters
two_names = record {
  name = "ubx";
  tags = ("dev", "gps") ∷ [];
  values =
      ("next", record { sum = 40; changed = true })
      ∷ ("pack", record { sum = 2; changed = true })
      ∷ [];
}

report-add_example : (report (add "pack" 1 (report two_names).1)).0.fields ≡ ("pack", 3) ∷ []
unfolding sum_of
report-add_example = report-add "pack" 1 two_names
