-- ===== src/Filters/MavlinkFilter/Tests.antt =====
-- A filter that lets the systems 1 and 2 pass, and message 30 ten times a second.
use uav_router.Base.{
  ℕ, ◌+◌, ◌≤◌, ◌≡◌, ◌≢◌, refl, some, Bool, true, false, not, [], ◌∷◌, arith, ℤ, pos, negsuc, ap,
}
use uav_router.Filters.MavlinkFilter.Defs.{
  MavlinkFilter, Set, sysid, passed, sys_passes, sys_filter, xor,
}
use uav_router.Filters.MavlinkFilter.Setup.{Rules, no_rules, sequence, init_yaml}
use uav_router.Filters.MavlinkFilter.Config.{init_yaml-allow_msg}
use uav_router.Filters.MavlinkFilter.Laws.{listed, sys_filter-sys_passes}
use uav_router.Filters.MavlinkFilter.Rate.{Arrival, passed-apart}

abbrev fresh : MavlinkFilter
fresh = record {
  sys = [];
  allow_sys = false;
  type = sysid;
  msg = [];
  allow_msg = false;
  silence_period = [];
  last_send_time = [];
  calls = [];
}

abbrev systems : Rules
systems = record no_rules { sysids = sequence (pos 2 ∷ pos 1 ∷ []) }

abbrev slow : MavlinkFilter
slow = record fresh {
  sys = (pos 1, tt) ∷ (pos 2, tt) ∷ [];
  allow_sys = true;
  silence_period = (pos 30, pos 100000000) ∷ [];
}

init_yaml-slow : init_yaml systems no_rules (some ((pos 30, pos 10) ∷ [])) fresh ≡ some slow
unfolding init_yaml sys_filter
init_yaml-slow = refl

magnitude : ℤ → ℕ
magnitude (pos a) = a
magnitude (negsuc a) = a

ten≢zero : pos 10 ≢ pos 0
unfolding magnitude
ten≢zero e = ground (arith, ap magnitude e)

init_yaml-allow_msg_example :
    (m' : MavlinkFilter) × (init_yaml systems no_rules (some ((pos 30, pos 10) ∷ [])) fresh
      ≡ some m')
    × (m'.allow_msg ≡ false)
init_yaml-allow_msg_example =
    init_yaml-allow_msg systems no_rules (some ((pos 30, pos 10) ∷ [])) fresh (ten≢zero, tt)

sys_filter-sys_passes_example :
    sys_passes 2 7 (sys_filter true sysid (pos 2 ∷ pos 1 ∷ []) fresh)
    ≡ not (xor true (listed (pos 2) (pos 2 ∷ pos 1 ∷ [])))
sys_filter-sys_passes_example = sys_filter-sys_passes true sysid (pos 2 ∷ pos 1 ∷ []) fresh 2 7

-- Iterators of two containers differ.
abbrev apart : Set → Set → ℕ → Bool
apart msgs syss id = true

abbrev at : ℕ → Arrival
at t = record { system = 1; component = 1; message = 30; time = t }

passed-apart_example : 500000000 + 100000000 ≤ 600000000
unfolding passed
passed-apart_example =
    passed-apart apart slow (at 500000000) (at 600000000) (at 550000000 ∷ []) 100000000 refl refl
      (omega arith, tt) refl refl
