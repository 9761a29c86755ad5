-- ===== src/Filters/MavlinkFilter/Setup.antt =====
-- The configuration of Mavlink_v1_filter. What is not there or of the wrong kind is `other`, and
-- the texts of the numbers are read already.
use uav_router.Base.{
  Option, none, some, Bool, true, false, List, [], ◌∷◌, ◌++◌, if◌then◌else◌, ℤ, ◌+ℤ◌, shift_8, Map,
}
use uav_router.Filters.MavlinkFilter.Defs.{
  MavlinkFilter, FilterType, sysid, compid, sysid_compid, sys_filter, msg_filter, freq_filter,
  is_empty,
}

-- what a map gives for one system
pub data Components : Type 0 where
  component : ℤ → Components
  components : List ℤ → Components
  neither : Components

pub data Chapter : Type 0 where
  scalar : ℤ → Chapter
  sequence : List ℤ → Chapter
  mapping : List (ℤ × Components) → Chapter
  other : Chapter

-- `cfg["allow"]` or `cfg["deny"]`
pub record Rules : Type 0 where
  pub msgs : Chapter
  pub sysids : Chapter
  pub compids : Chapter
  pub sys_compids : Chapter

abbrev pub no_rules : Rules
no_rules = record { msgs = other; sysids = other; compids = other; sys_compids = other }

abbrev pub pairs : ℤ → List ℤ → List ℤ
pairs s [] = []
pairs s (c ∷ cs) = (s +ℤ shift_8 c) ∷ pairs s cs

abbrev pub pairs_of : List (ℤ × Components) → List ℤ
pairs_of [] = []
pairs_of ((s, component c) ∷ rest) = (s +ℤ shift_8 c) ∷ pairs_of rest
pairs_of ((s, components cs) ∷ rest) = pairs s cs ++ pairs_of rest
pairs_of ((s, neither) ∷ rest) = pairs_of rest

unfoldable pub setup_msgs : Bool → Chapter → MavlinkFilter → MavlinkFilter
setup_msgs allow (scalar v) m = msg_filter allow (v ∷ []) m
setup_msgs allow (sequence vs) m = msg_filter allow vs m
setup_msgs allow (mapping es) m = m
setup_msgs allow other m = m

-- the chapters "sysid" and "compid"
unfoldable pub setup_sys : FilterType → Bool → Chapter → MavlinkFilter → MavlinkFilter
setup_sys t allow (scalar v) m = sys_filter allow t (v ∷ []) m
setup_sys t allow (sequence vs) m = sys_filter allow t vs m
setup_sys t allow (mapping es) m = m
setup_sys t allow other m = m

unfoldable pub setup_sys_compid : Bool → Chapter → MavlinkFilter → MavlinkFilter
setup_sys_compid allow (scalar v) m = sys_filter allow sysid_compid (v ∷ []) m
setup_sys_compid allow (sequence vs) m = sys_filter allow sysid_compid vs m
setup_sys_compid allow (mapping es) m =
    if is_empty (pairs_of es) then m else sys_filter allow sysid_compid (pairs_of es) m
setup_sys_compid allow other m = m

unfoldable pub setup_filter : Bool → Rules → MavlinkFilter → MavlinkFilter
unfolding setup_msgs setup_sys setup_sys_compid
setup_filter allow cfg m = setup_sys_compid allow cfg.sys_compids (
    setup_sys compid allow cfg.compids
      (setup_sys sysid allow cfg.sysids (setup_msgs allow cfg.msgs m)))

-- `allow`, `deny` and `freq`; no map of frequencies is `none`. The result is `none` where a
-- frequency is zero: the program divides by it.
unfoldable pub init_yaml : Rules → Rules → Option (Map ℤ ℤ) → MavlinkFilter → Option MavlinkFilter
unfolding setup_filter freq_filter
init_yaml allow deny none m = some (setup_filter false deny (setup_filter true allow m))
init_yaml allow deny (some freq) m =
    freq_filter freq (setup_filter false deny (setup_filter true allow m))
