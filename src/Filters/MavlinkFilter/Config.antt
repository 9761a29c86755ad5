-- ===== src/Filters/MavlinkFilter/Config.antt =====
-- What every configuration of Mavlink_v1_filter does.
use uav_router.Base.{
  Bool-cases, inl, inr, zero, suc, ◌/◌, ◌≡◌, ◌≢◌, refl, ◌∙◌, pos, negsuc, put, integer_order, minus,
  ℤ, Map, Option, none, some, Bool, true, false, [], ◌∷◌,
}
use uav_router.Filters.MavlinkFilter.Defs.{
  MavlinkFilter, FilterType, sysid, compid, sys_filter, msg_filter, freq_filter, is_empty,
}
use uav_router.Filters.MavlinkFilter.Setup.{
  Chapter, scalar, sequence, mapping, other, Rules, pairs_of, setup_msgs, setup_sys,
  setup_sys_compid, setup_filter, init_yaml,
}

module _ (allow : Bool) where
  setup_msgs-allow_msg :
      (ch : Chapter) (n : MavlinkFilter) → (setup_msgs allow ch n).allow_msg ≡ n.allow_msg
  unfolding setup_msgs msg_filter
  setup_msgs-allow_msg (scalar v) n = refl
  setup_msgs-allow_msg (sequence vs) n = refl
  setup_msgs-allow_msg (mapping es) n = refl
  setup_msgs-allow_msg other n = refl

  setup_sys-allow_msg :
      (t : FilterType) (ch : Chapter) (n : MavlinkFilter)
      → (setup_sys t allow ch n).allow_msg ≡ n.allow_msg
  unfolding setup_sys sys_filter
  setup_sys-allow_msg t (scalar v) n = refl
  setup_sys-allow_msg t (sequence vs) n = refl
  setup_sys-allow_msg t (mapping es) n = refl
  setup_sys-allow_msg t other n = refl

  setup_sys_compid-allow_msg :
      (ch : Chapter) (n : MavlinkFilter) → (setup_sys_compid allow ch n).allow_msg ≡ n.allow_msg
  unfolding setup_sys_compid sys_filter
  setup_sys_compid-allow_msg (scalar v) n = refl
  setup_sys_compid-allow_msg (sequence vs) n = refl
  setup_sys_compid-allow_msg (mapping es) n = elim (Bool-cases (is_empty (pairs_of es))) [
    | inl h ↦ rw h refl
    | inr h ↦ rw h refl
  ]
  setup_sys_compid-allow_msg other n = refl

setup_filter-allow_msg :
    (allow : Bool) (cfg : Rules) (m : MavlinkFilter)
    → (setup_filter allow cfg m).allow_msg ≡ m.allow_msg
unfolding setup_filter
setup_filter-allow_msg allow cfg m =
    setup_sys_compid-allow_msg allow cfg.sys_compids (
      setup_sys compid allow cfg.compids
        (setup_sys sysid allow cfg.sysids (setup_msgs allow cfg.msgs m)))
    ∙ setup_sys-allow_msg allow compid cfg.compids
        (setup_sys sysid allow cfg.sysids (setup_msgs allow cfg.msgs m))
    ∙ setup_sys-allow_msg allow sysid cfg.sysids (setup_msgs allow cfg.msgs m)
    ∙ setup_msgs-allow_msg allow cfg.msgs m

-- No frequency is zero.
abbrev pub NoneZero : Option (Map ℤ ℤ) → Type 0
NoneZero none = Unit {0}
NoneZero (some []) = Unit {0}
NoneZero (some ((id, f) ∷ freq)) = (f ≢ pos 0) × NoneZero (some freq)

freq_filter-some :
    (freq : Map ℤ ℤ) (m : MavlinkFilter)
    → NoneZero (some freq)
    → (m' : MavlinkFilter) × (freq_filter freq m ≡ some m') × (m'.allow_msg ≡ m.allow_msg)
unfolding freq_filter
freq_filter-some [] m h = (m, refl, refl)
freq_filter-some ((id, pos zero) ∷ freq) m h = absurd (h.0 refl)
freq_filter-some ((id, pos (suc f)) ∷ freq) m h =
    freq_filter-some freq
      (record m { silence_period = put id (pos (1000000000 / suc f)) m.silence_period }) h.1
freq_filter-some ((id, negsuc f) ∷ freq) m h =
    freq_filter-some freq
      (record m { silence_period = put id (minus 0 (1000000000 / suc f)) m.silence_period }) h.1

-- Where no frequency is zero, every configuration is taken, and it leaves `allow_msg` as it was: no
-- configuration makes a list of messages one of allowed messages.
pub init_yaml-allow_msg :
    (allow deny : Rules) (freq : Option (Map ℤ ℤ)) (m : MavlinkFilter)
    → NoneZero freq
    → (m' : MavlinkFilter) × (init_yaml allow deny freq m ≡ some m') × (m'.allow_msg ≡ m.allow_msg)
unfolding init_yaml
init_yaml-allow_msg allow deny none m h =
    let m1 = setup_filter true allow m in
    (
      setup_filter false deny m1,
      refl,
      setup_filter-allow_msg false deny m1 ∙ setup_filter-allow_msg true allow m,
    )
init_yaml-allow_msg allow deny (some freq) m h =
    let m1 = setup_filter true allow m in
    let (m', run, kept) = freq_filter-some freq (setup_filter false deny m1) h in
    (m', run, kept ∙ setup_filter-allow_msg false deny m1 ∙ setup_filter-allow_msg true allow m)
