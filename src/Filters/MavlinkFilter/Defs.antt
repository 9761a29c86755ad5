-- ===== src/Filters/MavlinkFilter/Defs.antt =====
-- The state and the operations of class Mavlink_v1_filter in src/filters/mavlink1.h.
use uav_router.Base.{
  ℕ, suc, ◌+◌, ◌*◌, Option, none, some, Bool, true, false, not, List, [], ◌∷◌, ◌++◌, if◌then◌else◌,
  Bytes, get_or, ltb, ℤ, pos, negsuc, quotient, integer_order, Map, find, put,
}
use uav_router.Filters.Calls.{Call, write_next, write_rest, count, sysfilter, msgfilter, freqfilter}

-- `enum Type {SYSID, COMPID, SYSID_COMPID}`
pub data FilterType : Type 0 where
  sysid compid sysid_compid : FilterType

-- std::set<int>
abbrev pub Set : Type 0
Set = Map ℤ (Unit {0})

abbrev pub insert_all : List ℤ → Set → Set
insert_all [] s = s
insert_all (v ∷ vs) s = insert_all vs (put v tt s)

abbrev pub is_empty {ℓ} : {A : Type ℓ} → List A → Bool
is_empty [] = true
is_empty (x ∷ xs) = false

abbrev pub contains : ℤ → Set → Bool
contains v s = elim (find v s) [ none ↦ false | some u ↦ true ]

abbrev pub xor : Bool → Bool → Bool
xor true b = not b
xor false b = b

-- Periods are in nanoseconds, as are the times of the last packets, from the epoch of the clock.
-- `calls` are the calls made to the base class.
pub record MavlinkFilter : Type 0 where
  pub sys : Set
  pub allow_sys : Bool
  pub type : FilterType
  pub msg : Set
  pub allow_msg : Bool
  pub silence_period : Map ℤ ℤ
  pub last_send_time : Map ℤ ℕ
  pub calls : List Call

abbrev pub call : Call → MavlinkFilter → MavlinkFilter
call c m = record m { calls = m.calls ++ c ∷ [] }

unfoldable pub sys_filter : Bool → FilterType → List ℤ → MavlinkFilter → MavlinkFilter
sys_filter allow t value m = record m { allow_sys = allow; type = t; sys = insert_all value [] }

-- It sets `allow_sys`, as the source does.
unfoldable pub msg_filter : Bool → List ℤ → MavlinkFilter → MavlinkFilter
msg_filter allow value m = record m { allow_sys = allow; msg = insert_all value [] }

-- `none` is a division by zero.
unfoldable pub freq_filter : Map ℤ ℤ → MavlinkFilter → Option MavlinkFilter
freq_filter [] m = some m
freq_filter ((id, freq) ∷ max_freq) m = elim (quotient 1000000000 freq) [
  | none ↦ none
  | some period ↦
      freq_filter max_freq (record m { silence_period = put id period m.silence_period })
]

-- the number that the set `sys` is asked for
abbrev pub sys_key : FilterType → ℕ → ℕ → ℕ
sys_key sysid s c = s
sys_key compid s c = c
sys_key sysid_compid s c = s + c * 256

-- the test of `sys` in passed
unfoldable pub sys_passes : ℕ → ℕ → MavlinkFilter → Bool
sys_passes s c m =
    if is_empty m.sys
    then true
    else not (xor m.allow_sys (contains (pos (sys_key m.type s c)) m.sys))

-- `(now - last) < period`
abbrev pub too_soon : ℕ → ℕ → ℤ → Bool
too_soon now last (pos p) = ltb now (last + p)
too_soon now last (negsuc p) = ltb (now + suc p) last

abbrev pub time_of : Option ℕ → ℕ
time_of none = 0
time_of (some t) = t

-- `last_send_time[msgid]`, which makes an entry 0 where there is none
unfoldable pub last_of : ℕ → MavlinkFilter → ℕ
last_of msgid m = time_of (find (pos msgid) m.last_send_time)

abbrev pub set_last : ℕ → ℕ → MavlinkFilter → MavlinkFilter
set_last msgid t m = record m { last_send_time = put (pos msgid) t m.last_send_time }

-- the frequency test of passed, with what `silence_period.find` gives
unfoldable pub freq_test : Option ℤ → ℕ → ℕ → MavlinkFilter → Bool × MavlinkFilter
unfolding last_of
freq_test none msgid now m = (true, m)
freq_test (some period) msgid now m =
    if too_soon now (last_of msgid m) period
    then (false, call (count freqfilter 1) (set_last msgid (last_of msgid m) m))
    else (true, set_last msgid now m)

unfoldable pub freq_passes : ℕ → ℕ → MavlinkFilter → Bool × MavlinkFilter
unfolding freq_test
freq_passes msgid now m = freq_test (find (pos msgid) m.silence_period) msgid now m

-- `found msg sys msgid` is what `msg.find(msgid)!=sys.end()` is: the comparison of iterators of two
-- sets, to which the language gives no meaning.
module _ (found : Set → Set → ℕ → Bool) where
  -- the test of `msg` in passed
  unfoldable pub msg_passes : ℕ → MavlinkFilter → Bool
  msg_passes msgid m =
      if is_empty m.msg then true else not (xor m.allow_msg (found m.msg m.sys msgid))

  unfoldable pub passed : ℕ → ℕ → ℕ → ℕ → MavlinkFilter → Bool × MavlinkFilter
  unfolding sys_passes msg_passes freq_passes
  passed s c msgid now m =
      if sys_passes s c m
      then if msg_passes msgid m
        then freq_passes msgid now m
        else (false, call (count msgfilter 1) m)
      else (false, call (count sysfilter 1) m)

  -- A call at the time `now`. The buffer has six bytes at least.
  unfoldable pub write : Bytes → ℕ → MavlinkFilter → MavlinkFilter
  unfolding passed
  write buf now m =
      let (pass, m1) = passed (get_or buf 3 0) (get_or buf 4 0) (get_or buf 5 0) now m in
      if pass then call (write_next buf) m1 else call (write_rest buf) m1
