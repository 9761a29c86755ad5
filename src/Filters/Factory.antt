-- ===== src/Filters/Factory.antt =====
-- Filters::create in src/filters.cpp: the filter that a name stands for, if it stands for one. The
-- `init_yaml` of all of them succeed.
use Prim.Native.String.{String}
use text.Mathlib.Text.{◌==◌}
use uav_router.Base.{Option, none, some, if◌then◌else◌}

pub data Kind : Type 0 where
  mavlink_v1 nmea rtcm_v3 ubx hex : Kind

unfoldable pub create : String → Option Kind
create name =
    if name == "mavlink1"
    then some mavlink_v1
    else if name == "nmea"
    then some nmea
    else if name == "rtcm3"
    then some rtcm_v3
    else if name == "ubx"
    then some ubx
    else if name == "hex"
    then some hex
    else none
