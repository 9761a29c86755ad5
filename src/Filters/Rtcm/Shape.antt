-- ===== src/Filters/Rtcm/Shape.antt =====
-- How the state of RTCM_v3 is read, and its invariant.
use uav_router.Base.{ℕ, ◌+◌, ◌≤◌, ◌<◌, ◌≡◌, [], Bytes, length, get_or, take}
use uav_router.Filters.Source.{AreBytes}
use uav_router.Filters.Loop.{Shape}
use uav_router.Filters.Rtcm.Defs.{Rtcm, State, before, header, load, preamble, packet_size, waiting}
use uav_router.Filters.Rtcm.Packets.{size_of}

-- What the array and the lengths hold in each state.
abbrev pub Progress : State → Bytes → ℕ → ℕ → Type 0
Progress before packet payload n = Unit {0}
Progress header packet payload n = (get_or packet 0 0 ≡ preamble) × (1 ≤ n) × (n < 3)
Progress load packet payload n =
    (get_or packet 0 0 ≡ preamble) × (3 ≤ n) × (6 + payload ≡ size_of packet) × (n < 6 + payload)

pub record IsValid (m : Rtcm) : Type 0 where
  pub array : length m.packet ≡ packet_size
  pub bytes : AreBytes m.packet
  pub progress : Progress m.state m.packet m.payload_len m.packet_len

unfoldable pub shape : Shape Rtcm
unfolding waiting
shape = record {
  size = packet_size;
  packet = λ m. m.packet;
  pending = λ m. take (waiting m) m.packet;
  calls = λ m. m.calls;
  IsValid = IsValid;
}

pub idle_before : (m : Rtcm) → m.state ≡ before → take (waiting m) m.packet ≡ []
unfolding waiting
idle_before m at = rw (at, waiting)

pub header_waits :
    (m : Rtcm) → m.state ≡ header → take (waiting m) m.packet ≡ take m.packet_len m.packet
unfolding waiting
header_waits m at = rw (at, waiting)

pub load_waits :
    (m : Rtcm) → m.state ≡ load → take (waiting m) m.packet ≡ take m.packet_len m.packet
unfolding waiting
load_waits m at = rw (at, waiting)
