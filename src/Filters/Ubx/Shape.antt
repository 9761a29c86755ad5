-- ===== src/Filters/Ubx/Shape.antt =====
-- How the state of UBX is read, and its invariant.
use uav_router.Base.{ℕ, ◌+◌, ◌≤◌, ◌<◌, ◌≡◌, [], Bytes, length, get_or, take, arith}
use uav_router.Filters.Source.{AreBytes, AreBytes-get_or}
use uav_router.Filters.Loop.{Shape}
use uav_router.Filters.Ubx.Defs.{
  Ubx, State, before, preamble, header, load, preamble0, preamble1, packet_size, waiting,
}
use uav_router.Filters.Ubx.Packets.{size_of}

-- What the array and the lengths hold in each state.
abbrev pub Progress : State → Bytes → ℕ → ℕ → Type 0
Progress before packet payload n = Unit {0}
Progress preamble packet payload n = get_or packet 0 0 ≡ preamble0
Progress header packet payload n =
    (get_or packet 0 0 ≡ preamble0) × (get_or packet 1 0 ≡ preamble1) × (2 ≤ n) × (n < 6)
Progress load packet payload n =
    (get_or packet 0 0 ≡ preamble0)
    × (get_or packet 1 0 ≡ preamble1)
    × (6 ≤ n)
    × (8 + payload ≡ size_of packet)
    × (n < 8 + payload)

pub record IsValid (m : Ubx) : Type 0 where
  pub array : length m.packet ≡ packet_size
  pub bytes : AreBytes m.packet
  pub progress : Progress m.state m.packet m.payload_len m.packet_len

unfoldable pub shape : Shape Ubx
unfolding waiting
shape = record {
  size = packet_size;
  packet = λ m. m.packet;
  pending = λ m. take (waiting m) m.packet;
  calls = λ m. m.calls;
  IsValid = IsValid;
}

pub idle_before : (m : Ubx) → m.state ≡ before → take (waiting m) m.packet ≡ []
unfolding waiting
idle_before m at = rw (at, waiting)

pub one_waits : (m : Ubx) → m.state ≡ preamble → take (waiting m) m.packet ≡ take 1 m.packet
unfolding waiting
one_waits m at = rw (at, waiting)

pub header_waits :
    (m : Ubx) → m.state ≡ header → take (waiting m) m.packet ≡ take m.packet_len m.packet
unfolding waiting
header_waits m at = rw (at, waiting)

pub load_waits : (m : Ubx) → m.state ≡ load → take (waiting m) m.packet ≡ take m.packet_len m.packet
unfolding waiting
load_waits m at = rw (at, waiting)

-- The array holds the longest packet.
pub size_of-le : (p : Bytes) → AreBytes p → size_of p ≤ packet_size
size_of-le p h = omega (arith, AreBytes-get_or p 4 h, AreBytes-get_or p 5 h)
