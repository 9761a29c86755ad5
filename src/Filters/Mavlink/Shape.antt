-- ===== src/Filters/Mavlink/Shape.antt =====
-- How the state of Mavlink_v1 is read, and its invariant.
use uav_router.Base.{
  ℕ, ◌+◌, ◌≤◌, ◌<◌, ◌≡◌, Option, false, [], ◌∷◌, arith, ◌==◌, Bytes, length, get_or, take,
}
use uav_router.Filters.Source.{AreBytes}
use uav_router.Filters.Scan.{reject}
use uav_router.Filters.Loop.{Shape}
use uav_router.Filters.Mavlink.Defs.{
  Mavlink, State, before, length_next, load, stx, packet_size, waiting,
}
use uav_router.Filters.Mavlink.Packets.{mavlink_format, classify}

-- What the array holds in each state.
abbrev pub Progress : State → Bytes → ℕ → Type 0
Progress before packet n = Unit {0}
Progress length_next packet n = get_or packet 0 0 ≡ stx
Progress load packet n = (get_or packet 0 0 ≡ stx) × (2 ≤ n) × (n < 8 + get_or packet 1 0)

pub record IsValid (extra : Option Bytes) (m : Mavlink) : Type 0 where
  pub array : length m.packet ≡ packet_size
  pub bytes : AreBytes m.packet
  pub seeds : m.crc_extra ≡ extra
  pub progress : Progress m.state m.packet m.packet_len

unfoldable pub shape : Option Bytes → Shape Mavlink
unfolding waiting
shape extra = record {
  size = packet_size;
  packet = λ m. m.packet;
  pending = λ m. take (waiting m) m.packet;
  calls = λ m. m.calls;
  IsValid = IsValid extra;
}

pub other_bytes :
    (extra : Option Bytes) (b : ℕ) (bs : Bytes)
    → (b == stx) ≡ false
    → (mavlink_format extra).classify (b ∷ bs) ≡ reject 1
unfolding mavlink_format classify
other_bytes extra b [] h = ground arith
other_bytes extra b (n ∷ bs) h = ground arith

pub idle_before : (m : Mavlink) → m.state ≡ before → take (waiting m) m.packet ≡ []
unfolding waiting
idle_before m at = rw (at, waiting)

pub one_waits : (m : Mavlink) → m.state ≡ length_next → take (waiting m) m.packet ≡ take 1 m.packet
unfolding waiting
one_waits m at = rw (at, waiting)

pub some_wait :
    (m : Mavlink) → m.state ≡ load → take (waiting m) m.packet ≡ take m.packet_len m.packet
unfolding waiting
some_wait m at = rw (at, waiting)
