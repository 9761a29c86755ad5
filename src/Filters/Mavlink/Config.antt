-- ===== src/Filters/Mavlink/Config.antt =====
-- Construction and configuration of class Mavlink_v1 in src/filters/mavlink1.h.
use uav_router.Base.{
  ℕ, zero, suc, ◌-◌, ◌≤◌, ◌<◌, ◌≡◌, refl, Option, none, some, [], ◌∷◌, ◌++◌, arith, if◌then◌else◌,
  ltb, Bool-cases, inl, inr, Bytes, length, get_or, replicate, length-append, length-replicate,
}
use uav_router.Filters.Source.{AreBytes}
use uav_router.Filters.Crc.{crc_extra_default}
use uav_router.Filters.Mavlink.Defs.{Mavlink, before, packet_size}
use uav_router.Filters.Mavlink.Shape.{IsValid}

-- `cfg["crc_extra"]`: not there, there but no sequence, or a sequence of bytes.
pub data CrcNode : Type 0 where
  missing : CrcNode
  not_sequence : CrcNode
  sequence : Bytes → CrcNode

-- Mavlink_v1(): the array holds whatever bytes were there.
unfoldable pub construct : Bytes → Mavlink
construct array = record {
  packet = array;
  crc_extra = some crc_extra_default;
  state = before;
  packet_len = 0;
  calls = [];
}

-- `crc_holder.resize(256, 0)` where it is shorter
resize_holder : Bytes → Bytes
resize_holder holder =
    if ltb (length holder) 256 then holder ++ replicate (256 - length holder) 0 else holder

seed_table : CrcNode → Option Bytes
seed_table missing = none
seed_table not_sequence = none
seed_table (sequence holder) = some (resize_holder holder)

unfoldable pub init_yaml : CrcNode → Mavlink → Mavlink
unfolding seed_table resize_holder
init_yaml cfg m = record m {
  crc_extra = elim (seed_table cfg) [ none ↦ some crc_extra_default | some table ↦ some table ];
}

-- A recognizer as it is constructed is idle and valid.
pub construct-IsValid :
    (array : Bytes)
    → length array ≡ packet_size
    → AreBytes array
    → IsValid (some crc_extra_default) (construct array)
unfolding construct
construct-IsValid array l h = record { array = l; bytes = h; seeds = refl; progress = tt }

get_or-replicate : (n i : ℕ) → get_or (replicate n 0) i 0 ≡ zero
get_or-replicate zero i = refl
get_or-replicate (suc n) zero = refl
get_or-replicate (suc n) (suc i) = get_or-replicate n i

-- Zeroes at the end read like what is not there.
get_or-pad : (xs : Bytes) (n i : ℕ) → get_or (xs ++ replicate n 0) i 0 ≡ get_or xs i 0
get_or-pad [] n i = get_or-replicate n i
get_or-pad (x ∷ xs) n zero = refl
get_or-pad (x ∷ xs) n (suc i) = get_or-pad xs n i

get_or-resize_holder :
    (holder : Bytes) (i : ℕ) → get_or (resize_holder holder) i 0 ≡ get_or holder i 0
unfolding resize_holder
get_or-resize_holder holder i = elim (Bool-cases (ltb (length holder) 256)) [
  | inl short ↦ rw short (get_or-pad holder (256 - length holder) i)
  | inr long ↦ rw long
]

length-resize_holder : (holder : Bytes) → 256 ≤ length (resize_holder holder)
unfolding resize_holder
length-resize_holder holder = ground (
  arith,
  length-append holder (replicate (256 - length holder) 0),
  length-replicate (256 - length holder) zero,
)

-- The seed that a configuration gives a message: the one listed, 0 past the end of the list, and
-- the one built in where there is no list.
abbrev pub seed_of : CrcNode → ℕ → ℕ
seed_of missing message = get_or crc_extra_default message 0
seed_of not_sequence message = get_or crc_extra_default message 0
seed_of (sequence holder) message = get_or holder message 0

-- Whatever the configuration holds, the recognizer has a table afterwards. Every index that is a
-- byte lies inside it, and the entry there is the seed that the configuration gives the message.
pub init_yaml-seeds :
    (cfg : CrcNode) (m : Mavlink)
    → (table : Bytes) × ((init_yaml cfg m).crc_extra ≡ some table)
      × ((message : ℕ)
          → message < 256
          → (message < length table) × (get_or table message 0 ≡ seed_of cfg message))
unfolding init_yaml
init_yaml-seeds missing m = (crc_extra_default, refl, λ message h. (omega arith, refl))
init_yaml-seeds not_sequence m = (crc_extra_default, refl, λ message h. (omega arith, refl))
init_yaml-seeds (sequence holder) m = (
  resize_holder holder,
  refl,
  λ message h. (omega (arith, length-resize_holder holder), get_or-resize_holder holder message),
)
