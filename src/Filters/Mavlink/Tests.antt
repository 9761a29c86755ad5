-- ===== src/Filters/Mavlink/Tests.antt =====
-- Runs of Mavlink_v1 on noise, the first two bytes of a packet that never ends, and a good packet,
-- cut into buffers in two ways: the good packet is first read as part of the other, and found when
-- the filter reads its own array again.
use uav_router.Base.{
  ◌+◌, ◌%◌, ◌^◌, none, length, get_or, ◌<◌, ℕ, zero, suc, ◌≡◌, refl, Option, some, List, [], ◌∷◌,
  ◌++◌, map, arith, Bytes, replicate,
}
use uav_router.Filters.Source.{AreBytes, memchr, len, view, advance, blit}
use uav_router.Filters.Calls.{write_next, write_rest, count, events_of, badcrc}
use uav_router.Filters.Scan.{packet as packet_event, bytes_of, AllPackets, concat}
use uav_router.Filters.Stream.{write_all, Written, AreBuffers}
use uav_router.Filters.Crc.{crc_extra_default, crc_calculate}
use uav_router.Filters.Mavlink.Defs.{Mavlink, before, write, pending, add_extra, valid_checksum}
use uav_router.Filters.Mavlink.Packets.{mavlink_format, IsMavlink, sums_up}
use uav_router.Filters.Mavlink.Shape.{IsValid, shape}
use uav_router.Filters.Mavlink.Config.{
  init_yaml, init_yaml-seeds, sequence, seed_of, construct, construct-IsValid,
}
use uav_router.Filters.Sinks.{FilterBase, perform_all}
use uav_router.Stats.Counters.{sum_of}
use uav_router.Filters.Mavlink.Traffic.{mavlink_traffic}
use uav_router.Filters.Mavlink.Writes.{
  mavlink_writes, mavlink_chunks, mavlink_bytes, IsMavlink-sound, mavlink_complete,
}

abbrev seeds : Option Bytes
seeds = some crc_extra_default

abbrev array : Bytes
array = replicate 263 0

abbrev fresh : Mavlink
fresh = record { packet = array; crc_extra = seeds; state = before; packet_len = 0; calls = [] }

-- message 0 of system 2, component 3, with the payload 5, 6
abbrev good : Bytes
good = 254 ∷ 2 ∷ 1 ∷ 2 ∷ 3 ∷ 0 ∷ 5 ∷ 6 ∷ 80 ∷ 130 ∷ []

abbrev whole : List Bytes
whole = (7 ∷ 8 ∷ 254 ∷ 4 ∷ good) ∷ []

abbrev cut : List Bytes
cut = (7 ∷ []) ∷ (8 ∷ 254 ∷ 4 ∷ 254 ∷ 2 ∷ []) ∷ (1 ∷ 2 ∷ 3 ∷ 0 ∷ 5 ∷ 6 ∷ 80 ∷ 130 ∷ []) ∷ []

abbrev left_over : Bytes
left_over = good ++ 80 ∷ 130 ∷ replicate 251 0

abbrev after_whole : Mavlink
after_whole = record fresh {
  packet = left_over;
  packet_len = 10;
  calls =
      write_rest (7 ∷ 8 ∷ [])
      ∷ count badcrc 1
      ∷ write_rest (254 ∷ [])
      ∷ write_rest (4 ∷ [])
      ∷ write_next good
      ∷ [];
}

abbrev after_cut : Mavlink
after_cut = record after_whole {
  calls =
      write_rest (7 ∷ [])
      ∷ write_rest (8 ∷ [])
      ∷ count badcrc 1
      ∷ write_rest (254 ∷ [])
      ∷ write_rest (4 ∷ [])
      ∷ write_next good
      ∷ [];
}

AreBytes-zeroes : (n : ℕ) → AreBytes (replicate n 0)
AreBytes-zeroes zero = tt
AreBytes-zeroes (suc n) = (omega arith, AreBytes-zeroes n)

write_all-whole : write_all write fresh whole ≡ some after_whole
unfolding write_all write memchr len view advance blit crc_calculate add_extra valid_checksum
write_all-whole = refl

write_all-cut : write_all write fresh cut ≡ some after_cut
unfolding write_all write memchr len view advance blit crc_calculate add_extra valid_checksum
write_all-cut = refl

fresh-IsValid : IsValid seeds fresh
unfolding construct
fresh-IsValid = construct-IsValid array refl (AreBytes-zeroes 263)

whole-AreBuffers : AreBuffers whole
whole-AreBuffers = omega arith

cut-AreBuffers : AreBuffers cut
cut-AreBuffers = omega arith

good-IsMavlink : IsMavlink seeds good
unfolding sums_up crc_calculate add_extra
good-IsMavlink = record { starts = refl; long = refl; sums = refl }

mavlink_writes_example :
    (m' : Mavlink) × (write_all write fresh whole ≡ some m')
    × Written (mavlink_format seeds) (shape seeds) fresh (concat whole) m'
mavlink_writes_example = mavlink_writes seeds whole fresh fresh-IsValid whole-AreBuffers

mavlink_chunks_example :
    (events_of after_whole.calls ≡ events_of after_cut.calls)
    × (pending after_whole ≡ pending after_cut)
mavlink_chunks_example =
    mavlink_chunks seeds whole fresh fresh-IsValid whole-AreBuffers after_whole write_all-whole cut
      after_cut cut-AreBuffers refl write_all-cut

mavlink_bytes_example :
    bytes_of (events_of after_cut.calls) ++ pending after_cut ≡ pending fresh ++ concat cut
mavlink_bytes_example =
    mavlink_bytes seeds cut fresh fresh-IsValid cut-AreBuffers after_cut write_all-cut

IsMavlink-sound_example : AllPackets (IsMavlink seeds) (events_of after_cut.calls)
IsMavlink-sound_example =
    IsMavlink-sound seeds cut fresh fresh-IsValid cut-AreBuffers after_cut write_all-cut tt

abbrev two : List Bytes
two = (good ++ 254 ∷ []) ∷ (2 ∷ 1 ∷ 2 ∷ 3 ∷ 0 ∷ 5 ∷ 6 ∷ 80 ∷ 130 ∷ []) ∷ []

abbrev after_two : Mavlink
after_two = record fresh {
  packet = good ++ replicate 253 0;
  packet_len = 10;
  calls = write_next good ∷ write_next good ∷ [];
}

write_all-two : write_all write fresh two ≡ some after_two
unfolding write_all write memchr len view advance blit crc_calculate add_extra valid_checksum
write_all-two = refl

mavlink_complete_example :
    (events_of after_two.calls ≡ map packet_event (good ∷ good ∷ [])) × (pending after_two ≡ [])
unfolding pending
mavlink_complete_example =
    mavlink_complete seeds two fresh fresh-IsValid (omega arith) after_two write_all-two
      (good ∷ good ∷ []) refl (good-IsMavlink, (good-IsMavlink, tt)) refl

init_yaml-seeds_example :
    (table : Bytes) × ((init_yaml (sequence (50 ∷ 124 ∷ [])) fresh).crc_extra ≡ some table)
    × ((message : ℕ)
        → message < 256
        → (message < length table)
          × (get_or table message 0 ≡ seed_of (sequence (50 ∷ 124 ∷ [])) message))
init_yaml-seeds_example = init_yaml-seeds (sequence (50 ∷ 124 ∷ [])) fresh

abbrev base : FilterBase
base = record {
  counters = record { name = "mavlink_v1"; tags = []; values = [] };
  next = some [];
  rest = none;
}

mavlink_traffic_example :
    (sum_of "next" (perform_all after_cut.calls base).counters
        + sum_of "rest" (perform_all after_cut.calls base).counters
        + length (pending after_cut))
      % 2 ^ 32
    ≡ (sum_of "next" base.counters
        + sum_of "rest" base.counters
        + (length (pending fresh) + length (concat cut)))
      % 2 ^ 32
mavlink_traffic_example =
    mavlink_traffic seeds cut fresh fresh-IsValid cut-AreBuffers after_cut write_all-cut base refl
