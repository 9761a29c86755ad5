-- ===== src/Filters/Ubx/Tests.antt =====
-- Runs of UBX on noise, a packet with a wrong checksum and a good packet, cut into buffers in two
-- ways: the good packet lies inside the other, and is found when the filter reads its own array again.
use uav_router.Base.{
  ℕ, zero, suc, ◌≡◌, refl, some, List, [], ◌∷◌, ◌++◌, map, ◌-◌, arith, Bytes, replicate,
  length-replicate,
}
use uav_router.Filters.Source.{AreBytes, memchr, len, view, advance, blit}
use uav_router.Filters.Calls.{write_next, write_rest, count, events_of, badcrc}
use uav_router.Filters.Scan.{packet as packet_event, bytes_of, AllPackets, concat}
use uav_router.Filters.Stream.{write_all, Written, AreBuffers}
use uav_router.Filters.Crc.{fletcher}
use uav_router.Filters.Ubx.Defs.{Ubx, before, write, pending, valid_checksum, packet_size}
use uav_router.Filters.Ubx.Packets.{ubx_format, IsUbx, sums_up}
use uav_router.Filters.Ubx.Shape.{IsValid, shape}
use uav_router.Filters.Ubx.Writes.{ubx_writes, ubx_chunks, ubx_bytes, IsUbx-sound, ubx_complete}

-- The array and the two lengths as the constructor leaves them; the bytes of the array are any.
abbrev fresh : Ubx
fresh = record {
  packet = replicate packet_size 0;
  state = before;
  payload_len = 0;
  packet_len = 0;
  calls = [];
}

abbrev good : Bytes
good = 181 ∷ 98 ∷ 1 ∷ 7 ∷ 2 ∷ 0 ∷ 9 ∷ 8 ∷ 27 ∷ 75 ∷ []

abbrev whole : List Bytes
whole = (7 ∷ 8 ∷ 181 ∷ 98 ∷ 3 ∷ 3 ∷ 8 ∷ 0 ∷ 181 ∷ 98 ∷ 1 ∷ 7 ∷ 2 ∷ 0 ∷ 9 ∷ 8 ∷ 27 ∷ 75 ∷ []) ∷ []

abbrev cut : List Bytes
cut =
    (7 ∷ [])
    ∷ (8 ∷ 181 ∷ 98 ∷ [])
    ∷ (3 ∷ 3 ∷ 8 ∷ 0 ∷ 181 ∷ 98 ∷ 1 ∷ [])
    ∷ (7 ∷ 2 ∷ 0 ∷ 9 ∷ 8 ∷ 27 ∷ 75 ∷ [])
    ∷ []

abbrev after_whole : Ubx
after_whole = record fresh {
  packet = good ++ 2 ∷ 0 ∷ 9 ∷ 8 ∷ 27 ∷ 75 ∷ replicate (packet_size - 16) 0;
  payload_len = 2;
  packet_len = 10;
  calls =
      write_rest (7 ∷ 8 ∷ [])
      ∷ count badcrc 1
      ∷ write_rest (181 ∷ 98 ∷ [])
      ∷ write_rest (3 ∷ 3 ∷ 8 ∷ 0 ∷ [])
      ∷ write_next good
      ∷ [];
}

abbrev after_cut : Ubx
after_cut = record after_whole {
  calls =
      write_rest (7 ∷ [])
      ∷ write_rest (8 ∷ [])
      ∷ count badcrc 1
      ∷ write_rest (181 ∷ 98 ∷ [])
      ∷ write_rest (3 ∷ 3 ∷ 8 ∷ 0 ∷ [])
      ∷ write_next good
      ∷ [];
}

AreBytes-zeroes : (n : ℕ) → AreBytes (replicate n 0)
AreBytes-zeroes zero = tt
AreBytes-zeroes (suc n) = (omega arith, AreBytes-zeroes n)

fresh-IsValid : IsValid fresh
fresh-IsValid = record {
  array = length-replicate packet_size zero;
  bytes = AreBytes-zeroes packet_size;
  progress = tt;
}

write_all-whole : write_all write fresh whole ≡ some after_whole
unfolding write_all write memchr len view advance blit valid_checksum fletcher
write_all-whole = refl

write_all-cut : write_all write fresh cut ≡ some after_cut
unfolding write_all write memchr len view advance blit valid_checksum fletcher
write_all-cut = refl

whole-AreBuffers : AreBuffers whole
whole-AreBuffers = omega arith

cut-AreBuffers : AreBuffers cut
cut-AreBuffers = omega arith

good-IsUbx : IsUbx good
unfolding sums_up fletcher
good-IsUbx = record { starts = refl; goes_on = refl; long = refl; sums = refl }

ubx_writes_example :
    (m' : Ubx) × (write_all write fresh whole ≡ some m')
    × Written ubx_format shape fresh (concat whole) m'
ubx_writes_example = ubx_writes whole fresh fresh-IsValid whole-AreBuffers

ubx_chunks_example :
    (events_of after_whole.calls ≡ events_of after_cut.calls)
    × (pending after_whole ≡ pending after_cut)
ubx_chunks_example =
    ubx_chunks whole fresh fresh-IsValid whole-AreBuffers after_whole write_all-whole cut after_cut
      cut-AreBuffers refl write_all-cut

ubx_bytes_example :
    bytes_of (events_of after_cut.calls) ++ pending after_cut ≡ pending fresh ++ concat cut
ubx_bytes_example = ubx_bytes cut fresh fresh-IsValid cut-AreBuffers after_cut write_all-cut

IsUbx-sound_example : AllPackets IsUbx (events_of after_cut.calls)
IsUbx-sound_example = IsUbx-sound cut fresh fresh-IsValid cut-AreBuffers after_cut write_all-cut tt

abbrev two : List Bytes
two = (good ++ 181 ∷ []) ∷ (98 ∷ 1 ∷ 7 ∷ 2 ∷ 0 ∷ 9 ∷ 8 ∷ 27 ∷ 75 ∷ []) ∷ []

abbrev after_two : Ubx
after_two = record fresh {
  packet = good ++ replicate (packet_size - 10) 0;
  payload_len = 2;
  packet_len = 10;
  calls = write_next good ∷ write_next good ∷ [];
}

write_all-two : write_all write fresh two ≡ some after_two
unfolding write_all write memchr len view advance blit valid_checksum fletcher
write_all-two = refl

ubx_complete_example :
    (events_of after_two.calls ≡ map packet_event (good ∷ good ∷ [])) × (pending after_two ≡ [])
unfolding pending
ubx_complete_example =
    ubx_complete two fresh fresh-IsValid (omega arith) after_two write_all-two (good ∷ good ∷ [])
      refl (good-IsUbx, (good-IsUbx, tt)) refl
