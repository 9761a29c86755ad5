-- ===== src/Filters/Rtcm/Tests.antt =====
-- Runs of RTCM_v3 on noise, a packet with a wrong checksum and a good packet, cut into buffers in two
-- ways: the good packet lies inside the other, and is found when the filter reads its own array again.
use uav_router.Base.{
  ℕ, zero, suc, ◌≡◌, refl, some, List, [], ◌∷◌, ◌++◌, map, ◌-◌, arith, Bytes, replicate,
  length-replicate,
}
use uav_router.Filters.Source.{AreBytes, memchr, len, view, advance, blit}
use uav_router.Filters.Calls.{write_next, write_rest, count, events_of, badcrc}
use uav_router.Filters.Scan.{packet as packet_event, bytes_of, AllPackets, concat}
use uav_router.Filters.Stream.{write_all, Written, AreBuffers}
use uav_router.Filters.Crc.{crc24}
use uav_router.Filters.Rtcm.Defs.{
  Rtcm, before, write, pending, valid_checksum, packet_size, crc_at, payload_of,
}
use uav_router.Filters.Rtcm.Packets.{rtcm_format, IsRtcm, sums_up, size_of}
use uav_router.Filters.Rtcm.Shape.{IsValid, shape}
use uav_router.Filters.Rtcm.Writes.{
  rtcm_writes, rtcm_chunks, rtcm_bytes, IsRtcm-sound, rtcm_complete,
}

-- The array and the two lengths as the constructor leaves them; the bytes of the array are any.
abbrev fresh : Rtcm
fresh = record {
  packet = replicate packet_size 0;
  state = before;
  payload_len = 0;
  packet_len = 0;
  calls = [];
}

abbrev good : Bytes
good = 211 ∷ 0 ∷ 2 ∷ 62 ∷ 208 ∷ 164 ∷ 224 ∷ 0 ∷ []

abbrev whole : List Bytes
whole = (7 ∷ 8 ∷ 211 ∷ 0 ∷ 5 ∷ 211 ∷ 0 ∷ 2 ∷ 62 ∷ 208 ∷ 164 ∷ 224 ∷ 0 ∷ []) ∷ []

abbrev cut : List Bytes
cut = (7 ∷ []) ∷ (8 ∷ 211 ∷ 0 ∷ []) ∷ (5 ∷ 211 ∷ 0 ∷ 2 ∷ []) ∷ (62 ∷ 208 ∷ 164 ∷ 224 ∷ 0 ∷ []) ∷ []

abbrev after_whole : Rtcm
after_whole = record fresh {
  packet = good ++ 164 ∷ 224 ∷ 0 ∷ replicate (packet_size - 11) 0;
  payload_len = 2;
  packet_len = 8;
  calls =
      write_rest (7 ∷ 8 ∷ [])
      ∷ count badcrc 1
      ∷ write_rest (211 ∷ [])
      ∷ write_rest (0 ∷ 5 ∷ [])
      ∷ write_next good
      ∷ [];
}

abbrev after_cut : Rtcm
after_cut = record after_whole {
  calls =
      write_rest (7 ∷ [])
      ∷ write_rest (8 ∷ [])
      ∷ count badcrc 1
      ∷ write_rest (211 ∷ [])
      ∷ write_rest (0 ∷ 5 ∷ [])
      ∷ write_next good
      ∷ [];
}

AreBytes-zeroes : (n : ℕ) → AreBytes (replicate n 0)
AreBytes-zeroes zero = tt
AreBytes-zeroes (suc n) = (omega arith, AreBytes-zeroes n)

fresh-IsValid : IsValid fresh
fresh-IsValid = record {
  array = length-replicate packet_size zero;
  bytes = AreBytes-zeroes packet_size;
  progress = tt;
}

write_all-whole : write_all write fresh whole ≡ some after_whole
unfolding write_all write memchr len view advance blit valid_checksum crc24 crc_at payload_of
write_all-whole = refl

write_all-cut : write_all write fresh cut ≡ some after_cut
unfolding write_all write memchr len view advance blit valid_checksum crc24 crc_at payload_of
write_all-cut = refl

whole-AreBuffers : AreBuffers whole
whole-AreBuffers = omega arith

cut-AreBuffers : AreBuffers cut
cut-AreBuffers = omega arith

good-IsRtcm : IsRtcm good
unfolding sums_up size_of crc24 crc_at payload_of
good-IsRtcm = record { starts = refl; long = refl; sums = refl }

rtcm_writes_example :
    (m' : Rtcm) × (write_all write fresh whole ≡ some m')
    × Written rtcm_format shape fresh (concat whole) m'
rtcm_writes_example = rtcm_writes whole fresh fresh-IsValid whole-AreBuffers

rtcm_chunks_example :
    (events_of after_whole.calls ≡ events_of after_cut.calls)
    × (pending after_whole ≡ pending after_cut)
rtcm_chunks_example =
    rtcm_chunks whole fresh fresh-IsValid whole-AreBuffers after_whole write_all-whole cut after_cut
      cut-AreBuffers refl write_all-cut

rtcm_bytes_example :
    bytes_of (events_of after_cut.calls) ++ pending after_cut ≡ pending fresh ++ concat cut
rtcm_bytes_example = rtcm_bytes cut fresh fresh-IsValid cut-AreBuffers after_cut write_all-cut

IsRtcm-sound_example : AllPackets IsRtcm (events_of after_cut.calls)
IsRtcm-sound_example =
    IsRtcm-sound cut fresh fresh-IsValid cut-AreBuffers after_cut write_all-cut tt

abbrev two : List Bytes
two = (good ++ 211 ∷ []) ∷ (0 ∷ 2 ∷ 62 ∷ 208 ∷ 164 ∷ 224 ∷ 0 ∷ []) ∷ []

abbrev after_two : Rtcm
after_two = record fresh {
  packet = good ++ replicate (packet_size - 8) 0;
  payload_len = 2;
  packet_len = 8;
  calls = write_next good ∷ write_next good ∷ [];
}

write_all-two : write_all write fresh two ≡ some after_two
unfolding write_all write memchr len view advance blit valid_checksum crc24 crc_at payload_of
write_all-two = refl

rtcm_complete_example :
    (events_of after_two.calls ≡ map packet_event (good ∷ good ∷ [])) × (pending after_two ≡ [])
unfolding pending
rtcm_complete_example =
    rtcm_complete two fresh fresh-IsValid (omega arith) after_two write_all-two (good ∷ good ∷ [])
      refl (good-IsRtcm, (good-IsRtcm, tt)) refl
