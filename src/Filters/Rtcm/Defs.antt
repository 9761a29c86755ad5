-- ===== src/Filters/Rtcm/Defs.antt =====
-- The state and the operations of class RTCM_v3 in src/filters/rtcm3.h.
use Prim.Native.Nat.{bit_and, bit_or}
use uav_router.Base.{
  ℕ, ◌+◌, ◌-◌, ◌*◌, ◌^◌, min, Option, none, some, Bool, List, [], ◌∷◌, ◌++◌, ◌==◌, if◌then◌else◌,
  Bytes, length, get_or, take,
}
use mathlib.Core.Option
use uav_router.Filters.Source.{Source, caller, own, len, view, advance, memchr, blit}
use uav_router.Filters.Calls.{Call, write_next, write_rest, count, badcrc}
use uav_router.Filters.Loop.{Round, again, rewrite, loop, rounds}
use uav_router.Filters.Crc.{crc24}

-- `PREAMBLE`
abbrev pub preamble : ℕ
preamble = 0xD3

-- `0x3ff + 6`
abbrev pub packet_size : ℕ
packet_size = 0x3ff + 6

-- `enum State {BEFORE, HEADER, LOAD}`
pub data State : Type 0 where
  before header load : State

-- `calls` are the calls made to the base class.
pub record Rtcm : Type 0 where
  pub packet : Bytes
  pub state : State
  pub payload_len : ℕ
  pub packet_len : ℕ
  pub calls : List Call

abbrev pub call : Call → Rtcm → Rtcm
call c m = record m { calls = m.calls ++ c ∷ [] }

-- `(int(packet[1])<<8 | packet[2]) & 0x3ff`
unfoldable pub payload_of : Bytes → ℕ
payload_of p = bit_and (bit_or (get_or p 1 0 * 2 ^ 8) (get_or p 2 0)) 0x3ff

-- `(crc[0] << 16) | (crc[1] << 8) | crc[2]` at an index of the array
unfoldable pub crc_at : Bytes → ℕ → ℕ
crc_at p i =
    bit_or (bit_or (get_or p i 0 * 2 ^ 16) (get_or p (i + 1) 0 * 2 ^ 8)) (get_or p (i + 2) 0)

unfoldable pub valid_checksum : Rtcm → Bool
valid_checksum m =
    let crc1 = crc_at m.packet (3 + m.payload_len) in
    let crc2 = crc24 (take (m.payload_len + 3) m.packet) in crc1 == crc2

-- case BEFORE, at the index that memchr gives
unfoldable pub step_before : Rtcm → Source → Option ℕ → Round Rtcm
step_before m src none = again (call (write_rest (view m.packet src)) m) (advance (len src) src)
step_before m src (some i) =
    let m1 = if i == 0 then m else call (write_rest (take i (view m.packet src))) m in
    again (record m1 { state = header; packet = blit m1.packet 0 (preamble ∷ []); packet_len = 1 })
      (advance 1 (advance i src))

-- case HEADER
unfoldable pub step_header : Rtcm → Source → Round Rtcm
step_header m src =
    let copy_len = min (3 - m.packet_len) (len src) in
    let m1 : Rtcm = record m {
      packet = blit m.packet m.packet_len (take copy_len (view m.packet src));
      packet_len = m.packet_len + copy_len;
    } in
    let src1 = advance copy_len src in
    if m1.packet_len == 3
    then again (record m1 { state = load; payload_len = payload_of m1.packet }) src1
    else again m1 src1

-- The packet is whole: it is handed on, or its first byte is given up and the rest read again.
unfoldable pub finish_packet : Rtcm → Source → Round Rtcm
finish_packet m src =
    if valid_checksum m
    then again (call (write_next (take m.packet_len m.packet)) m) src
    else rewrite (call (write_rest (take 1 m.packet)) (call (count badcrc 1) m))
        (own 1 (m.packet_len - 1)) src

-- case LOAD
unfoldable pub step_load : Rtcm → Source → Round Rtcm
unfolding finish_packet
step_load m src =
    let size = 6 + m.payload_len in
    let copy_len = min (size - m.packet_len) (len src) in
    let m1 : Rtcm = record m {
      packet = blit m.packet m.packet_len (take copy_len (view m.packet src));
      packet_len = m.packet_len + copy_len;
    } in
    let src1 = advance copy_len src in
    if m1.packet_len == size
    then finish_packet (record m1 { state = before }) src1
    else again m1 src1

unfoldable pub step_in : State → Rtcm → Source → Round Rtcm
unfolding step_before step_header step_load finish_packet
step_in before m src = step_before m src (memchr preamble (view m.packet src))
step_in header m src = step_header m src
step_in load m src = step_load m src

-- one round of `while(len) { switch (state) … }`
unfoldable pub step : Rtcm → Source → Round Rtcm
unfolding step_in
step m src = step_in m.state m src

-- how many bytes of the array wait for the rest of their packet
unfoldable pub waiting : Rtcm → ℕ
waiting m = elim m.state [ before ↦ 0 | header ↦ m.packet_len | load ↦ m.packet_len ]

-- The call returns `len` beside the new state; `none` would be a loop that outlasts its fuel.
unfoldable pub write : Rtcm → Bytes → Option (Rtcm × ℕ)
unfolding loop step waiting
write m buf =
    Option.map (λ m'. (m', length buf)) (loop step (rounds (waiting m) (length buf)) m (caller buf))

-- The bytes that wait.
unfoldable pub pending : Rtcm → Bytes
unfolding waiting
pending m = take (waiting m) m.packet
