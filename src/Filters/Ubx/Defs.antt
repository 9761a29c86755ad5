-- ===== src/Filters/Ubx/Defs.antt =====
-- The state and the operations of class UBX in src/filters/ubx.h.
use uav_router.Base.{
  ℕ, ◌+◌, ◌-◌, ◌*◌, ◌^◌, min, Option, none, some, Bool, List, [], ◌∷◌, ◌++◌, ◌&&◌, ◌==◌,
  if◌then◌else◌, Bytes, length, get_or, take, drop,
}
use mathlib.Core.Option
use uav_router.Filters.Source.{Source, caller, own, len, view, advance, memchr, blit}
use uav_router.Filters.Calls.{Call, write_next, write_rest, count, badcrc}
use uav_router.Filters.Loop.{Round, again, rewrite, loop, rounds}
use uav_router.Filters.Crc.{fletcher}

abbrev pub preamble0 : ℕ
preamble0 = 0xb5

abbrev pub preamble1 : ℕ
preamble1 = 0x62

-- `std::numeric_limits<uint16_t>::max() + 8`
abbrev pub packet_size : ℕ
packet_size = 0xffff + 8

-- `enum State {BEFORE, PREAMBLE, HEADER, LOAD}`
pub data State : Type 0 where
  before preamble header load : State

-- `calls` are the calls made to the base class.
pub record Ubx : Type 0 where
  pub packet : Bytes
  pub state : State
  pub payload_len : ℕ
  pub packet_len : ℕ
  pub calls : List Call

abbrev pub call : Call → Ubx → Ubx
call c m = record m { calls = m.calls ++ c ∷ [] }

-- Two sums over the payload and the four bytes before it, against the two bytes behind it.
unfoldable pub valid_checksum : Ubx → Bool
valid_checksum m =
    let (crc1, crc2) = fletcher 0 0 (take (m.payload_len + 4) (drop 2 m.packet)) in
    crc1 == get_or m.packet (6 + m.payload_len) 0 && crc2 == get_or m.packet (7 + m.payload_len) 0

-- case BEFORE, at the index that memchr gives
unfoldable pub step_before : Ubx → Source → Option ℕ → Round Ubx
step_before m src none = again (call (write_rest (view m.packet src)) m) (advance (len src) src)
step_before m src (some i) =
    let m1 = if i == 0 then m else call (write_rest (take i (view m.packet src))) m in
    again (record m1 { state = preamble; packet = blit m1.packet 0 (preamble0 ∷ []) })
      (advance 1 (advance i src))

-- case PREAMBLE; a byte that does not fit is left in the source
unfoldable pub step_preamble : Ubx → Source → Round Ubx
step_preamble m src =
    if get_or (view m.packet src) 0 0 == preamble1
    then again
        (record m { packet = blit m.packet 1 (preamble1 ∷ []); state = header; packet_len = 2 })
        (advance 1 src)
    else again (call (write_rest (take 1 m.packet)) (record m { state = before })) src

-- case HEADER
unfoldable pub step_header : Ubx → Source → Round Ubx
step_header m src =
    let copy_len = min (6 - m.packet_len) (len src) in
    let m1 : Ubx = record m {
      packet = blit m.packet m.packet_len (take copy_len (view m.packet src));
      packet_len = m.packet_len + copy_len;
    } in
    let src1 = advance copy_len src in
    if m1.packet_len == 6
    then again
        (record m1 {
          state = load;
          payload_len = get_or m1.packet 4 0 + get_or m1.packet 5 0 * 2 ^ 8;
        })
        src1
    else again m1 src1

-- The packet is whole: it is handed on, or its first two bytes are given up and the rest read again.
unfoldable pub finish_packet : Ubx → Source → Round Ubx
finish_packet m src =
    if valid_checksum m
    then again (call (write_next (take m.packet_len m.packet)) m) src
    else rewrite (call (write_rest (take 2 m.packet)) (call (count badcrc 1) m))
        (own 2 (m.packet_len - 2)) src

-- case LOAD
unfoldable pub step_load : Ubx → Source → Round Ubx
unfolding finish_packet
step_load m src =
    let size = 8 + m.payload_len in
    let copy_len = min (size - m.packet_len) (len src) in
    let m1 : Ubx = record m {
      packet = blit m.packet m.packet_len (take copy_len (view m.packet src));
      packet_len = m.packet_len + copy_len;
    } in
    let src1 = advance copy_len src in
    if m1.packet_len == size
    then finish_packet (record m1 { state = before }) src1
    else again m1 src1

unfoldable pub step_in : State → Ubx → Source → Round Ubx
unfolding step_before step_preamble step_header step_load finish_packet
step_in before m src = step_before m src (memchr preamble0 (view m.packet src))
step_in preamble m src = step_preamble m src
step_in header m src = step_header m src
step_in load m src = step_load m src

-- one round of `while(len) { switch (state) … }`
unfoldable pub step : Ubx → Source → Round Ubx
unfolding step_in
step m src = step_in m.state m src

-- how many bytes of the array wait for the rest of their packet
unfoldable pub waiting : Ubx → ℕ
waiting m = elim m.state [ before ↦ 0 | preamble ↦ 1 | header ↦ m.packet_len | load ↦ m.packet_len ]

-- The call returns `len` beside the new state; `none` would be a loop that outlasts its fuel.
unfoldable pub write : Ubx → Bytes → Option (Ubx × ℕ)
unfolding loop step waiting
write m buf =
    Option.map (λ m'. (m', length buf)) (loop step (rounds (waiting m) (length buf)) m (caller buf))

-- The bytes that wait.
unfoldable pub pending : Ubx → Bytes
unfolding waiting
pending m = take (waiting m) m.packet
