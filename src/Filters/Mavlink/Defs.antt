-- ===== src/Filters/Mavlink/Defs.antt =====
-- The state and the operations of class Mavlink_v1 in src/filters/mavlink1.h.
use uav_router.Base.{
  ℕ, ◌+◌, ◌-◌, ◌*◌, ◌^◌, min, Option, none, some, Bool, List, [], ◌∷◌, ◌++◌, ◌==◌, if◌then◌else◌,
  Bytes, length, get_or, take, drop,
}
use mathlib.Core.Option
use uav_router.Filters.Source.{Source, caller, own, len, view, advance, memchr, blit}
use uav_router.Filters.Calls.{Call, write_next, write_rest, count, badcrc}
use uav_router.Filters.Loop.{Round, again, rewrite, loop, rounds}
use uav_router.Filters.Crc.{crc_accumulate, crc_calculate}

abbrev pub stx : ℕ
stx = 0xFE

abbrev pub packet_size : ℕ
packet_size = 263

-- `enum State {BEFORE, LEN, LOAD}`
pub data State : Type 0 where
  before length_next load : State

-- `none` is a null `_crc_extra`. `calls` are the calls made to the base class.
pub record Mavlink : Type 0 where
  pub packet : Bytes
  pub crc_extra : Option Bytes
  pub state : State
  pub packet_len : ℕ
  pub calls : List Call

abbrev pub call : Call → Mavlink → Mavlink
call c m = record m { calls = m.calls ++ c ∷ [] }

-- `_crc_extra[packet[5]]`, if the pointer is not null
unfoldable pub add_extra : Option Bytes → ℕ → ℕ → ℕ
add_extra none message crc = crc
add_extra (some table) message crc = crc_accumulate (get_or table message 0) crc

-- `packet_len` is at least 8 where this is called.
unfoldable pub valid_checksum : Mavlink → Bool
valid_checksum m =
    let crc = crc_calculate (take (get_or m.packet 1 0 + 5) (drop 1 m.packet)) in
    get_or m.packet (m.packet_len - 2) 0 + get_or m.packet (m.packet_len - 1) 0 * 2 ^ 8
    == add_extra m.crc_extra (get_or m.packet 5 0) crc

-- case BEFORE, at the index that memchr gives
unfoldable pub step_before : Mavlink → Source → Option ℕ → Round Mavlink
step_before m src none = again (call (write_rest (view m.packet src)) m) (advance (len src) src)
step_before m src (some i) =
    let m1 = if i == 0 then m else call (write_rest (take i (view m.packet src))) m in
    again (record m1 { state = length_next; packet = blit m1.packet 0 (stx ∷ []) })
      (advance 1 (advance i src))

-- case LEN
unfoldable pub step_length : Mavlink → Source → Round Mavlink
step_length m src =
    again
      (record m {
        packet = blit m.packet 1 (take 1 (view m.packet src));
        state = load;
        packet_len = 2;
      })
      (advance 1 src)

-- The packet is whole: it is handed on, or its first byte is given up and the rest read again.
unfoldable pub finish_packet : Mavlink → Source → Round Mavlink
finish_packet m src =
    if valid_checksum m
    then again (call (write_next (take m.packet_len m.packet)) m) src
    else rewrite (call (write_rest (take 1 m.packet)) (call (count badcrc 1) m))
        (own 1 (m.packet_len - 1)) src

-- case LOAD
unfoldable pub step_load : Mavlink → Source → Round Mavlink
unfolding finish_packet
step_load m src =
    let size = 8 + get_or m.packet 1 0 in
    let copy_len = min (size - m.packet_len) (len src) in
    let m1 : Mavlink = record m {
      packet = blit m.packet m.packet_len (take copy_len (view m.packet src));
      packet_len = m.packet_len + copy_len;
    } in
    let src1 = advance copy_len src in
    if m1.packet_len == size
    then finish_packet (record m1 { state = before }) src1
    else again m1 src1

unfoldable pub step_in : State → Mavlink → Source → Round Mavlink
unfolding step_before step_length step_load finish_packet
step_in before m src = step_before m src (memchr stx (view m.packet src))
step_in length_next m src = step_length m src
step_in load m src = step_load m src

-- one round of `while(len) { switch (state) … }`
unfoldable pub step : Mavlink → Source → Round Mavlink
unfolding step_in
step m src = step_in m.state m src

-- how many bytes of the array wait for the rest of their packet
unfoldable pub waiting : Mavlink → ℕ
waiting m = elim m.state [ before ↦ 0 | length_next ↦ 1 | load ↦ m.packet_len ]

-- The call returns `len` beside the new state; `none` would be a loop that outlasts its fuel.
unfoldable pub write : Mavlink → Bytes → Option (Mavlink × ℕ)
unfolding loop step waiting
write m buf =
    Option.map (λ m'. (m', length buf)) (loop step (rounds (waiting m) (length buf)) m (caller buf))

-- The bytes that wait.
unfoldable pub pending : Mavlink → Bytes
unfolding waiting
pending m = take (waiting m) m.packet
