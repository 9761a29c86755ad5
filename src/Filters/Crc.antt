-- ===== src/Filters/Crc.antt =====
-- The checksums of the packet formats: CRC-16/X.25 of MAVLink (src/filters/mavlink1.h), the
-- Fletcher sums of UBX (src/filters/ubx.h) and CRC-24Q of RTCM 3 (src/filters/rtcm3.h). The
-- arguments are bytes, and each assignment to a narrow integer keeps its wrap.
use Prim.Native.Nat.{bit_xor, bit_and}
use uav_router.Base.{ℕ, zero, suc, ◌+◌, ◌*◌, ◌/◌, ◌%◌, ◌^◌, [], ◌∷◌, ◌==◌, if◌then◌else◌, Bytes}

abbrev pub x25_init_crc : ℕ
x25_init_crc = 0xffff

-- `tmp` is a uint8_t; the last line is assigned to a uint16_t.
unfoldable pub crc_accumulate : ℕ → ℕ → ℕ
crc_accumulate byte crc =
    let tmp0 = bit_xor byte (crc % 2 ^ 8) in
    let tmp = bit_xor tmp0 (tmp0 * 2 ^ 4) % 2 ^ 8 in
    bit_xor (bit_xor (bit_xor (crc / 2 ^ 8) (tmp * 2 ^ 8)) (tmp * 2 ^ 3)) (tmp / 2 ^ 4) % 2 ^ 16

accumulate_all : ℕ → Bytes → ℕ
accumulate_all crc [] = crc
accumulate_all crc (b ∷ bs) = accumulate_all (crc_accumulate b crc) bs

unfoldable pub crc_calculate : Bytes → ℕ
unfolding accumulate_all crc_accumulate
crc_calculate bs = accumulate_all x25_init_crc bs

-- The table that the message's byte 5 selects the seed of the checksum from.
abbrev pub crc_extra_default : Bytes
crc_extra_default =
    50 ∷ 124 ∷ 137 ∷ 0 ∷ 237 ∷ 217 ∷ 104 ∷ 119 ∷ 0 ∷ 0 ∷ 0 ∷ 89 ∷ 0 ∷ 0 ∷ 0 ∷ 0 ∷ 0 ∷ 0 ∷ 0 ∷ 0
    ∷ 214 ∷ 159 ∷ 220 ∷ 168 ∷ 24 ∷ 23 ∷ 170 ∷ 144 ∷ 67 ∷ 115 ∷ 39 ∷ 246 ∷ 185 ∷ 104 ∷ 237 ∷ 244
    ∷ 222 ∷ 212 ∷ 9 ∷ 254 ∷ 230 ∷ 28 ∷ 28 ∷ 132 ∷ 221 ∷ 232 ∷ 11 ∷ 153 ∷ 41 ∷ 39 ∷ 0 ∷ 0 ∷ 0 ∷ 0
    ∷ 15 ∷ 3 ∷ 0 ∷ 0 ∷ 0 ∷ 0 ∷ 0 ∷ 153 ∷ 183 ∷ 51 ∷ 82 ∷ 118 ∷ 148 ∷ 21 ∷ 0 ∷ 243 ∷ 124 ∷ 0 ∷ 0 ∷ 38
    ∷ 20 ∷ 158 ∷ 152 ∷ 143 ∷ 0 ∷ 0 ∷ 0 ∷ 106 ∷ 49 ∷ 22 ∷ 29 ∷ 12 ∷ 241 ∷ 233 ∷ 0 ∷ 231 ∷ 183 ∷ 63
    ∷ 54 ∷ 0 ∷ 0 ∷ 0 ∷ 0 ∷ 0 ∷ 0 ∷ 0 ∷ 175 ∷ 102 ∷ 158 ∷ 208 ∷ 56 ∷ 93 ∷ 211 ∷ 108 ∷ 32 ∷ 185 ∷ 84
    ∷ 34 ∷ 0 ∷ 124 ∷ 119 ∷ 4 ∷ 76 ∷ 128 ∷ 56 ∷ 116 ∷ 134 ∷ 237 ∷ 203 ∷ 250 ∷ 87 ∷ 203 ∷ 220 ∷ 25
    ∷ 226 ∷ 0 ∷ 29 ∷ 223 ∷ 85 ∷ 6 ∷ 229 ∷ 203 ∷ 1 ∷ 0 ∷ 0 ∷ 0 ∷ 0 ∷ 0 ∷ 0 ∷ 0 ∷ 0 ∷ 0 ∷ 0 ∷ 13 ∷ 49
    ∷ 0 ∷ 134 ∷ 219 ∷ 208 ∷ 188 ∷ 84 ∷ 22 ∷ 19 ∷ 21 ∷ 134 ∷ 0 ∷ 78 ∷ 68 ∷ 189 ∷ 127 ∷ 154 ∷ 21 ∷ 21
    ∷ 144 ∷ 1 ∷ 234 ∷ 73 ∷ 181 ∷ 22 ∷ 83 ∷ 167 ∷ 138 ∷ 234 ∷ 240 ∷ 47 ∷ 189 ∷ 52 ∷ 174 ∷ 0 ∷ 0 ∷ 0
    ∷ 0 ∷ 0 ∷ 0 ∷ 0 ∷ 0 ∷ 0 ∷ 0 ∷ 0 ∷ 0 ∷ 0 ∷ 0 ∷ 0 ∷ 0 ∷ 0 ∷ 0 ∷ 0 ∷ 0 ∷ 0 ∷ 0 ∷ 0 ∷ 0 ∷ 0 ∷ 0 ∷ 0
    ∷ 0 ∷ 0 ∷ 0 ∷ 0 ∷ 0 ∷ 0 ∷ 0 ∷ 0 ∷ 0 ∷ 0 ∷ 0 ∷ 0 ∷ 0 ∷ 0 ∷ 0 ∷ 0 ∷ 0 ∷ 0 ∷ 0 ∷ 0 ∷ 0 ∷ 0 ∷ 0 ∷ 0
    ∷ 0 ∷ 0 ∷ 0 ∷ 0 ∷ 0 ∷ 0 ∷ 0 ∷ 0 ∷ 0 ∷ 0 ∷ 0 ∷ 0 ∷ 0 ∷ 0 ∷ 0 ∷ 8 ∷ 204 ∷ 49 ∷ 170 ∷ 44 ∷ 83 ∷ 46
    ∷ 0 ∷ []

-- `crc2 += (crc1 += *ptr++)` over uint8_t.
unfoldable pub fletcher : ℕ → ℕ → Bytes → ℕ × ℕ
fletcher crc1 crc2 [] = (crc1, crc2)
fletcher crc1 crc2 (b ∷ bs) = let c1 = (crc1 + b) % 2 ^ 8 in fletcher c1 ((crc2 + c1) % 2 ^ 8) bs

-- `crct <<= 1; if (crct & 0x1000000) crct ^= 0x1864CFB;`, `rounds` times, over uint32_t.
crc24_shift : ℕ → ℕ → ℕ
crc24_shift zero crct = crct
crc24_shift (suc rounds) crct =
    let shifted = crct * 2 % 2 ^ 32 in
    crc24_shift rounds
      (if bit_and shifted 0x1000000 == 0 then shifted else bit_xor shifted 0x1864CFB)

-- `idx` is a uint8_t.
crc24_byte : ℕ → ℕ → ℕ
crc24_byte crc byte =
    let idx = bit_xor (crc / 2 ^ 16) byte % 2 ^ 8 in
    bit_xor (crc * 2 ^ 8 % 2 ^ 24) (crc24_shift 8 (idx * 2 ^ 16))

crc24_all : ℕ → Bytes → ℕ
crc24_all crc [] = crc
crc24_all crc (b ∷ bs) = crc24_all (crc24_byte crc b) bs

unfoldable pub crc24 : Bytes → ℕ
unfolding crc24_all crc24_byte crc24_shift
crc24 bs = crc24_all 0 bs
