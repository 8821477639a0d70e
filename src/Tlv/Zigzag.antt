-- ===== src/Tlv/Zigzag.antt =====
-- The zigzag codec of protocol/src/tlv/variant_encode.cc. An `intN_t` is an integer in range, a
-- `uintN_t` a number below 2 ^ N. `none` is a signed overflow, which C++ leaves undefined.
pub mod RoundTrip
use Prim.Native.Nat.{bit_and}
use lcy.Prelude.{
  ℕ, suc, ◌+◌, ◌-◌, ◌*◌, ◌/◌, ◌%◌, ◌^◌, ◌<◌, Option, none, some, ◌==◌, ltb, if◌then◌else◌, ◌>>=◌,
}
use lcy.Prelude.Int.{ℤ, pos, negsuc}
use lcy.Tlv.Width.{Width, u8, u16, u32, u64, bits, promoted}

abbrev pub InRange : Width → ℤ → Type 0
InRange w (pos n) = n < 2 ^ (bits w - 1)
InRange w (negsuc n) = n < 2 ^ (bits w - 1)

-- `-v` at v = -m, in `k` bits
abbrev pub negate : ℕ → ℕ → Option ℕ
negate k m = if ltb m (2 ^ (k - 1)) then some m else none

-- `s - 1`, for the bit pattern `s` of a signed number of `k` bits
abbrev pub decrement : ℕ → ℕ → Option ℕ
decrement k s = if s == 2 ^ (k - 1) then none else some ((s + 2 ^ k - 1) % 2 ^ k)

-- The branches of `ZIGZAG_ENCODE`: v >= 0, and v < 0 as v = -(n + 1).
unfoldable pub zigzag_encode : Width → ℤ → Option ℕ
zigzag_encode w (pos n) = some (n * 2 % 2 ^ promoted w % 2 ^ bits w)
zigzag_encode w (negsuc n) = do
  m ← negate (promoted w) (suc n)
  d ← decrement (promoted w) (m * 2 % 2 ^ promoted w)
  some (d % 2 ^ bits w)

-- The conversion of a number to a signed type of `k` bits.
abbrev pub to_signed : ℕ → ℕ → ℤ
to_signed k n = let m = n % 2 ^ k in if ltb m (2 ^ (k - 1)) then pos m else negsuc (2 ^ k - m - 1)

-- `-x`, converted to a signed type of `k` bits
abbrev pub negate_signed : ℕ → ℤ → ℤ
negate_signed k (pos n) = to_signed k (2 ^ k - n % 2 ^ k)
negate_signed k (negsuc n) = to_signed k (suc n)

-- The branches of `ZIGZAG_DECODE`. Its `-` never overflows: what it negates is promoted, or is
-- below 2 ^ (bits - 1).
unfoldable pub zigzag_decode : Width → ℕ → ℤ
zigzag_decode w v =
    if bit_and v 1 == 0
    then to_signed (bits w) (v / 2)
    else negate_signed (bits w) (to_signed (bits w) ((v + 1) % 2 ^ promoted w / 2))

-- The eight functions that the macros define.
abbrev pub zigzag_encode_int8 : ℤ → Option ℕ
zigzag_encode_int8 = zigzag_encode u8

abbrev pub zigzag_decode_uint8 : ℕ → ℤ
zigzag_decode_uint8 = zigzag_decode u8

abbrev pub zigzag_encode_int16 : ℤ → Option ℕ
zigzag_encode_int16 = zigzag_encode u16

abbrev pub zigzag_decode_uint16 : ℕ → ℤ
zigzag_decode_uint16 = zigzag_decode u16

abbrev pub zigzag_encode_int32 : ℤ → Option ℕ
zigzag_encode_int32 = zigzag_encode u32

abbrev pub zigzag_decode_uint32 : ℕ → ℤ
zigzag_decode_uint32 = zigzag_decode u32

abbrev pub zigzag_encode_int64 : ℤ → Option ℕ
zigzag_encode_int64 = zigzag_encode u64

abbrev pub zigzag_decode_uint64 : ℕ → ℤ
zigzag_decode_uint64 = zigzag_decode u64
