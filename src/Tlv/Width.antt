-- ===== src/Tlv/Width.antt =====
-- The integer widths for which protocol/src/tlv/variant_encode.h declares its functions.
use lcy.Prelude.{ℕ, ◌+◌, ◌/◌}

-- One constructor for each pair of functions; `u8` stands for the pair of `int8_t` and `uint8_t`.
pub data Width : Type 0 where
  u8 u16 u32 u64 : Width

-- `sizeof(type) * 8`
abbrev pub bits : Width → ℕ
bits u8 = 8
bits u16 = 16
bits u32 = 32
bits u64 = 64

-- The width in which C++ computes with such a value: a narrow one is promoted to `int`.
abbrev pub promoted : Width → ℕ
promoted u8 = 32
promoted u16 = 32
promoted u32 = 32
promoted u64 = 64

-- `BUFLEN_UINT8` and its three siblings
abbrev pub buflen : Width → ℕ
buflen w = bits w / 7 + 1
