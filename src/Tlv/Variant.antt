-- ===== src/Tlv/Variant.antt =====
-- The base-128 codec of protocol/src/tlv/variant_encode.cc. A buffer is a list of bytes, and its
-- `len` is the length of the list.
pub mod Encode
pub mod RoundTrip
use Prim.Native.Nat.{bit_and, bit_or}
use lcy.Prelude.{
  ℕ, zero, suc, ◌+◌, ◌*◌, ◌/◌, ◌%◌, ◌^◌, Bool, true, false, Option, none, some, List, [], ◌∷◌, ◌==◌,
  ltb, if◌then◌else◌, ◌>>=◌, length,
}
use lcy.Tlv.Width.{Width, u8, u16, u32, u64, bits, promoted, buflen}

-- `buf[i] = b`; `none` is a write outside the buffer.
unfoldable pub store : List ℕ → ℕ → ℕ → Option (List ℕ)
store [] i b = none
store (x ∷ xs) zero b = some (b ∷ xs)
store (x ∷ xs) (suc i) b = do ys ← store xs i b; some (x ∷ ys)

-- The loop of `VARIANT_ENCODE`, with fuel; it ends with the count and the buffer.
unfoldable pub variant_encode_loop : ℕ → ℕ → List ℕ → ℕ → Option (ℕ × List ℕ)
variant_encode_loop zero v buf count = none
variant_encode_loop (suc fuel) v buf count = elim (ltb 0x7f v) [
  | true ↦ do
    buf' ← store buf count (bit_or (bit_and v 0x7f) 0x80)
    variant_encode_loop fuel (v / 2 ^ 7) buf' (count + 1)
  | false ↦ do buf' ← store buf count (v % 256); some (count + 1, buf')
]

-- Each round drops seven bits of `v`, so as many rounds as `v` has bits are enough.
unfoldable pub variant_encode : Width → ℕ → List ℕ → Option (ℕ × List ℕ)
variant_encode w v buf =
    if ltb (length buf) (buflen w) then some (0, buf) else variant_encode_loop (bits w) v buf 0

-- The loop of `VARIANT_DECODE` with `m` of its `max_len` rounds left, on the bytes from index `i`
-- on. `none` stands for `return false`, which leaves `v` as it is.
unfoldable pub variant_decode_loop : Width → ℕ → ℕ → ℕ → List ℕ → Option ℕ
variant_decode_loop w zero tmp shift buf = none
variant_decode_loop w (suc m) tmp shift [] = none
variant_decode_loop w (suc m) tmp shift (b ∷ buf) =
    let tmp' = bit_or tmp (bit_and b 0x7f * 2 ^ shift % 2 ^ promoted w) % 2 ^ bits w in
    let rest = variant_decode_loop w m tmp' (shift + 7) buf in
    if bit_and b 0x80 == 0 then some tmp' else rest

unfoldable pub variant_decode : Width → List ℕ → Option ℕ
variant_decode w buf = variant_decode_loop w (buflen w) 0 0 buf

-- The eight functions that the macros define.
abbrev pub variant_encode_uint8 : ℕ → List ℕ → Option (ℕ × List ℕ)
variant_encode_uint8 = variant_encode u8

abbrev pub variant_decode_uint8 : List ℕ → Option ℕ
variant_decode_uint8 = variant_decode u8

abbrev pub variant_encode_uint16 : ℕ → List ℕ → Option (ℕ × List ℕ)
variant_encode_uint16 = variant_encode u16

abbrev pub variant_decode_uint16 : List ℕ → Option ℕ
variant_decode_uint16 = variant_decode u16

abbrev pub variant_encode_uint32 : ℕ → List ℕ → Option (ℕ × List ℕ)
variant_encode_uint32 = variant_encode u32

abbrev pub variant_decode_uint32 : List ℕ → Option ℕ
variant_decode_uint32 = variant_decode u32

abbrev pub variant_encode_uint64 : ℕ → List ℕ → Option (ℕ × List ℕ)
variant_encode_uint64 = variant_encode u64

abbrev pub variant_decode_uint64 : List ℕ → Option ℕ
variant_decode_uint64 = variant_decode u64
