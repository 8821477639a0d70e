-- ===== src/Tlv/Zigzag/RoundTrip.antt =====
-- What the zigzag codec of variant_encode.cc computes, and where it is undone.
use Prim.Native.Nat.{bit_and}
use lcy.Prelude.{ℕ, suc, ◌+◌, ◌-◌, ◌*◌, ◌^◌, ◌<◌, ◌≡◌, ◌≢◌, ◌⊎◌, inl, inr, none, some, arith}
use native.Mathlib.Decide.{ℕ_discrete}
use lcy.Prelude.Bits.{bit_and-one}
use lcy.Prelude.Int.{ℤ, pos, negsuc}
use lcy.Tlv.Width.{Width, u8, u16, u32, u64, bits, promoted}
use lcy.Tlv.Zigzag.{InRange, zigzag_encode, zigzag_decode}

-- The zigzag order 0, -1, 1, -2, 2, …
abbrev pub zigzag : ℤ → ℕ
zigzag (pos n) = 2 * n
zigzag (negsuc n) = 2 * n + 1

-- The two values at which the negative branch overflows: the least one, and half of it.
abbrev pub Overflows : Width → ℤ → Type 0
Overflows w (pos n) = ⊥
Overflows w (negsuc n) = (suc n ≡ 2 ^ (promoted w - 1)) ⊎ (suc n ≡ 2 ^ (promoted w - 2))

-- Outside the two values the encoder yields the place in the zigzag order.
pub zigzag_encode-zigzag :
    (w : Width) (v : ℤ) → InRange w v → ¬ (Overflows w v) → zigzag_encode w v ≡ some (zigzag v)
unfolding zigzag_encode
zigzag_encode-zigzag u8 (pos n) r o = ground arith
zigzag_encode-zigzag u8 (negsuc n) r o = ground arith
zigzag_encode-zigzag u16 (pos n) r o = ground arith
zigzag_encode-zigzag u16 (negsuc n) r o = ground arith
zigzag_encode-zigzag u32 (pos n) r o = ground arith
zigzag_encode-zigzag u32 (negsuc n) r o = ground arith
zigzag_encode-zigzag u64 (pos n) r o = ground arith
zigzag_encode-zigzag u64 (negsuc n) r o = ground arith

-- At the two values the encoder overflows.
pub zigzag_encode-Overflows : (w : Width) (v : ℤ) → Overflows w v → zigzag_encode w v ≡ none
unfolding zigzag_encode
zigzag_encode-Overflows w (pos n) o = absurd o
zigzag_encode-Overflows u8 (negsuc n) o = ground arith
zigzag_encode-Overflows u16 (negsuc n) o = ground arith
zigzag_encode-Overflows u32 (negsuc n) o = ground arith
zigzag_encode-Overflows u64 (negsuc n) o = ground arith

even_bit : (n : ℕ) → bit_and (2 * n) 1 ≡ 0
even_bit n = omega (arith, bit_and-one (2 * n))

odd_bit : (n : ℕ) → bit_and (2 * n + 1) 1 ≡ 1
odd_bit n = omega (arith, bit_and-one (2 * n + 1))

-- Whether the type is computed with in its own width, where `v + 1` can wrap.
abbrev pub IsLeast : Width → ℤ → Type 0
IsLeast w v = v ≡ negsuc (2 ^ (promoted w - 1) - 1)

pub zigzag_decode-zigzag :
    (w : Width) (v : ℤ) → InRange w v → ¬ (IsLeast w v) → zigzag_decode w (zigzag v) ≡ v
unfolding zigzag_decode
zigzag_decode-zigzag u8 (pos n) r o = ground (arith, even_bit n)
zigzag_decode-zigzag u8 (negsuc n) r o = ground (arith, odd_bit n)
zigzag_decode-zigzag u16 (pos n) r o = ground (arith, even_bit n)
zigzag_decode-zigzag u16 (negsuc n) r o = ground (arith, odd_bit n)
zigzag_decode-zigzag u32 (pos n) r o = ground (arith, even_bit n)
zigzag_decode-zigzag u32 (negsuc n) r o = ground (arith, odd_bit n)
zigzag_decode-zigzag u64 (pos n) r o = ground (arith, even_bit n)
zigzag_decode-zigzag u64 (negsuc n) r o = ground (arith, odd_bit n)

Overflows-dec : (w : Width) (v : ℤ) → Dec (Overflows w v)
Overflows-dec w (pos n) = no (λ o. o)
Overflows-dec w (negsuc n) = elim (ℕ_discrete (suc n) (2 ^ (promoted w - 1))) [
  | yes e ↦ yes (inl e)
  | no e ↦ elim (ℕ_discrete (suc n) (2 ^ (promoted w - 2))) [
    | yes d ↦ yes (inr d)
    | no d ↦ no (λ o. elim o [ inl p ↦ e p | inr p ↦ d p ])
  ]
]

IsLeast-Overflows : (w : Width) (v : ℤ) → ¬ (Overflows w v) → ¬ (IsLeast w v)
IsLeast-Overflows w (pos n) o l = cc
IsLeast-Overflows u8 (negsuc n) o l = o (inl (ground arith))
IsLeast-Overflows u16 (negsuc n) o l = o (inl (ground arith))
IsLeast-Overflows u32 (negsuc n) o l = o (inl (ground arith))
IsLeast-Overflows u64 (negsuc n) o l = o (inl (ground arith))

zigzag-lt : (w : Width) (v : ℤ) → InRange w v → zigzag v < 2 ^ bits w
zigzag-lt u8 (pos n) r = omega arith
zigzag-lt u8 (negsuc n) r = omega arith
zigzag-lt u16 (pos n) r = omega arith
zigzag-lt u16 (negsuc n) r = omega arith
zigzag-lt u32 (pos n) r = omega arith
zigzag-lt u32 (negsuc n) r = omega arith
zigzag-lt u64 (pos n) r = omega arith
zigzag-lt u64 (negsuc n) r = omega arith

-- For each value of a signed type, either the encoder overflows and the value is one of the two
-- in `Overflows`, or the encoder yields an unsigned value of the same width, namely its place in
-- the zigzag order, and the decoder takes that back to the value.
pub zigzag_round_trip :
    (w : Width) (v : ℤ)
    → InRange w v
    → (Overflows w v × (zigzag_encode w v ≡ none))
      ⊎ ((zigzag_encode w v ≡ some (zigzag v))
          × (zigzag v < 2 ^ bits w)
          × (zigzag_decode w (zigzag v) ≡ v))
zigzag_round_trip w v r = elim (Overflows-dec w v) [
  | yes o ↦ inl (o, zigzag_encode-Overflows w v o)
  | no o ↦ inr (
    zigzag_encode-zigzag w v r o,
    zigzag-lt w v r,
    zigzag_decode-zigzag w v r (IsLeast-Overflows w v o),
  )
]

-- An unsigned value is decoded to the integer at its place in the zigzag order, except that the
-- greatest 32-bit and the greatest 64-bit value, at which `v + 1` wraps, are decoded to 0.
pub zigzag_decode_lem :
    (w : Width) (u : ℕ)
    → u < 2 ^ bits w
    → ((suc u ≢ 2 ^ promoted w) × (zigzag (zigzag_decode w u) ≡ u) × InRange w (zigzag_decode w u))
      ⊎ ((suc u ≡ 2 ^ promoted w) × (zigzag_decode w u ≡ pos 0))
unfolding zigzag_decode
zigzag_decode_lem u8 u h = ground (arith, bit_and-one u)
zigzag_decode_lem u16 u h = ground (arith, bit_and-one u)
zigzag_decode_lem u32 u h = elim (ℕ_discrete (suc u) (2 ^ 32)) [
  | yes e ↦ inr (e, ground (arith, bit_and-one u))
  | no e ↦ inl (e, ground (arith, bit_and-one u), ground (arith, bit_and-one u))
]
zigzag_decode_lem u64 u h = elim (ℕ_discrete (suc u) (2 ^ 64)) [
  | yes e ↦ inr (e, ground (arith, bit_and-one u))
  | no e ↦ inl (e, ground (arith, bit_and-one u), ground (arith, bit_and-one u))
]
