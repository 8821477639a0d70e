-- ===== src/Tlv/Variant/RoundTrip.antt =====
-- `VARIANT_DECODE` of variant_encode.cc undoes `VARIANT_ENCODE`.
use Prim.Native.Nat.{bit_and, bit_or}
use lcy.Prelude.{
  ℕ, zero, suc, ◌+◌, ◌*◌, ◌/◌, ◌%◌, ◌^◌, ◌≤◌, ◌<◌, ◌≡◌, refl, sym, ap, ◌∙◌, false, none, some, List,
  [], ◌∷◌, ◌++◌, ltb, ◌==◌, length, length-append, drop, All, ◌≢◌, arith, Bool-cases, inl, inr,
  ltb→ge,
}
use lcy.Prelude.Bits.{bit_and_low7, bit_and_top, bit_or_disjoint}
use lcy.Tlv.Width.{Width, u8, u16, u32, u64, bits, buflen, promoted}
use lcy.Tlv.Variant.{variant_decode_loop, variant_decode, variant_encode}
use lcy.Tlv.Variant.Encode.{groups, groups_last, groups_more, encoding, variant_encode-encoding}
use mathlib.Core.List.{head-eq_of_cons-eq, tail-eq_of_cons-eq}
use native.Mathlib.Nat.{mod-eq_of_lt, div-add-mod}
use native.Mathlib.Numerals.{towards_suc}

bits-le-promoted : (w : Width) (n : ℕ) → n < 2 ^ bits w → n < 2 ^ promoted w
bits-le-promoted u8 n h = omega arith
bits-le-promoted u16 n h = omega arith
bits-le-promoted u32 n h = omega arith
bits-le-promoted u64 n h = omega arith

-- What one round makes of `tmp`, where the new bits fit and lie above the old ones.
add_group :
    (w : Width) (tmp g shift : ℕ)
    → tmp < 2 ^ shift
    → tmp + g * 2 ^ shift < 2 ^ bits w
    → bit_or tmp (g * 2 ^ shift % 2 ^ promoted w) % 2 ^ bits w ≡ tmp + g * 2 ^ shift
add_group w tmp g shift ht hs =
    let fits : g * 2 ^ shift < 2 ^ bits w = omega arith in
    rw (mod-eq_of_lt (bits-le-promoted w (g * 2 ^ shift) fits), bit_or_disjoint shift tmp g ht)
      (mod-eq_of_lt hs)

round_last :
    (w : Width) (m tmp shift g : ℕ) (rest : List ℕ)
    → g < 128
    → tmp < 2 ^ shift
    → tmp + g * 2 ^ shift < 2 ^ bits w
    → variant_decode_loop w (suc m) tmp shift (g ∷ rest) ≡ some (tmp + g * 2 ^ shift)
unfolding variant_decode_loop
round_last w m tmp shift g rest hg ht hs =
    let low : bit_and g 0x7f ≡ g = omega (arith, bit_and_low7 g) in
    let top : bit_and g 0x80 ≡ 0 = omega (arith, bit_and_top g) in
    rw (low, top, add_group w tmp g shift ht hs)

round_more :
    (w : Width) (m tmp shift g : ℕ) (rest : List ℕ)
    → g < 128
    → tmp < 2 ^ shift
    → tmp + g * 2 ^ shift < 2 ^ bits w
    → variant_decode_loop w (suc m) tmp shift ((g + 128) ∷ rest)
      ≡ variant_decode_loop w m (tmp + g * 2 ^ shift) (shift + 7) rest
unfolding variant_decode_loop
round_more w m tmp shift g rest hg ht hs =
    let low : bit_and (g + 128) 0x7f ≡ g = omega (arith, bit_and_low7 (g + 128)) in
    let top : bit_and (g + 128) 0x80 ≡ 128 = omega (arith, bit_and_top (g + 128)) in
    rw (low, top, add_group w tmp g shift ht hs)

shift_seven : (s : ℕ) → 2 ^ (s + 7) ≡ 128 * 2 ^ s
shift_seven s = simp towards_suc (omega arith)

split_group : (v s : ℕ) → v * 2 ^ s ≡ v % 128 * 2 ^ s + v / 128 * 2 ^ (s + 7)
split_group v s = omega (
  arith,
  ap (λ (t : ℕ). t * 2 ^ s) (div-add-mod v 128),
  ap (λ (t : ℕ). v / 128 * t) (shift_seven s),
)

-- `tmp` holds the bits below `shift`, and `v` is what is still to be read.
decode_groups :
    (w : Width) (k v tmp shift : ℕ) (rest : List ℕ)
    → v < 128 ^ suc k
    → tmp < 2 ^ shift
    → tmp + v * 2 ^ shift < 2 ^ bits w
    → variant_decode_loop w (suc k) tmp shift (groups k v ++ rest) ≡ some (tmp + v * 2 ^ shift)
decode_groups w zero v tmp shift rest hv ht hs =
    let small : ltb 127 v ≡ false = ground arith in
    rw (groups_last 0 v small) (round_last w 0 tmp shift v rest (omega arith) ht hs)
decode_groups w (suc k) v tmp shift rest hv ht hs = elim (Bool-cases (ltb 127 v)) [
  | inr small ↦
      rw (groups_last (suc k) v small)
        (round_last w (suc k) tmp shift v rest (omega (arith, ltb→ge 127 v small)) ht hs)
  | inl big ↦
      let g : ℕ = v % 128 in
      let split : v * 2 ^ shift ≡ g * 2 ^ shift + v / 128 * 2 ^ (shift + 7) = split_group v shift in
      let below : g * 2 ^ shift + 2 ^ shift ≤ 128 * 2 ^ shift = grind arith in
      rw (groups_more k v big) (
        round_more w (suc k) tmp shift g (groups k (v / 128) ++ rest) (omega arith) ht (omega arith)
        ∙ decode_groups w k (v / 128) (tmp + g * 2 ^ shift) (shift + 7) rest (omega arith)
            (omega (arith, shift_seven shift)) (omega arith)
        ∙ ap some (omega arith))
]

-- The decoder reads an encoding back and does not look at what follows it.
pub variant_decode-encoding :
    (w : Width) (v : ℕ) (rest : List ℕ)
    → v < 2 ^ bits w
    → variant_decode w (encoding w v ++ rest) ≡ some v
unfolding variant_decode
variant_decode-encoding u8 v rest h =
    decode_groups u8 1 v 0 0 rest (omega arith) (omega arith) (omega arith) ∙ ap some (omega arith)
variant_decode-encoding u16 v rest h =
    decode_groups u16 2 v 0 0 rest (omega arith) (omega arith) (omega arith) ∙ ap some (omega arith)
variant_decode-encoding u32 v rest h =
    decode_groups u32 4 v 0 0 rest (omega arith) (omega arith) (omega arith) ∙ ap some (omega arith)
variant_decode-encoding u64 v rest h =
    decode_groups u64 9 v 0 0 rest (omega arith) (omega arith) (omega arith) ∙ ap some (omega arith)

-- What the decoder of a width makes of a buffer that the encoder of that width has filled, at
-- every value of the width and every buffer of at least `buflen w` bytes, is that value.
pub variant_decode-encode :
    (w : Width) (v : ℕ) (buf : List ℕ)
    → v < 2 ^ bits w
    → buflen w ≤ length buf
    → (n : ℕ) × (buf' : List ℕ) × (variant_encode w v buf ≡ some (n, buf'))
      × (variant_decode w buf' ≡ some v)
variant_decode-encode w v buf h room =
    let out = encoding w v in
    (
      length out,
      out ++ drop (length out) buf,
      (variant_encode-encoding w v buf h room).0,
      variant_decode-encoding w v (drop (length out) buf) h,
    )

-- A run of continuation bytes.
abbrev Continues : List ℕ → Type 0
Continues buf = All (λ b. (128 ≤ b) × (b < 256)) buf

loop-Continues :
    (w : Width) (m tmp shift : ℕ) (buf : List ℕ)
    → Continues buf
    → variant_decode_loop w m tmp shift buf ≡ none
unfolding variant_decode_loop
loop-Continues w zero tmp shift buf c = refl
loop-Continues w (suc m) tmp shift [] c = refl
loop-Continues w (suc m) tmp shift (b ∷ buf) (cb, cs) =
    rw top (loop-Continues w m _ (shift + 7) buf cs)
  where
    top : (bit_and b 0x80 == 0) ≡ false
    top = ground (arith, bit_and_top b)

one_byte : (v f x : ℕ) (front back : List ℕ) → v ∷ [] ≢ f ∷ (front ++ (x ∷ back))
one_byte v f x front back e = omega (arith, ap length e, length-append front (x ∷ back))

fronts-Continues :
    (k v x : ℕ) (front back : List ℕ) → groups k v ≡ front ++ (x ∷ back) → Continues front
fronts-Continues k v x [] back e = tt
fronts-Continues zero v x (f ∷ front) back e =
    absurd (one_byte v f x front back (unfold groups in e))
fronts-Continues (suc k) v x (f ∷ front) back e = elim (Bool-cases (ltb 127 v)) [
  | inr small ↦ absurd (one_byte v f x front back (sym (groups_last (suc k) v small) ∙ e))
  | inl big ↦
      let e' : (v % 128 + 128) ∷ groups k (v / 128) ≡ f ∷ (front ++ (x ∷ back)) =
        sym (groups_more k v big) ∙ e in
      let first : v % 128 + 128 ≡ f = head-eq_of_cons-eq e' in
      (
        (omega arith, omega arith),
        fronts-Continues k (v / 128) x front back (tail-eq_of_cons-eq e'),
      )
]

-- The decoder refuses every proper front of an encoding: no byte in it ends the number.
pub variant_decode_truncated :
    (w : Width) (v x : ℕ) (front back : List ℕ)
    → encoding w v ≡ front ++ (x ∷ back)
    → variant_decode w front ≡ none
unfolding variant_decode
variant_decode_truncated w v x front back e =
    loop-Continues w (buflen w) 0 0 front (fronts-Continues (bits w / 7) v x front back e)
