-- ===== src/Tlv/Variant/Encode.antt =====
-- What `VARIANT_ENCODE` of variant_encode.cc writes, in plain arithmetic.
use Prim.Native.Nat.{bit_and, bit_or}
use lcy.Prelude.{
  ℕ, zero, suc, ◌+◌, ◌/◌, ◌%◌, ◌^◌, ◌≤◌, ◌<◌, ◌≡◌, refl, sym, ap, ◌∙◌, true, false, some, List, [],
  ◌∷◌, ◌++◌, ltb, if◌then◌else◌, length, drop, All, arith, Bool-cases, inl, inr, append_assoc,
  length-append, lt→ltb, ltb→ge, ge→ltb,
}
use mathlib.Core.Path.{ap₂}
use lcy.Prelude.Bits.{bit_and_low7, bit_or_top}
use lcy.Tlv.Width.{Width, u8, u16, u32, u64, bits, buflen}
use lcy.Tlv.Variant.{store, variant_encode_loop, variant_encode}

-- The groups of seven bits of `v`, the lowest first, each but the last with its top bit set; at
-- most `k + 1` groups.
unfoldable pub groups : ℕ → ℕ → List ℕ
groups zero v = v ∷ []
groups (suc k) v =
    let rest = groups k (v / 128) in if ltb 127 v then (v % 128 + 128) ∷ rest else v ∷ []

pub length-groups : (k v : ℕ) → (1 ≤ length (groups k v)) × (length (groups k v) ≤ k + 1)
unfolding groups
length-groups zero v = omega arith
length-groups (suc k) v = ground (arith, length-groups k (v / 128))

groups_bytes : (k v : ℕ) → v < 128 ^ suc k → All (λ b. b < 256) (groups k v)
unfolding groups
groups_bytes zero v h = omega arith
groups_bytes (suc k) v h = ground (arith, groups_bytes k (v / 128) (omega arith))

inner_byte : (v : ℕ) → bit_or (bit_and v 0x7f) 0x80 ≡ v % 128 + 128
inner_byte v = ap (λ (t : ℕ). bit_or t 0x80) (bit_and_low7 v) ∙ bit_or_top (v % 128) (omega arith)

store-append :
    (pre : List ℕ) (x : ℕ) (xs : List ℕ) (b : ℕ)
    → store (pre ++ (x ∷ xs)) (length pre) b ≡ some ((pre ++ b ∷ []) ++ xs)
unfolding store
store-append [] x xs b = refl
store-append (p ∷ pre) x xs b = rw (store-append pre x xs b)

length-snoc : (pre : List ℕ) (b : ℕ) → length (pre ++ (b ∷ [])) ≡ length pre + 1
length-snoc pre b = omega (arith, length-append pre (b ∷ []))

-- One round on a last group, and on one that is followed by another.
loop_last :
    (f v : ℕ) (pre : List ℕ) (x : ℕ) (old : List ℕ)
    → ltb 127 v ≡ false
    → variant_encode_loop (suc f) v (pre ++ (x ∷ old)) (length pre)
      ≡ some (length pre + 1, (pre ++ v ∷ []) ++ old)
unfolding variant_encode_loop
loop_last f v pre x old h =
    rw (h, variant_encode_loop, store-append pre x old (v % 256))
      (ap (λ (b : ℕ). some (length pre + 1, (pre ++ b ∷ []) ++ old))
        (omega (arith, ltb→ge 127 v h)))

loop_more :
    (f v : ℕ) (pre : List ℕ) (x : ℕ) (old : List ℕ)
    → ltb 127 v ≡ true
    → variant_encode_loop (suc f) v (pre ++ (x ∷ old)) (length pre)
      ≡ variant_encode_loop f (v / 128) ((pre ++ (v % 128 + 128) ∷ []) ++ old) (length pre + 1)
unfolding variant_encode_loop
loop_more f v pre x old h =
    rw (h, variant_encode_loop, store-append pre x old (bit_or (bit_and v 0x7f) 0x80), inner_byte v)

pub groups_last : (k v : ℕ) → ltb 127 v ≡ false → groups k v ≡ v ∷ []
unfolding groups
groups_last zero v h = refl
groups_last (suc k) v h = rw h

pub groups_more :
    (k v : ℕ) → ltb 127 v ≡ true → groups (suc k) v ≡ (v % 128 + 128) ∷ groups k (v / 128)
unfolding groups
groups_more k v h = rw h

loop_groups :
    (k f v : ℕ) (pre old : List ℕ)
    → v < 128 ^ suc k
    → k < f
    → k < length old
    → variant_encode_loop f v (pre ++ old) (length pre)
      ≡ some
          (length pre + length (groups k v), (pre ++ groups k v) ++ drop (length (groups k v)) old)
loop_groups k zero v pre old h hf ho = absurd (omega arith)
loop_groups k (suc f) v pre [] h hf ho = absurd (omega arith)
loop_groups zero (suc f) v pre (x ∷ old) h hf ho =
    let small : ltb 127 v ≡ false = ground arith in
    rw (groups_last 0 v small) (loop_last f v pre x old small)
loop_groups (suc k) (suc f) v pre (x ∷ old) h hf ho = elim (Bool-cases (ltb 127 v)) [
  | inr small ↦ rw (groups_last (suc k) v small) (loop_last f v pre x old small)
  | inl big ↦ rw (groups_more k v big) (
      loop_more f v pre x old big
      ∙ ap (variant_encode_loop f (v / 128) ((pre ++ (v % 128 + 128) ∷ []) ++ old))
          (sym (length-snoc pre (v % 128 + 128)))
      ∙ loop_groups k f (v / 128) (pre ++ (v % 128 + 128) ∷ []) old (omega arith) (omega arith)
          (omega arith)
      ∙ ap₂ (λ (n : ℕ) (l : List ℕ). some (n, l ++ drop (length (groups k (v / 128))) old))
          (omega (arith, length-snoc pre (v % 128 + 128)))
          (append_assoc pre ((v % 128 + 128) ∷ []) (groups k (v / 128))))
]

groups_fit : (w : Width) (v : ℕ) → v < 2 ^ bits w → v < 128 ^ suc (bits w / 7)
groups_fit u8 v h = omega arith
groups_fit u16 v h = omega arith
groups_fit u32 v h = omega arith
groups_fit u64 v h = omega arith

div7-lt-bits : (w : Width) → bits w / 7 < bits w
div7-lt-bits u8 = omega arith
div7-lt-bits u16 = omega arith
div7-lt-bits u32 = omega arith
div7-lt-bits u64 = omega arith

-- The bytes that stand for `v` in the format.
abbrev pub encoding : Width → ℕ → List ℕ
encoding w v = groups (bits w / 7) v

-- With room for `buflen w` bytes the encoder writes nowhere else, ends, and stores the encoding of
-- `v` at the front of the buffer: one byte at least and `buflen w` at most. It returns their
-- number and leaves what stands behind them.
pub variant_encode-encoding :
    (w : Width) (v : ℕ) (buf : List ℕ)
    → v < 2 ^ bits w
    → buflen w ≤ length buf
    → let out = encoding w v in
      (variant_encode w v buf ≡ some (length out, out ++ drop (length out) buf))
      × (1 ≤ length out)
      × (length out ≤ buflen w)
      × All (λ b. b < 256) out
unfolding variant_encode
variant_encode-encoding w v buf h room =
    let (lo, hi) = length-groups (bits w / 7) v in
    (
      rw (ge→ltb (length buf) (buflen w) room) (
          loop_groups (bits w / 7) (bits w) v [] buf (groups_fit w v h) (div7-lt-bits w)
            (omega arith)
          ∙ ap (λ (n : ℕ). some (n, encoding w v ++ drop (length (encoding w v)) buf))
              (omega arith)),
      lo,
      hi,
      groups_bytes (bits w / 7) v (groups_fit w v h),
    )

-- On a shorter buffer the encoder returns 0 and writes nothing.
pub variant_encode-short :
    (w : Width) (v : ℕ) (buf : List ℕ)
    → length buf < buflen w
    → variant_encode w v buf ≡ some (0, buf)
unfolding variant_encode
variant_encode-short w v buf h = rw (lt→ltb (length buf) (buflen w) h)
