-- ===== src/Prelude/Bits.antt =====
-- Laws of `&` and `|` at variables. The native operations compute at numerals only.
use Prim.Native.Nat.{
  ℕ, zero, suc, ◌+◌, ◌*◌, ◌/◌, ◌%◌, ◌^◌, ◌≤◌, ◌<◌, min, max, bit_and, bit_or, digits,
  bit_and-bitwise, bit_or-bitwise,
}
use mathlib.Core.Path.{◌≡◌, refl, sym, ap, ◌∙◌}
use mathlib.Core.Logic.{inl, inr}
use mathlib.Core.Bool.{Bool, true, ◌&&◌}
use native.Mathlib.Omega.{arith}
use lcy.Prelude.Tests.{◌==◌, ==→eq, ==→ne, Bool-cases}
use native.Mathlib.Nat.{pow-suc}

-- Once the fuel reaches the first number, more of it does not count.
module _ (base : ℕ → ℕ) (f : ℕ → ℕ → ℕ) where
  digits_once : (n a b : ℕ) → a ≤ n → digits base f (suc n) a b ≡ digits base f n a b
  digits_once zero zero b h = refl
  digits_once zero (suc a) b h = absurd (omega arith)
  digits_once (suc n) zero b h = refl
  digits_once (suc n) (suc a) b h =
      let half : suc a / 2 ≤ n = omega arith in
      ap (λ (t : ℕ). t * 2 + f (suc a % 2) (b % 2)) (digits_once n (suc a / 2) (b / 2) half)

  digits_settle : (n a b : ℕ) → a ≤ n → digits base f n a b ≡ digits base f a a b
  digits_settle zero a b h = let none_left : a ≡ 0 = omega arith in rw none_left
  digits_settle (suc n) a b h = elim (Bool-cases (a == suc n)) [
    | inl e ↦ let whole : a ≡ suc n = ==→eq a (suc n) e in rw whole
    | inr e ↦
        let below : a ≤ n = omega (arith, ==→ne a (suc n) e) in
        digits_once n a b below ∙ digits_settle n a b below
  ]

-- The lowest digit of `a & b` and of `a | b`.
bit_and_step : (a b : ℕ) → bit_and a b ≡ bit_and (a / 2) (b / 2) * 2 + min (a % 2) (b % 2)
bit_and_step zero b = rw (bit_and-bitwise 0 b, bit_and-bitwise 0 (b / 2)) (omega arith)
bit_and_step (suc a) b =
    bit_and-bitwise (suc a) b
    ∙ ap (λ (t : ℕ). t * 2 + min (suc a % 2) (b % 2))
        (digits_settle (λ b. zero) min a (suc a / 2) (b / 2) (omega arith)
          ∙ sym (bit_and-bitwise (suc a / 2) (b / 2)))

bit_or_step : (a b : ℕ) → bit_or a b ≡ bit_or (a / 2) (b / 2) * 2 + max (a % 2) (b % 2)
bit_or_step zero b = rw (bit_or-bitwise 0 b, bit_or-bitwise 0 (b / 2)) (omega arith)
bit_or_step (suc a) b =
    bit_or-bitwise (suc a) b
    ∙ ap (λ (t : ℕ). t * 2 + max (suc a % 2) (b % 2))
        (digits_settle (λ b. b) max a (suc a / 2) (b / 2) (omega arith)
          ∙ sym (bit_or-bitwise (suc a / 2) (b / 2)))

-- Where no bit is left on the right, `&` is 0.
bit_and_none : (k a : ℕ) → a ≤ k → bit_and a 0 ≡ 0
bit_and_none k zero h = refl
bit_and_none zero (suc a) h = absurd (omega arith)
bit_and_none (suc k) (suc a) h = bit_and_step (suc a) 0 ∙ omega (arith, bit_and_none k (suc a / 2))

-- `v & 1` is the lowest bit.
pub bit_and-one : (a : ℕ) → bit_and a 1 ≡ a % 2
bit_and-one a = bit_and_step a 1 ∙ omega (arith, bit_and_none (a / 2) (a / 2))

low_three : (a : ℕ) → bit_and a 7 ≡ a % 8
low_three a = omega (arith, bit_and-one (a / 2 / 2), bit_and_step (a / 2) 3, bit_and_step a 7)

-- `v & 0x7f` keeps the seven low bits.
pub bit_and_low7 : (a : ℕ) → bit_and a 0x7f ≡ a % 128
bit_and_low7 a =
    let high = a / 2 / 2 / 2 / 2 in
    omega (
      arith,
      low_three high,
      bit_and_step (a / 2 / 2 / 2) 15,
      bit_and_step (a / 2 / 2) 31,
      bit_and_step (a / 2) 63,
      bit_and_step a 127,
    )

-- Over a small range, a law is checked at every value by evaluation.
unfoldable pub agree_below : (ℕ → ℕ) → (ℕ → ℕ) → ℕ → Bool
agree_below f g zero = true
agree_below f g (suc n) = (f n == g n) && agree_below f g n

pub agree_below→eq : (f g : ℕ → ℕ) (n : ℕ) → agree_below f g n ≡ true → (i : ℕ) → i < n → f i ≡ g i
unfolding agree_below
agree_below→eq f g zero e i h = absurd (omega arith)
agree_below→eq f g (suc n) e i h = ground (arith, agree_below→eq f g n (ground arith) i)

-- `v & 0x80` on a byte is its top bit, and `v | 0x80` sets that bit.
pub bit_and_top : (a : ℕ) → a < 256 → bit_and a 0x80 ≡ a / 128 * 128
unfolding agree_below
bit_and_top = agree_below→eq _ _ 256 refl

pub bit_or_top : (a : ℕ) → a < 128 → bit_or a 0x80 ≡ a + 128
unfolding agree_below
bit_or_top = agree_below→eq _ _ 128 refl

-- Where no bit is set on both sides, `|` is a sum.
pub bit_or_disjoint : (s a b : ℕ) → a < 2 ^ s → bit_or a (b * 2 ^ s) ≡ a + b * 2 ^ s
bit_or_disjoint zero a b h =
    let e : a ≡ 0 = omega arith in rw e (bit_or-bitwise 0 (b * 1) ∙ omega arith)
bit_or_disjoint (suc s) a b h = rw half (
    omega (
      arith,
      pow-suc 2 s,
      bit_or_step a (b * 2 ^ s * 2),
      bit_or_disjoint s (a / 2) b (omega (arith, pow-suc 2 s)),
      halved,
    ))
  where
    half : b * 2 ^ suc s ≡ b * 2 ^ s * 2
    half = omega (arith, ap (λ (t : ℕ). b * t) (pow-suc 2 s))

    halved : bit_or (a / 2) (b * 2 ^ s * 2 / 2) ≡ bit_or (a / 2) (b * 2 ^ s)
    halved = ap (bit_or (a / 2)) (omega arith)
