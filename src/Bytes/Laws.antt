-- ===== src/Bytes/Laws.antt =====
-- What is written in network order is read back as it was, on either kind of machine.
use lcy.Prelude.{
  ℕ, zero, suc, ◌+◌, ◌*◌, ◌/◌, ◌%◌, ◌^◌, ◌<◌, ◌≡◌, refl, ap, ◌∙◌, List, [], ◌∷◌, ◌++◌, All, length,
  length-append, arith,
}
use mathlib.Core.List.{reverse, reverse-cons, reverse-reverse}
use native.Mathlib.Nat.{pow-suc}
use lcy.Bytes.{Host, little, big, IsByte, le_bytes, of_le, image, load, to_net, net_bytes}

length-reverse : (xs : List ℕ) → length (reverse xs) ≡ length xs
length-reverse [] = refl
length-reverse (x ∷ xs) =
    ap length (reverse-cons x xs)
    ∙ omega (arith, length-append (reverse xs) (x ∷ []), length-reverse xs)

All-append : (xs ys : List ℕ) → All IsByte xs → All IsByte ys → All IsByte (xs ++ ys)
All-append [] ys h k = k
All-append (x ∷ xs) ys h k = (h.0, All-append xs ys h.1 k)

All-reverse : (xs : List ℕ) → All IsByte xs → All IsByte (reverse xs)
All-reverse [] h = tt
All-reverse (x ∷ xs) h =
    rw (reverse-cons x xs) (All-append (reverse xs) (x ∷ []) (All-reverse xs h.1) (h.0, tt))

pub length-le_bytes : (n v : ℕ) → length (le_bytes n v) ≡ n
length-le_bytes zero v = refl
length-le_bytes (suc n) v = ap suc (length-le_bytes n (v / 256))

pub le_bytes-IsByte : (n v : ℕ) → All IsByte (le_bytes n v)
le_bytes-IsByte zero v = tt
le_bytes-IsByte (suc n) v = (omega arith, le_bytes-IsByte n (v / 256))

pub of_le-le_bytes : (n v : ℕ) → v < 256 ^ n → of_le (le_bytes n v) ≡ v
of_le-le_bytes zero v h = omega arith
of_le-le_bytes (suc n) v h =
    omega (arith, of_le-le_bytes n (v / 256) (omega (arith, pow-suc 256 n)))

pub le_bytes-of_le :
    (n : ℕ) (bs : List ℕ) → length bs ≡ n → All IsByte bs → le_bytes n (of_le bs) ≡ bs
le_bytes-of_le zero [] e h = refl
le_bytes-of_le zero (b ∷ bs) e h = absurd (omega arith)
le_bytes-of_le (suc n) [] e h = absurd (omega arith)
le_bytes-of_le (suc n) (b ∷ bs) e (hb, hs) =
    let low : (b + 256 * of_le bs) % 256 ≡ b = omega arith in
    let high : (b + 256 * of_le bs) / 256 ≡ of_le bs = omega arith in
    rw (low, high) (ap (◌∷◌ b) (le_bytes-of_le n bs (omega arith) hs))

pub length-net_bytes : (n v : ℕ) → length (net_bytes n v) ≡ n
unfolding net_bytes
length-net_bytes n v = length-reverse (le_bytes n v) ∙ length-le_bytes n v

pub net_bytes-IsByte : (n v : ℕ) → All IsByte (net_bytes n v)
unfolding net_bytes
net_bytes-IsByte n v = All-reverse (le_bytes n v) (le_bytes-IsByte n v)

-- What the conversion and the copy put into memory does not depend on the machine.
pub image-to_net : (h : Host) (n v : ℕ) → image h n (to_net h n v) ≡ net_bytes n v
unfolding image to_net net_bytes
image-to_net little n v =
    le_bytes-of_le n (reverse (le_bytes n v)) (length-reverse (le_bytes n v) ∙ length-le_bytes n v)
      (All-reverse (le_bytes n v) (le_bytes-IsByte n v))
image-to_net big n v = refl

-- The copy back and the conversion undo it.
pub to_net-load : (h : Host) (n v : ℕ) → v < 256 ^ n → to_net h n (load h (net_bytes n v)) ≡ v
unfolding load to_net net_bytes
to_net-load little n v b =
    ap (λ (bs : List ℕ). of_le (reverse bs))
      (le_bytes-of_le n (reverse (le_bytes n v))
        (length-reverse (le_bytes n v) ∙ length-le_bytes n v)
        (All-reverse (le_bytes n v) (le_bytes-IsByte n v)))
    ∙ ap of_le (reverse-reverse (le_bytes n v))
    ∙ of_le-le_bytes n v b
to_net-load big n v b = ap of_le (reverse-reverse (le_bytes n v)) ∙ of_le-le_bytes n v b

pub length-image : (h : Host) (n v : ℕ) → length (image h n v) ≡ n
unfolding image
length-image little n v = length-le_bytes n v
length-image big n v = length-reverse (le_bytes n v) ∙ length-le_bytes n v

-- A number that fits is loaded as it was stored, on a machine of either kind.
pub load-image : (h : Host) (n v : ℕ) → v < 256 ^ n → load h (image h n v) ≡ v
unfolding image load
load-image little n v b = of_le-le_bytes n v b
load-image big n v b = ap of_le (reverse-reverse (le_bytes n v)) ∙ of_le-le_bytes n v b
