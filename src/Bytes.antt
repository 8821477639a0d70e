-- ===== src/Bytes.antt =====
-- How an unsigned integer lies in memory, and the conversions to network order (htons, htonl,
-- ntohs, ntohl of arpa/inet.h) that the protocols use. The order of bytes of the machine is an
-- argument: both are covered. A byte is a number below 256.
pub mod Laws
use lcy.Prelude.{ℕ, zero, suc, ◌+◌, ◌*◌, ◌/◌, ◌%◌, ◌^◌, ◌<◌, List, [], ◌∷◌, All}
use mathlib.Core.List.{reverse}

pub data Host : Type 0 where
  little big : Host

abbrev pub IsByte : ℕ → Type 0
IsByte b = b < 256

-- The `n` lowest bytes of a number, the lowest first.
abbrev pub le_bytes : ℕ → ℕ → List ℕ
le_bytes zero v = []
le_bytes (suc n) v = v % 256 ∷ le_bytes n (v / 256)

abbrev pub of_le : List ℕ → ℕ
of_le [] = 0
of_le (b ∷ bs) = b + 256 * of_le bs

-- `memcpy(p, &v, n)` at an unsigned `v` of `n` bytes: the bytes that it copies.
unfoldable pub image : Host → ℕ → ℕ → List ℕ
image little n v = le_bytes n v
image big n v = reverse (le_bytes n v)

-- `memcpy(&v, p, n)`: the number that the bytes make.
unfoldable pub load : Host → List ℕ → ℕ
load little bs = of_le bs
load big bs = of_le (reverse bs)

-- `htons` and `ntohs` for `n` = 2, `htonl` and `ntohl` for `n` = 4.
unfoldable pub to_net : Host → ℕ → ℕ → ℕ
to_net little n v = of_le (reverse (le_bytes n v))
to_net big n v = v

-- The bytes of a number in network order: the highest first.
unfoldable pub net_bytes : ℕ → ℕ → List ℕ
net_bytes n v = reverse (le_bytes n v)
