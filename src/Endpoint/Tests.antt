-- ===== src/Endpoint/Tests.antt =====
-- A concrete endpoint.
use lcy.Prelude.{
  ℕ, ◌≡◌, refl, Bool, true, false, Option, none, some, List, [], ◌∷◌, length, arith, if◌then◌else◌,
}
use lcy.Bytes.{little}
use lcy.Http.Text.{codes, str_eq}
use lcy.Endpoint.{AddressText, from_text}
use lcy.Endpoint.Laws.{Manual, FromText, from_text-FromText}

-- One address of each version.
abbrev two_addresses : AddressText
two_addresses = record {
  pton4 = λ s. if str_eq s (codes "127.0.0.1") then some (127 ∷ 0 ∷ 0 ∷ 1 ∷ []) else none;
  pton6 = λ s.
      if str_eq s (codes "::1")
      then some (0 ∷ 0 ∷ 0 ∷ 0 ∷ 0 ∷ 0 ∷ 0 ∷ 0 ∷ 0 ∷ 0 ∷ 0 ∷ 0 ∷ 0 ∷ 0 ∷ 0 ∷ 1 ∷ [])
      else none;
  ntop4 = λ a. codes "127.0.0.1";
  ntop6 = λ a. codes "::1";
}

length_if :
    (b : Bool) (n : ℕ) (x a : List ℕ)
    → length x ≡ n
    → ◌≡◌ {A = Option (List ℕ)} (if b then some x else none) (some a)
    → length a ≡ n
length_if true n x a e h = let same : x ≡ a = cc in cc
length_if false n x a e h = cc

two_addresses-Manual : Manual two_addresses
two_addresses-Manual = record {
  size4 = λ s a h. length_if (str_eq s (codes "127.0.0.1")) 4 (127 ∷ 0 ∷ 0 ∷ 1 ∷ []) a refl h;
  size6 = λ s a h.
      length_if (str_eq s (codes "::1")) 16
        (0 ∷ 0 ∷ 0 ∷ 0 ∷ 0 ∷ 0 ∷ 0 ∷ 0 ∷ 0 ∷ 0 ∷ 0 ∷ 0 ∷ 0 ∷ 0 ∷ 0 ∷ 1 ∷ []) a refl h;
  fits4 = λ a h. omega arith;
  fits6 = λ a h. omega arith;
}

from_text-FromText_example :
    FromText little two_addresses
      (codes "::1")
      8080
      (from_text little two_addresses (codes "::1") 8080)
from_text-FromText_example =
    from_text-FromText little two_addresses (codes "::1") 8080 two_addresses-Manual (omega arith)
