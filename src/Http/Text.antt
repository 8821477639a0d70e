-- ===== src/Http/Text.antt =====
-- `std::string` as a list of bytes, with what protocol/src/http uses of it and of the C library.
use Prim.Native.Char.{code}
use Prim.Native.String.{String}
use lcy.Prelude.{
  ℕ, zero, suc, ◌+◌, ◌-◌, ◌*◌, ◌^◌, Bool, true, ◌&&◌, ◌||◌, Option, none, some, List, [], ◌∷◌, ◌==◌,
  leb, ltb, if◌then◌else◌,
}
unfoldable pub use lcy.Prelude.Assoc.{str_eq}
pub use lcy.Prelude.Assoc.{str_eq→eq, str_eq_refl}
use lcy.Prelude.Int.{ℤ, pos, negsuc}

-- The bytes of a literal of the source, which are ASCII.
abbrev pub codes : String → List ℕ
codes String.[] = []
codes (String.◌∷◌ c s) = code c ∷ codes s

-- `isspace` of the C locale, and the class `\s` of `std::regex`
abbrev pub is_space : ℕ → Bool
is_space c = c == 32 || (leb 9 c && leb c 13)

-- `isdigit`, and the class `\d`
abbrev pub is_digit : ℕ → Bool
is_digit c = leb b'0' c && leb c b'9'

-- The longest front of bytes that pass a test, and what is left behind it.
unfoldable pub take_while : (ℕ → Bool) → List ℕ → List ℕ
take_while p [] = []
take_while p (c ∷ s) = if p c then c ∷ take_while p s else []

unfoldable pub drop_while : (ℕ → Bool) → List ℕ → List ℕ
drop_while p [] = []
drop_while p (c ∷ s) = if p c then drop_while p s else c ∷ s

unfoldable pub all : (ℕ → Bool) → List ℕ → Bool
all p [] = true
all p (c ∷ s) = p c && all p s

-- The value of a run of decimal digits, begun at `acc`.
unfoldable pub digits_value : ℕ → List ℕ → ℕ
digits_value acc [] = acc
digits_value acc (c ∷ s) = if is_digit c then digits_value (acc * 10 + (c - b'0')) s else acc

-- A value as an `int`; outside the range of `int` the behaviour of `atoi` is undefined.
abbrev pub positive_int : ℕ → Option ℤ
positive_int n = if ltb n (2 ^ 31) then some (pos n) else none

abbrev pub negative_int : ℕ → Option ℤ
negative_int zero = some (pos 0)
negative_int (suc n) = if ltb n (2 ^ 31) then some (negsuc n) else none

-- `atoi` behind the white space
unfoldable pub atoi_signed : List ℕ → Option ℤ
unfolding digits_value
atoi_signed [] = some (pos 0)
atoi_signed (c ∷ s) =
    if c == b'-'
    then negative_int (digits_value 0 s)
    else if c == b'+'
    then positive_int (digits_value 0 s)
    else positive_int (digits_value 0 (c ∷ s))

unfoldable pub atoi : List ℕ → Option ℤ
unfolding atoi_signed drop_while
atoi s = atoi_signed (drop_while is_space s)
