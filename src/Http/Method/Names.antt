-- ===== src/Http/Method/Names.antt =====
-- The names of methods in request.cc and their codes.
use lcy.Prelude.{
  ℕ, ◌<◌, ◌≡◌, ◌≢◌, refl, ◌∙◌, inl, inr, true, List, [], ◌∷◌, All, Bool, ◌&&◌, and-true, Bool-cases,
}
use lcy.Prelude.Bits.{agree_below, agree_below→eq}
use lcy.Http.Text.{str_eq, str_eq→eq}
use lcy.Http.Method.{Method, invalid, method_map, method_to_string, find_method, string_to_method}

-- Each method of the map is found again by its name.
pub string_to_method-method_to_string :
    (m : Method) → m < invalid → string_to_method (method_to_string m) ≡ m
unfolding agree_below string_to_method method_to_string
string_to_method-method_to_string =
    agree_below→eq (λ m. string_to_method (method_to_string m)) (λ m. m) invalid refl

-- A name is given a valid method only if it is the name of that method.
found_name :
    (table : List (ℕ × List ℕ)) (s : List ℕ)
    → All (λ e. method_to_string e.0 ≡ e.1) table
    → find_method table s ≢ invalid
    → method_to_string (find_method table s) ≡ s
unfolding find_method
found_name [] s h ne = absurd (ne refl)
found_name ((code, name) ∷ rest) s (h, hs) ne = elim (Bool-cases (str_eq name s)) [
  | inl e ↦ rw e (h ∙ str_eq→eq name s e)
  | inr e ↦ rw e (found_name rest s hs (rw e at ne))
]

names_agree : List (ℕ × List ℕ) → Bool
unfolding str_eq method_to_string
names_agree [] = true
names_agree ((code, name) ∷ rest) = str_eq (method_to_string code) name && names_agree rest

agreed :
    (table : List (ℕ × List ℕ))
    → names_agree table ≡ true
    → All (λ e. method_to_string e.0 ≡ e.1) table
unfolding names_agree
agreed [] h = tt
agreed ((code, name) ∷ rest) h = (
  str_eq→eq (method_to_string code) name (and-true (str_eq (method_to_string code) name) _ h).0,
  agreed rest (and-true (str_eq (method_to_string code) name) (names_agree rest) h).1,
)

-- The map's names are the ones that `MethodToString` yields, by evaluation.
map_names : names_agree method_map ≡ true
unfolding names_agree
map_names = refl

-- Text that is taken for a valid method is the name of that method.
pub method_to_string-string_to_method :
    (s : List ℕ) → string_to_method s ≢ invalid → method_to_string (string_to_method s) ≡ s
unfolding string_to_method
method_to_string-string_to_method s ne = found_name method_map s (agreed method_map map_names) ne
