-- ===== src/Http/State/Names.antt =====
-- The names of status codes in response.cc.
use lcy.Prelude.{
  ℕ, ◌≡◌, ◌≢◌, refl, sym, ap, ◌∙◌, inl, inr, Bool, true, ◌&&◌, and-true, List, [], ◌∷◌, Bool-cases,
  ==→eq,
}
use lcy.Prelude.Int.{pos, negsuc}
use lcy.Http.State.{State, status_map, is_code, state_name, state_to_string, string_to_state}

is_code→eq : (code : ℕ) (s : State) → is_code code s ≡ true → s ≡ pos code
is_code→eq code (pos n) h = ap pos (sym (==→eq code n h))
is_code→eq code (negsuc n) h = cc

codes_agree : List (ℕ × List ℕ × List ℕ) → Bool
codes_agree [] = true
codes_agree ((code, name, desc) ∷ rest) = is_code code (string_to_state name) && codes_agree rest

-- The map's codes are found again by their names, by evaluation.
map_codes : codes_agree status_map ≡ true
unfolding codes_agree string_to_state
map_codes = refl

named :
    (table : List (ℕ × List ℕ × List ℕ)) (s : State)
    → codes_agree table ≡ true
    → (state_name table s ≢ [])
    → string_to_state (state_name table s) ≡ s
unfolding state_name codes_agree
named [] s h ne = absurd (ne refl)
named ((code, name, desc) ∷ rest) s h ne = elim (Bool-cases (is_code code s)) [
  | inl e ↦ rw e (
      is_code→eq code (string_to_state name)
        (and-true (is_code code (string_to_state name)) (codes_agree rest) h).0
      ∙ sym (is_code→eq code s e))
  | inr e ↦ rw e (
      named rest s (and-true (is_code code (string_to_state name)) (codes_agree rest) h).1
        (rw e at ne))
]

-- A state that has a name, whatever integer was read for it, is the one that the name stands for.
pub string_to_state-state_to_string :
    (s : State) → state_to_string s ≢ [] → string_to_state (state_to_string s) ≡ s
unfolding state_to_string
string_to_state-state_to_string s ne = named status_map s map_codes ne
