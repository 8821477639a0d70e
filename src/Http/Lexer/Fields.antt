-- ===== src/Http/Lexer/Fields.antt =====
-- The fields that `lineSplit` and `headerSplit` of http/parser.cc find.
use lcy.Prelude.{
  ℕ, suc, ◌≡◌, ◌≢◌, refl, sym, ap, ◌∙◌, false, not, none, some, List, [], ◌∷◌, ◌++◌, ◌==◌, length,
  drop, All, arith, append-nil, append_assoc, take-append_length,
}
use lcy.Http.Text.{take_while, drop_while}
use lcy.Http.Lexer.{line_split_loop, line_split, trim, find_colon, header_split}

-- Text with no blank in it.
abbrev pub IsWord : List ℕ → Type 0
IsWord s = All (λ c. c ≢ 32) s

-- A word is gone over as a whole.
loop-word :
    (w rest : List ℕ) (count : ℕ) (field1 field2 since : List ℕ)
    → IsWord w
    → line_split_loop (w ++ rest) count field1 field2 since
      ≡ line_split_loop rest count field1 field2 (since ++ w)
unfolding line_split_loop
loop-word [] rest count field1 field2 since h =
    ap (line_split_loop rest count field1 field2) (sym (append-nil since))
loop-word (c ∷ w) rest count field1 field2 since (hc, hw) =
    let other : (c == b' ') ≡ false = ground arith in
    rw other (
      loop-word w rest count field1 field2 (since ++ c ∷ []) hw
      ∙ ap (line_split_loop rest count field1 field2) (append_assoc since (c ∷ []) w))

first_blank :
    (rest field1 field2 since : List ℕ)
    → line_split_loop (32 ∷ rest) 0 field1 field2 since ≡ line_split_loop rest 1 since field2 []
unfolding line_split_loop
first_blank rest field1 field2 since = refl

second_blank :
    (rest field1 field2 since : List ℕ)
    → line_split_loop (32 ∷ rest) 1 field1 field2 since ≡ line_split_loop rest 2 field1 since []
unfolding line_split_loop
second_blank rest field1 field2 since = refl

last_field :
    (field1 field2 since : List ℕ)
    → since ≢ []
    → line_split_loop [] 2 field1 field2 since ≡ some (field1, field2, since)
unfolding line_split_loop
last_field field1 field2 [] h = absurd (h refl)
last_field field1 field2 (c ∷ s) h = refl

third_blank :
    (rest field1 field2 since : List ℕ) → line_split_loop (32 ∷ rest) 2 field1 field2 since ≡ none
unfolding line_split_loop
third_blank rest field1 field2 since = refl

-- With a third blank no fields are found, whatever stands behind it.
pub line_split_third_blank :
    (a b c rest : List ℕ)
    → IsWord a
    → IsWord b
    → IsWord c
    → line_split (a ++ (32 ∷ (b ++ (32 ∷ (c ++ (32 ∷ rest)))))) ≡ none
unfolding line_split
line_split_third_blank a b c rest ha hb hc =
    loop-word a (32 ∷ (b ++ (32 ∷ (c ++ (32 ∷ rest))))) 0 [] [] [] ha
    ∙ first_blank (b ++ (32 ∷ (c ++ (32 ∷ rest)))) [] [] a
    ∙ loop-word b (32 ∷ (c ++ (32 ∷ rest))) 1 a [] [] hb
    ∙ second_blank (c ++ (32 ∷ rest)) a [] b
    ∙ loop-word c (32 ∷ rest) 2 a b [] hc
    ∙ third_blank rest a b c

-- Three words that single blanks separate, of which the last is not empty, are found.
pub line_split_words :
    (a b c : List ℕ)
    → IsWord a
    → IsWord b
    → IsWord c
    → c ≢ []
    → line_split (a ++ (32 ∷ (b ++ (32 ∷ c)))) ≡ some (a, b, c)
unfolding line_split
line_split_words a b c ha hb hc ne =
    loop-word a (32 ∷ (b ++ (32 ∷ c))) 0 [] [] [] ha
    ∙ first_blank (b ++ (32 ∷ c)) [] [] a
    ∙ loop-word b (32 ∷ c) 1 a [] [] hb
    ∙ second_blank c a [] b
    ∙ ap (λ (s : List ℕ). line_split_loop s 2 a b []) (sym (append-nil c))
    ∙ loop-word c [] 2 a b [] hc
    ∙ last_field a b c ne

-- Text with neither a blank nor a colon in it.
abbrev pub IsKey : List ℕ → Type 0
IsKey s = All (λ c. (c ≢ 32) × (c ≢ 58)) s

key-IsWord : (s : List ℕ) → IsKey s → IsWord s
key-IsWord [] h = tt
key-IsWord (c ∷ s) ((h, _), hs) = (h, key-IsWord s hs)

keep-word : (s : List ℕ) → IsWord s → take_while (λ c. not (c == b' ')) s ≡ s
unfolding take_while
keep-word [] h = refl
keep-word (c ∷ s) (hc, hs) = ground (arith, keep-word s hs)

skip-word : (s : List ℕ) → IsWord s → drop_while (λ c. c == b' ') s ≡ s
unfolding drop_while
skip-word [] h = refl
skip-word (c ∷ s) (hc, hs) = ground arith

trim-word : (s : List ℕ) → IsWord s → trim s ≡ s
unfolding trim
trim-word s h = ap (take_while (λ c. not (c == b' '))) (skip-word s h) ∙ keep-word s h

trim-blank : (s : List ℕ) → trim (32 ∷ s) ≡ trim s
unfolding trim
trim-blank s = refl

find_colon-key : (k rest : List ℕ) → IsKey k → find_colon (k ++ (58 ∷ rest)) ≡ some (length k)
unfolding find_colon
find_colon-key [] rest h = refl
find_colon-key (c ∷ k) rest ((_, hc), hk) = ground (arith, find_colon-key k rest hk)

drop-past : (k : List ℕ) (c : ℕ) (rest : List ℕ) → drop (suc (length k)) (k ++ (c ∷ rest)) ≡ rest
drop-past [] c rest = refl
drop-past (d ∷ k) c rest = drop-past k c rest

-- A header line as `dump` writes it, of a key and a value that is one word, is taken apart into
-- that key and that value.
pub header_split_line :
    (k v : List ℕ) → IsKey k → IsWord v → header_split (k ++ (58 ∷ 32 ∷ v)) ≡ some (k, v)
unfolding header_split
header_split_line k v hk hv = rw (
  find_colon-key k (32 ∷ v) hk,
  take-append_length k (58 ∷ 32 ∷ v),
  drop-past k 58 (32 ∷ v),
  trim-blank v,
  trim-word v hv,
  trim-word k (key-IsWord k hk),
)
