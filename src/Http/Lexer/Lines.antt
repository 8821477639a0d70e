-- ===== src/Http/Lexer/Lines.antt =====
-- Where `CRLF` of http/parser.cc finds the end of a line.
use lcy.Prelude.{
  ℕ, ◌+◌, ◌≤◌, ◌≡◌, ◌≢◌, refl, inl, inr, ◌&&◌, none, some, List, [], ◌∷◌, ◌++◌, ◌==◌, length, All,
  arith, Bool-cases, Option-cases,
}
use lcy.Http.Lexer.{crlf}

-- Text with no carriage return in it.
abbrev pub IsLine : List ℕ → Type 0
IsLine s = All (λ c. c ≢ 13) s

-- A line end behind such a text is found where it stands.
pub crlf-line : (s rest : List ℕ) → IsLine s → crlf (s ++ (13 ∷ 10 ∷ rest)) ≡ some (length s)
unfolding crlf
crlf-line [] rest h = refl
crlf-line (a ∷ []) rest h = ground (arith, crlf-line [] rest tt)
crlf-line (a ∷ b ∷ s) rest h = ground (arith, crlf-line (b ∷ s) rest h.1)

-- An end that is found stays the first when bytes follow, and lies inside the text.
pub crlf_stable : (d more : List ℕ) (i : ℕ) → crlf d ≡ some i → crlf (d ++ more) ≡ some i
unfolding crlf
crlf_stable [] more i h = cc
crlf_stable (a ∷ []) more i h = cc
crlf_stable (a ∷ b ∷ s) more i h = elim (Bool-cases ((a == 13) && (b == 10))) [
  | inl e ↦ rw e (rw e at h)
  | inr e ↦ rw e (elim (Option-cases (crlf (b ∷ s))) [
    | inl n ↦ absurd (let h' : none ≡ some i = rw (e, n) at h in cc)
    | inr (j, q) ↦ rw (crlf_stable (b ∷ s) more j q) (rw (e, q) at h)
  ])
]

pub crlf_inside : (d : List ℕ) (i : ℕ) → crlf d ≡ some i → i + 2 ≤ length d
unfolding crlf
crlf_inside [] i h = cc
crlf_inside (a ∷ []) i h = cc
crlf_inside (a ∷ b ∷ s) i h = elim (Bool-cases ((a == 13) && (b == 10))) [
  | inl e ↦ ground (arith, h, e)
  | inr e ↦ elim (Option-cases (crlf (b ∷ s))) [
    | inl n ↦ absurd (let h' : none ≡ some i = rw (e, n) at h in cc)
    | inr (j, q) ↦ ground (arith, crlf_inside (b ∷ s) j q, h, e, q)
  ]
]
