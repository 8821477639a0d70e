-- ===== src/Http/Message/Headers.antt =====
-- The header map of protocol/src/http/message.cc as a finite map.
use lcy.Prelude.{
  ◌≡◌, ℕ, refl, sym, ap, ◌∙◌, inl, inr, true, false, none, some, List, [], ◌∷◌, if◌then◌else◌, All,
  arith, Bool-cases,
}
use lcy.Http.Text.{str_eq, str_eq→eq}
use lcy.Http.Message.{Headers, find, get_header, set_header, remove_header}

-- No key stands twice.
abbrev pub Distinct : Headers → Type 0
Distinct [] = Unit {0}
Distinct ((k, v) ∷ hs) = All (λ e. str_eq k e.0 ≡ false) hs × Distinct hs

str_eq_sym : (s t : List ℕ) → str_eq s t ≡ str_eq t s
unfolding str_eq
str_eq_sym [] [] = refl
str_eq_sym [] (b ∷ t) = refl
str_eq_sym (a ∷ s) [] = refl
str_eq_sym (a ∷ s) (b ∷ t) = ground (arith, str_eq_sym s t)

find-set_header :
    (hs : Headers) (key value j : List ℕ)
    → find j (set_header hs key value) ≡ (if str_eq key j then some value else find j hs)
unfolding find set_header
find-set_header [] key value j = refl
find-set_header ((k, v) ∷ hs) key value j = elim (Bool-cases (str_eq k key)) [
  | inl e ↦
      let p = str_eq→eq k key e in
      rw (e, p) (elim (Bool-cases (str_eq key j)) [ inl q ↦ rw q refl | inr q ↦ rw q refl ])
  | inr e ↦
      rw (e, find-set_header hs key value j)
        (elim (Bool-cases (str_eq k j)) [
          | inl q ↦
              let r : str_eq key j ≡ false =
                str_eq_sym key j ∙ ap (λ (l : List ℕ). str_eq l key) (sym (str_eq→eq k j q)) ∙ e in
              rw (q, r) refl
          | inr q ↦ rw q refl
        ])
]

absent :
    (hs : Headers) (k j : List ℕ)
    → All (λ e. str_eq k e.0 ≡ false) hs
    → str_eq k j ≡ true
    → find j hs ≡ none
unfolding find
absent [] k j h e = refl
absent ((i, v) ∷ hs) k j (hi, h) e =
    let other : str_eq i j ≡ false = ap (str_eq i) (sym (str_eq→eq k j e)) ∙ str_eq_sym i k ∙ hi in
    rw other (absent hs k j h e)

find-remove_header :
    (hs : Headers) (key j : List ℕ)
    → Distinct hs
    → find j (remove_header hs key) ≡ (if str_eq key j then none else find j hs)
unfolding find remove_header
find-remove_header [] key j h = elim (Bool-cases (str_eq key j)) [
  | inl q ↦ rw q refl
  | inr q ↦ rw q refl
]
find-remove_header ((k, v) ∷ hs) key j (hk, h) = elim (Bool-cases (str_eq k key)) [
  | inl e ↦
      let p = str_eq→eq k key e in
      rw (e, sym p)
        (elim (Bool-cases (str_eq k j)) [ inl q ↦ rw q (absent hs k j hk q) | inr q ↦ rw q refl ])
  | inr e ↦
      rw (e, find-remove_header hs key j h)
        (elim (Bool-cases (str_eq k j)) [
          | inl q ↦
              let r : str_eq key j ≡ false =
                str_eq_sym key j ∙ ap (λ (l : List ℕ). str_eq l key) (sym (str_eq→eq k j q)) ∙ e in
              rw (q, r) refl
          | inr q ↦ rw q refl
        ])
]

-- `getHeader` behind `setHeader`: the value that was set under its key, with a default of any
-- kind, and under another key what was there before.
pub get_header-set_header :
    (hs : Headers) (key value j def : List ℕ)
    → get_header (set_header hs key value) j def
      ≡ (if str_eq key j then value else get_header hs j def)
unfolding get_header
get_header-set_header hs key value j def =
    rw (get_header, find-set_header hs key value j)
      (elim (Bool-cases (str_eq key j)) [ inl q ↦ rw q refl | inr q ↦ rw q refl ])

-- `getHeader` behind `removeHeader`, in a map in which no key stands twice: the default under the
-- key that was removed, and under another key what was there before.
pub get_header-remove_header :
    (hs : Headers) (key j def : List ℕ)
    → Distinct hs
    → get_header (remove_header hs key) j def ≡ (if str_eq key j then def else get_header hs j def)
unfolding get_header
get_header-remove_header hs key j def h =
    rw (get_header, find-remove_header hs key j h)
      (elim (Bool-cases (str_eq key j)) [ inl q ↦ rw q refl | inr q ↦ rw q refl ])

All-set_header :
    (hs : Headers) (k key value : List ℕ)
    → str_eq k key ≡ false
    → All (λ e. str_eq k e.0 ≡ false) hs
    → All (λ e. str_eq k e.0 ≡ false) (set_header hs key value)
unfolding set_header
All-set_header [] k key value e h = (e, tt)
All-set_header ((i, v) ∷ hs) k key value e (hi, h) = elim (Bool-cases (str_eq i key)) [
  | inl p ↦ rw p (hi, h)
  | inr p ↦ rw p (hi, All-set_header hs k key value e h)
]

All-remove_header :
    (hs : Headers) (k key : List ℕ)
    → All (λ e. str_eq k e.0 ≡ false) hs
    → All (λ e. str_eq k e.0 ≡ false) (remove_header hs key)
unfolding remove_header
All-remove_header [] k key h = tt
All-remove_header ((i, v) ∷ hs) k key (hi, h) = elim (Bool-cases (str_eq i key)) [
  | inl p ↦ rw p h
  | inr p ↦ rw p (hi, All-remove_header hs k key h)
]

-- `setHeader` keeps the keys distinct, and so does `removeHeader`.
pub headers-Distinct :
    (hs : Headers) (key value : List ℕ)
    → Distinct hs
    → Distinct (set_header hs key value) × Distinct (remove_header hs key)
unfolding set_header remove_header
headers-Distinct [] key value h = ((tt, tt), tt)
headers-Distinct ((k, v) ∷ hs) key value (hk, h) =
    let (p, q) = headers-Distinct hs key value h in
    elim (Bool-cases (str_eq k key)) [
      | inl e ↦ (rw e (hk, h), rw e h)
      | inr e ↦
          (rw e (All-set_header hs k key value e hk, p), rw e (All-remove_header hs k key hk, q))
    ]
