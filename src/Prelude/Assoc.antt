-- ===== src/Prelude/Assoc.antt =====
-- Finite maps as association lists, for the hash maps of the program: keys are compared by a test
-- that decides their equality.
use Prim.Native.Nat.{ℕ}
use mathlib.Core.Path.{◌≡◌, refl, sym, ap, ◌∙◌}
use mathlib.Core.Logic.{inl, inr}
use mathlib.Core.Bool.{Bool, true, false, ◌&&◌}
use mathlib.Core.Option.{Option, none, some}
use mathlib.Core.List.{List, [], ◌∷◌}
use native.Mathlib.Omega.{arith}
use lcy.Prelude.Tests.{◌==◌, ==→eq, if◌then◌else◌, Bool-cases}
use lcy.Prelude.Int.{ℤ, pos, negsuc}

-- Keys of a map, with the test `==` of their type.
pub record Keys {ℓ} (K : Type ℓ) : Type ℓ where
  pub eqb : K → K → Bool
  pub eqb→eq : (a b : K) → eqb a b ≡ true → a ≡ b
  pub eqb_refl : (a : K) → eqb a a ≡ true

abbrev pub Assoc {ℓ κ} : Type ℓ → Type κ → Type (ℓ ⊔ κ)
Assoc K V = List (K × V)

module _ {ℓ} {K : Type ℓ} ⦃keys : Keys K⦄ where
  eqb_other : (j k i : K) → keys.eqb j k ≡ false → keys.eqb j i ≡ true → keys.eqb k i ≡ false
  eqb_other j k i h e = elim (Bool-cases (keys.eqb k i)) [
    | inl p ↦
        let same : j ≡ k = keys.eqb→eq j i e ∙ sym (keys.eqb→eq k i p) in
        let no : keys.eqb j k ≡ true = ap (keys.eqb j) (sym same) ∙ keys.eqb_refl j in cc
    | inr p ↦ p
  ]

module _ {ℓ κ} {K : Type ℓ} {V : Type κ} ⦃keys : Keys K⦄ where
  unfoldable pub lookup : K → List (K × V) → Option V
  lookup k [] = none
  lookup k ((j, v) ∷ m) = let rest = lookup k m in if keys.eqb j k then some v else rest

  unfoldable pub put : K → V → List (K × V) → List (K × V)
  put k v [] = (k, v) ∷ []
  put k v ((j, w) ∷ m) = let rest = put k v m in if keys.eqb j k then (k, v) ∷ m else (j, w) ∷ rest

  -- Every entry of the key goes.
  unfoldable pub erase : K → List (K × V) → List (K × V)
  erase k [] = []
  erase k ((j, w) ∷ m) = let rest = erase k m in if keys.eqb j k then rest else (j, w) ∷ rest

  pub lookup-put :
      (i k : K) (v : V) (m : List (K × V))
      → lookup i (put k v m) ≡ (if keys.eqb k i then some v else lookup i m)
  unfolding lookup put
  lookup-put i k v [] = refl
  lookup-put i k v ((j, w) ∷ m) = elim (Bool-cases (keys.eqb j k)) [
    | inl e ↦
        rw (e, keys.eqb→eq j k e)
          (elim (Bool-cases (keys.eqb k i)) [ inl p ↦ rw p refl | inr p ↦ rw p refl ])
    | inr e ↦
        rw (e, lookup-put i k v m)
          (elim (Bool-cases (keys.eqb j i)) [
            | inl p ↦ rw (p, eqb_other j k i e p) refl
            | inr p ↦ rw p refl
          ])
  ]

  pub lookup-erase :
      (i k : K) (m : List (K × V))
      → lookup i (erase k m) ≡ (if keys.eqb k i then none else lookup i m)
  unfolding lookup erase
  lookup-erase i k [] = elim (Bool-cases (keys.eqb k i)) [ inl p ↦ rw p refl | inr p ↦ rw p refl ]
  lookup-erase i k ((j, w) ∷ m) = elim (Bool-cases (keys.eqb j k)) [
    | inl e ↦
        rw (e, lookup-erase i k m, keys.eqb→eq j k e)
          (elim (Bool-cases (keys.eqb k i)) [ inl p ↦ rw p refl | inr p ↦ rw p refl ])
    | inr e ↦
        rw (e, lookup-erase i k m)
          (elim (Bool-cases (keys.eqb j i)) [
            | inl p ↦ rw (p, eqb_other j k i e p) refl
            | inr p ↦ rw p refl
          ])
  ]

pub ==-refl : (n : ℕ) → (n == n) ≡ true
==-refl n = ground arith

instance abbrev pub ℕ_keys : Keys ℕ
ℕ_keys = record { eqb = ◌==◌; eqb→eq = ==→eq; eqb_refl = ==-refl }

-- `==` on integers
abbrev pub eqz : ℤ → ℤ → Bool
eqz (pos a) (pos b) = a == b
eqz (pos a) (negsuc b) = false
eqz (negsuc a) (pos b) = false
eqz (negsuc a) (negsuc b) = a == b

pub eqz→eq : (a b : ℤ) → eqz a b ≡ true → a ≡ b
eqz→eq (pos a) (pos b) h = ap pos (==→eq a b h)
eqz→eq (pos a) (negsuc b) h = cc
eqz→eq (negsuc a) (pos b) h = cc
eqz→eq (negsuc a) (negsuc b) h = ap negsuc (==→eq a b h)

pub eqz_refl : (a : ℤ) → eqz a a ≡ true
eqz_refl (pos a) = ==-refl a
eqz_refl (negsuc a) = ==-refl a

instance abbrev pub ℤ_keys : Keys ℤ
ℤ_keys = record { eqb = eqz; eqb→eq = eqz→eq; eqb_refl = eqz_refl }

-- `==` on strings
unfoldable pub str_eq : List ℕ → List ℕ → Bool
str_eq [] [] = true
str_eq [] (b ∷ t) = false
str_eq (a ∷ s) [] = false
str_eq (a ∷ s) (b ∷ t) = (a == b) && str_eq s t

pub str_eq→eq : (s t : List ℕ) → str_eq s t ≡ true → s ≡ t
unfolding str_eq
str_eq→eq [] [] h = refl
str_eq→eq [] (b ∷ t) h = cc
str_eq→eq (a ∷ s) [] h = cc
str_eq→eq (a ∷ s) (b ∷ t) h = ground (arith, str_eq→eq s t)

pub str_eq_refl : (s : List ℕ) → str_eq s s ≡ true
unfolding str_eq
str_eq_refl [] = refl
str_eq_refl (a ∷ s) = ground (arith, str_eq_refl s)

instance abbrev pub text_keys : Keys (List ℕ)
text_keys = record { eqb = str_eq; eqb→eq = str_eq→eq; eqb_refl = str_eq_refl }
