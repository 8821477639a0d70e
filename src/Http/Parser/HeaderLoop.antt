-- ===== src/Http/Parser/HeaderLoop.antt =====
-- The loop of `parseHeader` of http/parser.cc when its bytes arrive in parts.
use lcy.Prelude.{
  ℕ, zero, suc, ◌+◌, ◌^◌, ◌≤◌, ◌<◌, ◌≡◌, refl, sym, ap, ◌∙◌, inl, inr, none, some, List, ◌++◌,
  length, take, drop, arith, length-append, Option-cases, take-append_le, drop-append_le,
  length-drop, drop-drop,
}
use mathlib.Core.Path.{ap₂}
use lcy.Http.Message.{Target}
use lcy.Http.Lexer.{crlf, header_split}
use lcy.Http.Lexer.Lines.{crlf_stable, crlf_inside}
use lcy.Http.Parser.{
  RetCode, Result, ret, fault, out_of_fuel, add_size, put_header, parse_header_loop,
}

pub loop_none :
    (fuel : ℕ) (d : List ℕ) (t : Target) (n : ℕ)
    → crlf d ≡ none
    → parse_header_loop (suc fuel) d t n ≡ ret RetCode.waiting_data (t, n)
unfolding parse_header_loop
loop_none fuel d t n e = rw (parse_header_loop, e)

pub loop_end :
    (fuel : ℕ) (d : List ℕ) (t : Target) (n : ℕ)
    → crlf d ≡ some 0
    → parse_header_loop (suc fuel) d t n ≡ ret RetCode.ready (t, add_size n 2)
unfolding parse_header_loop
loop_end fuel d t n e = rw (parse_header_loop, e)

pub loop_bad :
    (fuel : ℕ) (d : List ℕ) (t : Target) (n i : ℕ)
    → crlf d ≡ some (suc i)
    → header_split (take (suc i) d) ≡ none
    → parse_header_loop (suc fuel) d t n ≡ ret RetCode.error (t, n)
unfolding parse_header_loop
loop_bad fuel d t n i e s = rw (parse_header_loop, e, s)

pub loop_line :
    (fuel : ℕ) (d : List ℕ) (t : Target) (n i : ℕ) (kv : List ℕ × List ℕ)
    → crlf d ≡ some (suc i)
    → header_split (take (suc i) d) ≡ some kv
    → parse_header_loop (suc fuel) d t n
      ≡ parse_header_loop fuel
          (drop (suc i + 2) d)
          (put_header t kv.0 kv.1)
          (add_size n (suc i + 2))
unfolding parse_header_loop
loop_line fuel d t n i kv e s = rw (parse_header_loop, e, s)

-- What stands at the front.
pub data HeaderFront (d : List ℕ) : Type 0 where
  no_line : crlf d ≡ none → HeaderFront d
  blank_line : crlf d ≡ some 0 → HeaderFront d
  bad_line : (i : ℕ) → crlf d ≡ some (suc i) → header_split (take (suc i) d) ≡ none → HeaderFront d
  good_line :
      (i : ℕ) (kv : List ℕ × List ℕ)
      → crlf d ≡ some (suc i)
      → header_split (take (suc i) d) ≡ some kv
      → HeaderFront d

pub front : (d : List ℕ) → HeaderFront d
front d = elim (Option-cases (crlf d)) [
  | inl e ↦ no_line e
  | inr (zero, e) ↦ blank_line e
  | inr (suc i, e) ↦ elim (Option-cases (header_split (take (suc i) d))) [
    | inl s ↦ bad_line i e s
    | inr (kv, s) ↦ good_line i kv e s
  ]
]

-- A line at the front is taken in the same way when bytes follow.
pub widen_line :
    (d more : List ℕ) (i : ℕ) (kv : List ℕ × List ℕ)
    → crlf d ≡ some (suc i)
    → header_split (take (suc i) d) ≡ some kv
    → header_split (take (suc i) (d ++ more)) ≡ some kv
widen_line d more i kv e s =
    ap header_split (take-append_le (suc i) d more (omega (arith, crlf_inside d (suc i) e))) ∙ s

-- More fuel than bytes changes nothing.
pub loop_fuel :
    (f g : ℕ) (d : List ℕ) (t : Target) (n : ℕ)
    → length d < f
    → length d < g
    → parse_header_loop f d t n ≡ parse_header_loop g d t n
loop_fuel zero g d t n hf hg = absurd (omega (arith, hf))
loop_fuel (suc f) zero d t n hf hg = absurd (omega (arith, hg))
loop_fuel (suc f) (suc g) d t n hf hg = elim (front d) [
  | no_line e ↦ loop_none f d t n e ∙ sym (loop_none g d t n e)
  | blank_line e ↦ loop_end f d t n e ∙ sym (loop_end g d t n e)
  | bad_line i e s ↦ loop_bad f d t n i e s ∙ sym (loop_bad g d t n i e s)
  | good_line i kv e s ↦
      loop_line f d t n i kv e s
      ∙ loop_fuel f g (drop (suc i + 2) d) (put_header t kv.0 kv.1) (add_size n (suc i + 2))
          (shorter i f e hf) (shorter i g e hg)
      ∙ sym (loop_line g d t n i kv e s)
]
  where
    shorter : (i f : ℕ) → crlf d ≡ some (suc i) → length d < suc f → length (drop (suc i + 2) d) < f
    shorter i f e h = omega (arith, length-drop (suc i + 2) d, crlf_inside d (suc i) e, h)

-- The place in the buffer at which a call stopped to wait, and where a call on more bytes goes on.
pub record Paused (d more : List ℕ) (t : Target) (n g : ℕ) (t' : Target) (n' : ℕ) : Type 0 where
  pub taken : ℕ
  pub inside : taken ≤ length d
  pub counted : n' ≡ n + taken
  pub resumed :
      parse_header_loop g (d ++ more) t n ≡ parse_header_loop g (drop taken (d ++ more)) t' n'

pub ret-both :
    {c : RetCode} {t t' : Target} {n n' : ℕ}
    → ◌≡◌ {A = Result (Target × ℕ)} (ret c (t, n)) (ret c (t', n'))
    → (t ≡ t') × (n ≡ n')
ret-both e = (cc, cc)

pub loop_waits :
    (f g : ℕ) (d more : List ℕ) (t : Target) (n : ℕ) (t' : Target) (n' : ℕ)
    → length d < f
    → length (d ++ more) < g
    → n + length d < 2 ^ 64
    → parse_header_loop f d t n ≡ ret RetCode.waiting_data (t', n')
    → Paused d more t n g t' n'
loop_waits zero g d more t n t' n' hf hg hs w = absurd (omega (arith, hf))
loop_waits (suc f) zero d more t n t' n' hf hg hs w = absurd (omega (arith, hg))
loop_waits (suc f) (suc g) d more t n t' n' hf hg hs w = elim (front d) [
  | no_line e ↦
      let (et, en) = ret-both (sym (loop_none f d t n e) ∙ w) in
      record {
        taken = 0;
        inside = omega arith;
        counted = sym en ∙ omega arith;
        resumed = ap₂ (λ x y. parse_header_loop (suc g) (d ++ more) x y) et en;
      }
  | blank_line e ↦ absurd (let q = sym (loop_end f d t n e) ∙ w in cc)
  | bad_line i e s ↦ absurd (let q = sym (loop_bad f d t n i e s) ∙ w in cc)
  | good_line i kv e s ↦
      let l : suc i + 2 ≤ length d = omega (arith, crlf_inside d (suc i) e) in
      let size = length-drop (suc i + 2) d in
      let after = drop-append_le (suc i + 2) d more l in
      let inner =
        loop_waits f g (drop (suc i + 2) d) more (put_header t kv.0 kv.1) (add_size n (suc i + 2))
          t' n' (omega (arith, size, l, hf))
          (omega
            (arith, size, l, hg, length-append d more, length-append (drop (suc i + 2) d) more))
          (omega (arith, size, l, hs)) (sym (loop_line f d t n i kv e s) ∙ w) in
      record {
        taken = suc i + 2 + inner.taken;
        inside = omega (arith, inner.inside, size, l);
        counted = omega (arith, inner.counted, hs, l);
        resumed =
            loop_line g (d ++ more) t n i kv (crlf_stable d more (suc i) e)
              (widen_line d more i kv e s)
            ∙ ap (λ x. parse_header_loop g x (put_header t kv.0 kv.1) (add_size n (suc i + 2)))
                after
            ∙ inner.resumed
            ∙ ap (λ x. parse_header_loop g (drop inner.taken x) t' n') (sym after)
            ∙ ap (λ x. parse_header_loop g x t' n') (drop-drop inner.taken (suc i + 2) (d ++ more))
            ∙ loop_fuel g (suc g) (drop (suc i + 2 + inner.taken) (d ++ more)) t' n'
                (omega (
                  arith,
                  length-drop (suc i + 2 + inner.taken) (d ++ more),
                  hg,
                  l,
                  length-append d more,
                ))
                (omega (
                  arith,
                  length-drop (suc i + 2 + inner.taken) (d ++ more),
                  hg,
                  l,
                  length-append d more,
                ));
      }
]

-- A call that takes the last header takes it also when bytes follow, and nothing of these.
pub loop_ready :
    (f g : ℕ) (d more : List ℕ) (t : Target) (n : ℕ) (t' : Target) (n' : ℕ)
    → length d < f
    → length (d ++ more) < g
    → n + length d < 2 ^ 64
    → parse_header_loop f d t n ≡ ret RetCode.ready (t', n')
    → (parse_header_loop g (d ++ more) t n ≡ ret RetCode.ready (t', n')) × (n' ≤ n + length d)
loop_ready zero g d more t n t' n' hf hg hs w = absurd (omega (arith, hf))
loop_ready (suc f) zero d more t n t' n' hf hg hs w = absurd (omega (arith, hg))
loop_ready (suc f) (suc g) d more t n t' n' hf hg hs w = elim (front d) [
  | no_line e ↦ absurd (let q = sym (loop_none f d t n e) ∙ w in cc)
  | blank_line e ↦
      let (et, en) = ret-both (sym (loop_end f d t n e) ∙ w) in
      (
        loop_end g (d ++ more) t n (crlf_stable d more 0 e) ∙ sym (loop_end f d t n e) ∙ w,
        omega (arith, en, crlf_inside d 0 e, hs),
      )
  | bad_line i e s ↦ absurd (let q = sym (loop_bad f d t n i e s) ∙ w in cc)
  | good_line i kv e s ↦
      let l : suc i + 2 ≤ length d = omega (arith, crlf_inside d (suc i) e) in
      let size = length-drop (suc i + 2) d in
      let after = drop-append_le (suc i + 2) d more l in
      let (inner, bound) =
        loop_ready f g (drop (suc i + 2) d) more (put_header t kv.0 kv.1) (add_size n (suc i + 2))
          t' n' (omega (arith, size, l, hf))
          (omega
            (arith, size, l, hg, length-append d more, length-append (drop (suc i + 2) d) more))
          (omega (arith, size, l, hs)) (sym (loop_line f d t n i kv e s) ∙ w) in
      (
        loop_line g (d ++ more) t n i kv (crlf_stable d more (suc i) e) (widen_line d more i kv e s)
            ∙ ap (λ x. parse_header_loop g x (put_header t kv.0 kv.1) (add_size n (suc i + 2)))
                after
            ∙ inner,
        omega (arith, bound, size, l, hs),
      )
]

-- The count of used bytes is only added to.
unfoldable pub shifted : ℕ → Result (Target × ℕ) → Result (Target × ℕ)
shifted a (ret c (t, n)) = ret c (t, add_size a n)
shifted a fault = fault
shifted a out_of_fuel = out_of_fuel

add_size_assoc : (a b c : ℕ) → add_size (add_size a b) c ≡ add_size a (add_size b c)
add_size_assoc a b c = omega arith

pub loop_shift :
    (f a : ℕ) (d : List ℕ) (t : Target) (n : ℕ)
    → parse_header_loop f d t (add_size a n) ≡ shifted a (parse_header_loop f d t n)
unfolding shifted
loop_shift zero a d t n = unfold parse_header_loop in refl
loop_shift (suc f) a d t n = elim (front d) [
  | no_line e ↦ loop_none f d t (add_size a n) e ∙ ap (shifted a) (sym (loop_none f d t n e))
  | blank_line e ↦
      loop_end f d t (add_size a n) e
      ∙ ap (λ m. ret RetCode.ready (t, m)) (add_size_assoc a n 2)
      ∙ ap (shifted a) (sym (loop_end f d t n e))
  | bad_line i e s ↦
      loop_bad f d t (add_size a n) i e s ∙ ap (shifted a) (sym (loop_bad f d t n i e s))
  | good_line i kv e s ↦
      loop_line f d t (add_size a n) i kv e s
      ∙ ap (λ m. parse_header_loop f (drop (suc i + 2) d) (put_header t kv.0 kv.1) m)
          (add_size_assoc a n (suc i + 2))
      ∙ loop_shift f a (drop (suc i + 2) d) (put_header t kv.0 kv.1) (add_size n (suc i + 2))
      ∙ ap (shifted a) (sym (loop_line f d t n i kv e s))
]
