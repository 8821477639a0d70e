-- ===== src/Http/Parser/Resume.antt =====
-- A message may arrive in parts: http/parser.cc goes on where it stopped.
use lcy.Prelude.{
  ℕ, ◌^◌, ◌≤◌, ◌<◌, ◌≡◌, refl, sym, ap, ◌∙◌, inl, inr, ◌⊎◌, false, List, ◌++◌, length, arith,
  length-append,
}
use mathlib.Core.Path.{ap₂}
use lcy.Http.Message.{Target}
use lcy.Http.Parser.{
  RetCode, Tag, Parser, Result, ret, fault, out_of_fuel, parse_line, Outcome, done, used, line_case,
  parse_tag, parse,
}
use lcy.Http.Parser.BodyResume.{last}
use lcy.Http.Parser.LineResume.{line_waits, line_ready}
use lcy.Http.Parser.HeaderResume.{shown, Fits, body_stage, header_stage}
use lcy.Http.Parser.Stages.{at_header, at_line, at_tag, parse-at_tag}

-- The two ways in which a call that waits went through the first line.
data LineWaits (k : Parser → Target → Outcome) (p : Parser) (r : Result (Target × ℕ)) (p' : Parser)
    (t' : Target) : Type 0 where
  in_line : (n : ℕ) → r ≡ ret RetCode.waiting_data (t', n) → p' ≡ p → LineWaits k p r p' t'
  later :
      (t : Target) (n : ℕ)
      → r ≡ ret RetCode.ready (t, n)
      → k (record (used p n) { tag = Tag.header }) t ≡ done RetCode.waiting_data p' t'
      → LineWaits k p r p' t'

line_case-waits :
    (k : Parser → Target → Outcome) (p : Parser) (r : Result (Target × ℕ)) (p' : Parser)
    (t' : Target)
    → line_case k p r ≡ done RetCode.waiting_data p' t'
    → LineWaits k p r p' t'
unfolding line_case
line_case-waits k p (ret RetCode.ready (t, n)) p' t' w = later t n refl w
line_case-waits k p (ret RetCode.waiting_data (t, n)) p' t' w =
    let et : t ≡ t' = cc in
    let ep : p ≡ p' = cc in in_line n (ap (λ u. ret RetCode.waiting_data (u, n)) et) (sym ep)
line_case-waits k p (ret RetCode.error (t, n)) p' t' w = absurd cc
line_case-waits k p fault p' t' w = absurd cc
line_case-waits k p out_of_fuel p' t' w = absurd cc

line_stage :
    (p : Parser) (d more : List ℕ) (t : Target) (p' : Parser) (t' : Target)
    → Fits p d more
    → p.tag ≡ Tag.line
    → p.already_parse ≡ 0
    → p'.chunked_transfer ≡ false
    → at_line d p t ≡ done RetCode.waiting_data p' t'
    → shown (at_tag p'.tag (d ++ more) p' t') ≡ shown (at_line (d ++ more) p t)
unfolding parse_tag line_case
line_stage p d more t p' t' fit e z c w =
    elim (line_case-waits (at_header d) p (parse_line d t) p' t' w) [
      | in_line n r q ↦
          ap (λ g. shown (at_tag g (d ++ more) p' t')) (ap (λ x. x.tag) q ∙ e)
          ∙ ap₂ (λ x u. shown (at_line (d ++ more) x u)) q (line_waits d t t' n r)
      | later t₁ n r w' ↦
          let short : length d < 2 ^ 64 = omega (arith, fit.is_size, length-append d more) in
          let (again, inside) = line_ready d more t t₁ n short r in
          header_stage (record (used p n) { tag = Tag.header }) d more t₁ p' t'
            (record { used_up = omega (arith, z, inside, short); is_size = fit.is_size }) refl c w'
          ∙ ap (λ x. shown (line_case (at_header (d ++ more)) p x)) (sym again)
    ]

-- A parser between two calls: what it has used up stands in the buffer, and nothing of it before the
-- first line is complete.
pub record Between (p : Parser) (d : List ℕ) : Type 0 where
  pub inside : p.already_parse ≤ length d
  pub unstarted : p.tag ≡ Tag.line → p.already_parse ≡ 0
  pub is_size : p.content_length < 2 ^ 64

Tag-cases : (g : Tag) → (g ≡ Tag.line) ⊎ ((g ≡ Tag.header) ⊎ ((g ≡ Tag.body) ⊎ (g ≡ Tag.ready)))
Tag-cases Tag.line = inl refl
Tag-cases Tag.header = inr (inl refl)
Tag-cases Tag.body = inr (inr (inl refl))
Tag-cases Tag.ready = inr (inr (inr refl))

-- If a call on a buffer waits for more data, of a message that is not sent in chunks as far as it is
-- known, then to call again with the parser and the message it left, on the buffer with more bytes
-- behind, gives what a first call on the longer buffer gives, up to the state of a parser that
-- found an error.
pub parse_resume_whole :
    (p : Parser) (d more : List ℕ) (t : Target) (p' : Parser) (t' : Target)
    → Between p d
    → length (d ++ more) < 2 ^ 64
    → p'.chunked_transfer ≡ false
    → parse p d t ≡ done RetCode.waiting_data p' t'
    → shown (parse p' (d ++ more) t') ≡ shown (parse p (d ++ more) t)
parse_resume_whole p d more t p' t' between h c w =
    ap shown (parse-at_tag p'.tag p' (d ++ more) t' refl) ∙ elim (Tag-cases p.tag) [
      | inl e ↦
          line_stage p d more t p' t' fit e (between.unstarted e) c
            (sym (parse-at_tag Tag.line p d t e) ∙ w)
          ∙ ap shown (sym (parse-at_tag Tag.line p (d ++ more) t e))
      | inr (inl e) ↦
          header_stage p d more t p' t' fit e c (sym (parse-at_tag Tag.header p d t e) ∙ w)
          ∙ ap shown (sym (parse-at_tag Tag.header p (d ++ more) t e))
      | inr (inr (inl e)) ↦ ap shown (
          body_stage p d more fit t p' t' e between.is_size c
            (sym (parse-at_tag Tag.body p d t e) ∙ w)
          ∙ sym (parse-at_tag Tag.body p (d ++ more) t e))
      | inr (inr (inr e)) ↦ absurd (
          let q : last p t ≡ done RetCode.waiting_data p' t' =
            sym (parse-at_tag Tag.ready p d t e) ∙ w in
          cc)
    ]
  where
    fit : Fits p d more
    fit = record { used_up = between.inside; is_size = h }
