-- ===== src/Http/Parser/Stages.antt =====
-- The switch of `Impl::parse` in http/parser.cc, without its loop: each tag is followed by the next.
use lcy.Prelude.{
  ℕ, suc, ◌≡◌, refl, ap, ◌∙◌, inl, inr, List, ltb, length, drop, Bool-cases, Option-cases,
}
use lcy.Http.Message.{Target, base}
use lcy.Http.Parser.{
  RetCode, Tag, Parser, Result, ret, fault, out_of_fuel, Body, content_length_of, Outcome,
  parse_header, line_case, header_case, body_case, parse_tag, parse_loop, parse,
}
use lcy.Http.Parser.BodyResume.{last}

abbrev pub at_body : List ℕ → Parser → Target → Outcome
at_body d p t = parse_tag last Tag.body p d t

abbrev pub at_header : List ℕ → Parser → Target → Outcome
at_header d p t = parse_tag (at_body d) Tag.header p d t

abbrev pub at_line : List ℕ → Parser → Target → Outcome
at_line d p t = parse_tag (at_header d) Tag.line p d t

abbrev pub at_tag : Tag → List ℕ → Parser → Target → Outcome
at_tag Tag.line d p t = at_line d p t
at_tag Tag.header d p t = at_header d p t
at_tag Tag.body d p t = at_body d p t
at_tag Tag.ready d p t = last p t

-- Two ways on that agree on the parsers with a tag.
Agree : Tag → (Parser → Target → Outcome) → (Parser → Target → Outcome) → Type 0
Agree tag k k' = (q : Parser) (u : Target) → q.tag ≡ tag → k q u ≡ k' q u

body_case-Agree :
    (k k' : Parser → Target → Outcome) (p : Parser) (r : Result Body)
    → Agree Tag.ready k k'
    → body_case k p r ≡ body_case k' p r
unfolding body_case Agree
body_case-Agree k k' p (ret RetCode.ready b) h = h _ _ refl
body_case-Agree k k' p (ret RetCode.waiting_data b) h = refl
body_case-Agree k k' p (ret RetCode.error b) h = refl
body_case-Agree k k' p fault h = refl
body_case-Agree k k' p out_of_fuel h = refl

header_case-Agree :
    (k k' : Parser → Target → Outcome) (p : Parser) (r : Result (Target × ℕ))
    → Agree Tag.body k k'
    → header_case k p r ≡ header_case k' p r
unfolding header_case Agree
header_case-Agree k k' p (ret RetCode.ready (t, n)) h =
    elim (Option-cases (content_length_of (base t))) [
      | inl e ↦ rw (header_case, e)
      | inr (len, e) ↦ rw (header_case, e) (h _ _ refl)
    ]
header_case-Agree k k' p (ret RetCode.waiting_data b) h = refl
header_case-Agree k k' p (ret RetCode.error b) h = refl
header_case-Agree k k' p fault h = refl
header_case-Agree k k' p out_of_fuel h = refl

line_case-Agree :
    (k k' : Parser → Target → Outcome) (p : Parser) (r : Result (Target × ℕ))
    → Agree Tag.header k k'
    → line_case k p r ≡ line_case k' p r
unfolding line_case Agree
line_case-Agree k k' p (ret RetCode.ready (t, n)) h = h _ _ refl
line_case-Agree k k' p (ret RetCode.waiting_data b) h = refl
line_case-Agree k k' p (ret RetCode.error b) h = refl
line_case-Agree k k' p fault h = refl
line_case-Agree k k' p out_of_fuel h = refl

tag_body-Agree :
    (k k' : Parser → Target → Outcome) (p : Parser) (d : List ℕ) (t : Target)
    → Agree Tag.ready k k'
    → parse_tag k Tag.body p d t ≡ parse_tag k' Tag.body p d t
unfolding parse_tag
tag_body-Agree k k' p d t h = elim (Bool-cases (ltb (length d) p.already_parse)) [
  | inl e ↦ rw e refl
  | inr e ↦ rw e (body_case-Agree k k' p _ h)
]

tag_header-Agree :
    (k k' : Parser → Target → Outcome) (p : Parser) (d : List ℕ) (t : Target)
    → Agree Tag.body k k'
    → parse_tag k Tag.header p d t ≡ parse_tag k' Tag.header p d t
unfolding parse_tag
tag_header-Agree k k' p d t h = elim (Bool-cases (ltb (length d) p.already_parse)) [
  | inl e ↦ rw e refl
  | inr e ↦ rw e (header_case-Agree k k' p (parse_header (drop p.already_parse d) t) h)
]

-- With as much fuel as there are tags left, the loop is the switch.
loop_ready : (f : ℕ) (d : List ℕ) → Agree Tag.ready (λ q u. parse_loop (suc f) q d u) last
unfolding Agree parse_loop parse_tag
loop_ready f d q u e = ap (λ g. parse_tag (λ q' u'. parse_loop f q' d u') g q d u) e

loop_body :
    (f : ℕ) (d : List ℕ) → Agree Tag.body (λ q u. parse_loop (suc (suc f)) q d u) (at_body d)
unfolding Agree parse_loop
loop_body f d q u e =
    ap (λ g. parse_tag (λ q' u'. parse_loop (suc f) q' d u') g q d u) e
    ∙ tag_body-Agree (λ q' u'. parse_loop (suc f) q' d u') last q d u (loop_ready f d)

loop_header :
    (f : ℕ) (d : List ℕ)
    → Agree Tag.header (λ q u. parse_loop (suc (suc (suc f))) q d u) (at_header d)
unfolding Agree parse_loop
loop_header f d q u e =
    ap (λ g. parse_tag (λ q' u'. parse_loop (suc (suc f)) q' d u') g q d u) e
    ∙ tag_header-Agree (λ q' u'. parse_loop (suc (suc f)) q' d u') (at_body d) q d u (loop_body f d)

loop_line :
    (f : ℕ) (d : List ℕ)
    → Agree Tag.line (λ q u. parse_loop (suc (suc (suc (suc f)))) q d u) (at_line d)
unfolding Agree parse_loop parse_tag
loop_line f d q u e =
    ap (λ g. parse_tag (λ q' u'. parse_loop (suc (suc (suc f))) q' d u') g q d u) e
    ∙ line_case-Agree (λ q' u'. parse_loop (suc (suc (suc f))) q' d u') (at_header d) q _
        (loop_header f d)

pub parse-at_tag :
    (tag : Tag) (p : Parser) (d : List ℕ) (t : Target)
    → p.tag ≡ tag
    → parse p d t ≡ at_tag tag d p t
unfolding parse Agree
parse-at_tag Tag.line p d t e = loop_line 0 d p t e
parse-at_tag Tag.header p d t e = loop_header 1 d p t e
parse-at_tag Tag.body p d t e = loop_body 2 d p t e
parse-at_tag Tag.ready p d t e = loop_ready 3 d p t e
