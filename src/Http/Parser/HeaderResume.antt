-- ===== src/Http/Parser/HeaderResume.antt =====
-- The headers and the body of http/parser.cc when their bytes arrive in parts.
use lcy.Prelude.{
  ℕ, suc, ◌+◌, ◌^◌, ◌≤◌, ◌<◌, ◌≡◌, refl, sym, ap, ◌∙◌, inl, inr, false, ◌||◌, none, some, List,
  ◌++◌, ltb, length, drop, arith, length-append, length-drop, Bool-cases, Option-cases, ge→ltb,
  ltb→ge, drop-append_le, drop-drop,
}
use lcy.Http.Text.{codes, atoi}
use lcy.Http.Message.{Message, Target, base, get_header}
use lcy.Http.Parser.{
  RetCode, Tag, Parser, Result, ret, fault, out_of_fuel, add_size, fresh, parse_header_loop,
  parse_header, max_size, to_size, content_length_of, is_chunked, Outcome, done, used, header_case,
  parse_tag,
}
use lcy.Http.Parser.HeaderLoop.{loop_fuel, loop_waits, loop_ready, shifted, loop_shift}
use lcy.Http.Parser.BodyResume.{body-chunked, body_resume}
use lcy.Http.Parser.Stages.{at_body, at_header, at_tag}

-- What a call shows of its outcome: behind an error the parser itself is of no use any more, and is
-- forgotten.
unfoldable pub shown : Outcome → Outcome
shown (ret RetCode.ready (p, t)) = ret RetCode.ready (p, t)
shown (ret RetCode.waiting_data (p, t)) = ret RetCode.waiting_data (p, t)
shown (ret RetCode.error (p, t)) = ret RetCode.error (fresh, t)
shown fault = fault
shown out_of_fuel = out_of_fuel

-- The parser behind the headers.
abbrev pub behind : Parser → ℕ → ℕ → Target → Parser
behind p n len t = record (used p n) {
  tag = Tag.body;
  content_length = len;
  chunked_transfer = is_chunked (base t) || p.chunked_transfer;
}

header-used :
    (k : Parser → Target → Outcome) (p : Parser) (a : ℕ) (r : Result (Target × ℕ))
    → shown (header_case k (used p a) r) ≡ shown (header_case k p (shifted a r))
unfolding shown header_case shifted
header-used k p a (ret RetCode.ready (t, n)) = elim (Option-cases (content_length_of (base t))) [
  | inl e ↦ rw (header_case, e)
  | inr (len, e) ↦
      rw (header_case, e)
        (ap (λ m. shown (k (record (behind p 0 len t) { already_parse = m }) t)) (omega arith))
]
header-used k p a (ret RetCode.waiting_data (t, n)) =
    ap (λ m. done RetCode.waiting_data (record p { already_parse = m }) t) (omega arith)
header-used k p a (ret RetCode.error (t, n)) = refl
header-used k p a fault = refl
header-used k p a out_of_fuel = refl

pub header_step :
    (k : Parser → Target → Outcome) (p : Parser) (d : List ℕ) (t : Target)
    → p.already_parse ≤ length d
    → parse_tag k Tag.header p d t
      ≡ header_case k p
          (parse_header_loop (suc (length (drop p.already_parse d))) (drop p.already_parse d) t 0)
unfolding parse_tag parse_header
header_step k p d t h = simp (ge→ltb (length d) p.already_parse h) refl

-- The two ways in which a call that waits went through the headers.
data HeaderWaits (k : Parser → Target → Outcome) (p : Parser) (r : Result (Target × ℕ))
    (p' : Parser) (t' : Target) : Type 0 where
  in_headers :
      (n : ℕ) → r ≡ ret RetCode.waiting_data (t', n) → p' ≡ used p n → HeaderWaits k p r p' t'
  in_body :
      (t : Target) (n len : ℕ)
      → r ≡ ret RetCode.ready (t, n)
      → content_length_of (base t) ≡ some len
      → k (behind p n len t) t ≡ done RetCode.waiting_data p' t'
      → HeaderWaits k p r p' t'

header_case-waits :
    (k : Parser → Target → Outcome) (p : Parser) (r : Result (Target × ℕ)) (p' : Parser)
    (t' : Target)
    → header_case k p r ≡ done RetCode.waiting_data p' t'
    → HeaderWaits k p r p' t'
unfolding header_case
header_case-waits k p (ret RetCode.ready (t, n)) p' t' w =
    elim (Option-cases (content_length_of (base t))) [
      | inl e ↦
          absurd (let q : fault ≡ done RetCode.waiting_data p' t' = rw (header_case, e) at w in cc)
      | inr (len, e) ↦ in_body t n len refl e (rw (header_case, e) at w)
    ]
header_case-waits k p (ret RetCode.waiting_data (t, n)) p' t' w =
    let et : t ≡ t' = cc in
    let ep : used p n ≡ p' = cc in
    in_headers n (ap (λ u. ret RetCode.waiting_data (u, n)) et) (sym ep)
header_case-waits k p (ret RetCode.error (t, n)) p' t' w = absurd cc
header_case-waits k p fault p' t' w = absurd cc
header_case-waits k p out_of_fuel p' t' w = absurd cc

-- A length that `reserve` accepts is a `size_t`.
pub length_bound : (m : Message) (len : ℕ) → content_length_of m ≡ some len → len < 2 ^ 64
unfolding content_length_of
length_bound m len e =
    elim (Option-cases (atoi (get_header m.headers (codes "Content-Length") (codes "0")))) [
      | inl a ↦ absurd (let q : none ≡ some len = rw (content_length_of, a) at e in cc)
      | inr (n, a) ↦ elim (Bool-cases (ltb max_size (to_size n))) [
        | inl b ↦ absurd (let q : none ≡ some len = rw (content_length_of, a, b) at e in cc)
        | inr b ↦
            let q : some (to_size n) ≡ some len = rw (content_length_of, a, b) at e in
            let s : to_size n ≡ len = cc in omega (arith, s, ltb→ge max_size (to_size n) b)
      ]
    ]

pub header_case-ready :
    (k : Parser → Target → Outcome) (p : Parser) (t : Target) (n len : ℕ)
    → content_length_of (base t) ≡ some len
    → header_case k p (ret RetCode.ready (t, n)) ≡ k (behind p n len t) t
unfolding header_case
header_case-ready k p t n len e = rw (header_case, e)

-- The parts of the statement that the stages share: what stands in front was used up, and all bytes
-- fit a `size_t`.
pub record Fits (p : Parser) (d more : List ℕ) : Type 0 where
  pub used_up : p.already_parse ≤ length d
  pub is_size : length (d ++ more) < 2 ^ 64

module _ (p : Parser) (d more : List ℕ) (fit : Fits p d more) where
  drop-whole : drop p.already_parse (d ++ more) ≡ drop p.already_parse d ++ more
  drop-whole = drop-append_le p.already_parse d more fit.used_up

  wider : p.already_parse ≤ length (d ++ more)
  wider = omega (arith, fit.used_up, length-append d more)

  in_headers_resume :
      (t : Target) (n : ℕ) (t' : Target)
      → parse_header_loop (suc (length (drop p.already_parse d))) (drop p.already_parse d) t 0
        ≡ ret RetCode.waiting_data (t', n)
      → shown (at_header (d ++ more) (used p n) t') ≡ shown (at_header (d ++ more) p t)
  in_headers_resume t n t' r =
      let d₁ = drop p.already_parse d in
      let all = d ++ more in
      let size = length-drop p.already_parse d in
      let both = length-append d more in
      let g = suc (length (d₁ ++ more)) in
      let x =
        loop_waits (suc (length d₁)) g d₁ more t 0 t' n (omega arith) (omega arith)
          (omega (arith, size, both, fit.is_size)) r in
      let y = drop x.taken (d₁ ++ more) in
      let moved : add_size p.already_parse n ≡ p.already_parse + x.taken =
        omega (arith, x.counted, x.inside, size, both, fit.is_size, fit.used_up) in
      ap shown (
        header_step (at_body all) (used p n) all t'
          (omega (arith, moved, x.inside, size, both, fit.used_up)))
      ∙ ap
          (λ z.
            shown
              (header_case (at_body all) (used p n) (parse_header_loop (suc (length z)) z t' 0)))
          (ap (λ m. drop m all) moved
            ∙ sym (drop-drop x.taken p.already_parse all)
            ∙ ap (drop x.taken) drop-whole)
      ∙ header-used (at_body all) p n (parse_header_loop (suc (length y)) y t' 0)
      ∙ ap (λ z. shown (header_case (at_body all) p z))
          (sym (loop_shift (suc (length y)) n y t' 0)
            ∙ ap (λ m. parse_header_loop (suc (length y)) y t' m)
                (omega (arith, x.counted, x.inside, size, both, fit.is_size))
            ∙ loop_fuel (suc (length y)) g y t' n (omega arith)
                (omega (arith, length-drop x.taken (d₁ ++ more)))
            ∙ sym x.resumed)
      ∙ ap (λ z. shown (header_case (at_body all) p (parse_header_loop (suc (length z)) z t 0)))
          (sym drop-whole)
      ∙ ap shown (sym (header_step (at_body all) p all t wider))

  -- Where the headers end in the bytes of the first call, a call on more bytes finds the same end.
  headers_again :
      (t : Target) (n len : ℕ) (t₁ : Target)
      → parse_header_loop (suc (length (drop p.already_parse d))) (drop p.already_parse d) t 0
        ≡ ret RetCode.ready (t₁, n)
      → content_length_of (base t₁) ≡ some len
      → (at_header (d ++ more) p t ≡ at_body (d ++ more) (behind p n len t₁) t₁)
        × (add_size p.already_parse n ≤ length d)
  headers_again t n len t₁ r c =
      let d₁ = drop p.already_parse d in
      let size = length-drop p.already_parse d in
      let both = length-append d more in
      let (again, inside) =
        loop_ready (suc (length d₁)) (suc (length (d₁ ++ more))) d₁ more t 0 t₁ n (omega arith)
          (omega arith) (omega (arith, size, both, fit.is_size)) r in
      (
        header_step (at_body (d ++ more)) p (d ++ more) t wider
            ∙ ap
                (λ z.
                  header_case (at_body (d ++ more)) p (parse_header_loop (suc (length z)) z t 0))
                drop-whole
            ∙ ap (header_case (at_body (d ++ more)) p) again
            ∙ header_case-ready (at_body (d ++ more)) p t₁ n len c,
        omega (arith, inside, size, both, fit.is_size, fit.used_up),
      )

  -- The three stages of a call that waits.
  pub body_stage :
      (t : Target) (p' : Parser) (t' : Target)
      → p.tag ≡ Tag.body
      → p.content_length < 2 ^ 64
      → p'.chunked_transfer ≡ false
      → at_body d p t ≡ done RetCode.waiting_data p' t'
      → at_tag p'.tag (d ++ more) p' t' ≡ at_body (d ++ more) p t
  body_stage t p' t' e hc c w =
      let plain = sym (body-chunked p d t p' t' fit.used_up w) ∙ c in
      let (tag, same) = body_resume p d more t p' t' fit.used_up fit.is_size hc plain w in
      ap (λ g. at_tag g (d ++ more) p' t') (tag ∙ e) ∙ same

pub header_stage :
    (p : Parser) (d more : List ℕ) (t : Target) (p' : Parser) (t' : Target)
    → Fits p d more
    → p.tag ≡ Tag.header
    → p'.chunked_transfer ≡ false
    → at_header d p t ≡ done RetCode.waiting_data p' t'
    → shown (at_tag p'.tag (d ++ more) p' t') ≡ shown (at_header (d ++ more) p t)
header_stage p d more t p' t' fit e c w =
    elim (header_case-waits (at_body d) p _ p' t'
      (sym (header_step (at_body d) p d t fit.used_up) ∙ w)) [
        | in_headers n r q ↦
            ap (λ g. shown (at_tag g (d ++ more) p' t')) (ap (λ x. x.tag) q ∙ e)
            ∙ ap (λ x. shown (at_header (d ++ more) x t')) q
            ∙ in_headers_resume p d more fit t n t' r
        | in_body t₁ n len r l w' ↦
            let (again, inside) = headers_again p d more fit t n len t₁ r l in
            ap shown (
              body_stage (behind p n len t₁) d more
                (record { used_up = inside; is_size = fit.is_size }) t₁ p' t' refl
                (length_bound (base t₁) len l) c w'
              ∙ sym again)
      ]
