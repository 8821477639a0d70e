-- ===== src/Http/Parser/BodyResume.antt =====
-- `parseBody` of http/parser.cc without chunks, when the body arrives in parts.
use lcy.Prelude.{
  ℕ, suc, ◌+◌, ◌^◌, ◌≤◌, ◌<◌, ◌≡◌, refl, sym, ap, ◌∙◌, inl, inr, true, false, List, [], ◌∷◌, ◌++◌,
  ◌==◌, leb, if◌then◌else◌, length, take, drop, min, arith, length-append, length-take,
  append_assoc, Bool-cases, leb→gt, ge→ltb, take_all, drop-append_le, drop-append_length,
  length-drop,
}
use mathlib.Core.Path.{ap₂}
use lcy.Http.Message.{Target}
use lcy.Http.Parser.{
  RetCode, Tag, Parser, Result, ret, fault, out_of_fuel, add_size, sub_size, Body, finish,
  parse_plain, parse_body, Outcome, done, used, body_case, parse_tag,
}

-- `read_len`
abbrev pub room : ℕ → List ℕ → List ℕ → ℕ
room cl buf d = min (sub_size cl (length buf)) (length d)

-- What `parse_plain` makes of the bytes it has then.
abbrev pub filled : Target → ℕ → List ℕ → ℕ → Result Body
filled t cl buf n =
    if leb cl (length buf)
    then finish t (take cl buf) n
    else ret RetCode.waiting_data (record { target = t; nparse = n; body_buf = buf })

pub plain-filled :
    (d : List ℕ) (t : Target) (cl : ℕ) (buf : List ℕ)
    → (cl == 0) ≡ false
    → parse_plain d t cl buf ≡ filled t cl (buf ++ take (room cl buf d) d) (room cl buf d)
unfolding parse_plain
plain-filled d t cl buf e = rw e refl

-- A call that waits has taken all bytes, and they are too few.
record TooFew (d : List ℕ) (t : Target) (cl : ℕ) (buf : List ℕ) (b : Body) : Type 0 where
  left : b ≡ record { target = t; nparse = length d; body_buf = buf ++ d }
  few : length buf + length d < cl

pub filled_full :
    (t : Target) (cl : ℕ) (buf : List ℕ) (n : ℕ)
    → leb cl (length buf) ≡ true
    → filled t cl buf n ≡ finish t (take cl buf) n
filled_full t cl buf n e = rw e refl

pub filled_short :
    (t : Target) (cl : ℕ) (buf : List ℕ) (n : ℕ)
    → leb cl (length buf) ≡ false
    → filled t cl buf n
      ≡ ret RetCode.waiting_data (record { target = t; nparse = n; body_buf = buf })
filled_short t cl buf n e = rw e refl

pub plain_empty :
    (d : List ℕ) (t : Target) (cl : ℕ) (buf : List ℕ)
    → (cl == 0) ≡ true
    → parse_plain d t cl buf ≡ finish t buf 0
unfolding parse_plain
plain_empty d t cl buf e = rw e refl

ret-same :
    {b b' : Body}
    → ◌≡◌ {A = Result Body} (ret RetCode.waiting_data b) (ret RetCode.waiting_data b')
    → b ≡ b'
ret-same e = cc

room_all :
    (d : List ℕ) (cl : ℕ) (buf : List ℕ)
    → cl < 2 ^ 64
    → length (buf ++ take (room cl buf d) d) < cl
    → (room cl buf d ≡ length d) × (length buf + length d < cl)
room_all d cl buf hc h =
    let a = length-append buf (take (room cl buf d) d) in
    let b = length-take (room cl buf d) d in
    (omega (arith, a, b, hc, h), omega (arith, a, b, hc, h))

plain_waits :
    (d : List ℕ) (t : Target) (cl : ℕ) (buf : List ℕ) (b : Body)
    → cl < 2 ^ 64
    → parse_plain d t cl buf ≡ ret RetCode.waiting_data b
    → ((cl == 0) ≡ false) × TooFew d t cl buf b
plain_waits d t cl buf b hc w = elim (Bool-cases (cl == 0)) [
  | inl e ↦ absurd (let q = sym (plain_empty d t cl buf e) ∙ w in cc)
  | inr e ↦ elim (Bool-cases (leb cl (length (buf ++ take (room cl buf d) d)))) [
    | inl full ↦ absurd (
        let q =
          sym (
            plain-filled d t cl buf e
            ∙ filled_full t cl (buf ++ take (room cl buf d) d) (room cl buf d) full)
          ∙ w in
        cc)
    | inr short ↦
        let (all, few) =
          room_all d cl buf hc (leb→gt cl (length (buf ++ take (room cl buf d) d)) short) in
        (
          e,
          record {
            left =
                sym (
                  ret-same (
                    sym (
                      plain-filled d t cl buf e
                      ∙ filled_short t cl (buf ++ take (room cl buf d) d) (room cl buf d) short)
                    ∙ w))
                ∙ ap (λ n. record { target = t; nparse = n; body_buf = buf ++ take n d }) all
                ∙ ap (λ x. record { target = t; nparse = length d; body_buf = buf ++ x })
                    (take_all (length d) d (omega arith));
            few = few;
          },
        )
  ]
]

-- The bytes that come later fill the buffer as if they had come at once.
take-later : (d more : List ℕ) (n : ℕ) → take (length d + n) (d ++ more) ≡ d ++ take n more
take-later [] more n = ap (λ i. take i more) (omega arith)
take-later (c ∷ d) more n =
    ap (λ i. take i (c ∷ (d ++ more)))
      (let e : suc (length d) + n ≡ suc (length d + n) = omega arith in e)
    ∙ ap (◌∷◌ c) (take-later d more n)

room-later :
    (d more : List ℕ) (cl : ℕ) (buf : List ℕ)
    → cl < 2 ^ 64
    → length buf + length d < cl
    → room cl buf (d ++ more) ≡ length d + room cl (buf ++ d) more
room-later d more cl buf hc h = omega (arith, length-append d more, length-append buf d, hc, h)

plain-later :
    (d more : List ℕ) (t : Target) (cl : ℕ) (buf : List ℕ)
    → cl < 2 ^ 64
    → (cl == 0) ≡ false
    → length buf + length d < cl
    → let n = room cl (buf ++ d) more in
      let all = (buf ++ d) ++ take n more in
      (parse_plain more t cl (buf ++ d) ≡ filled t cl all n)
      × (parse_plain (d ++ more) t cl buf ≡ filled t cl all (length d + n))
plain-later d more t cl buf hc e h = (
  plain-filled more t cl (buf ++ d) e,
  plain-filled (d ++ more) t cl buf e
      ∙ ap (λ n. filled t cl (buf ++ take n (d ++ more)) n) (room-later d more cl buf hc h)
      ∙ ap (λ x. filled t cl x (length d + room cl (buf ++ d) more))
          (ap (◌++◌ buf) (take-later d more (room cl (buf ++ d) more))
            ∙ sym (append_assoc buf d (take (room cl (buf ++ d) more) more))),
)

-- The parser that a call leaves that waits for the rest of the body.
abbrev waiting : Parser → List ℕ → Parser
waiting p d = record (used p (length d)) { body_buf = p.body_buf ++ d }

filled-used :
    (k : Parser → Target → Outcome) (p : Parser) (a : ℕ) (buf : List ℕ) (t : Target) (cl : ℕ)
    (all : List ℕ) (n : ℕ)
    → body_case k (record (used p a) { body_buf = buf }) (filled t cl all n)
      ≡ body_case k p (filled t cl all (a + n))
unfolding body_case
filled-used k p a buf t cl all n = elim (Bool-cases (leb cl (length all))) [
  | inl e ↦ rw e (
      ap
        (λ m.
          k (record p { already_parse = m; tag = Tag.ready; body_buf = [] })
            (lcy.Http.Message.set_body t (take cl all)))
        (omega arith))
  | inr e ↦ rw e (
      ap (λ m. done RetCode.waiting_data (record p { already_parse = m; body_buf = all }) t)
        (omega arith))
]

-- What a call of `parseBody` said, of which the parser waits.
body_case-waits :
    (p : Parser) (r : Result Body) (p' : Parser) (t' : Target)
    → body_case (λ q u. done RetCode.ready q u) p r ≡ done RetCode.waiting_data p' t'
    → (b : Body) × (r ≡ ret RetCode.waiting_data b)
      × (p' ≡ record (used p b.nparse) { body_buf = b.body_buf })
      × (t' ≡ b.target)
unfolding body_case
body_case-waits p (ret RetCode.ready b) p' t' e = absurd cc
body_case-waits p (ret RetCode.waiting_data b) p' t' e = (b, refl, cc, cc)
body_case-waits p (ret RetCode.error b) p' t' e = absurd cc
body_case-waits p fault p' t' e = absurd cc
body_case-waits p out_of_fuel p' t' e = absurd cc

pub body_step :
    (k : Parser → Target → Outcome) (p : Parser) (d : List ℕ) (t : Target)
    → p.already_parse ≤ length d
    → p.chunked_transfer ≡ false
    → parse_tag k Tag.body p d t
      ≡ body_case k p (parse_plain (drop p.already_parse d) t p.content_length p.body_buf)
unfolding parse_tag parse_body
body_step k p d t h c = simp (ge→ltb (length d) p.already_parse h, c) refl

-- The switch with nothing behind the body.
abbrev pub last : Parser → Target → Outcome
last p t = done RetCode.ready p t

pub body-chunked :
    (p : Parser) (d : List ℕ) (t : Target) (p' : Parser) (t' : Target)
    → p.already_parse ≤ length d
    → parse_tag last Tag.body p d t ≡ done RetCode.waiting_data p' t'
    → p'.chunked_transfer ≡ p.chunked_transfer
unfolding parse_tag
body-chunked p d t p' t' h w =
    let (b, eb, ep, et) =
      body_case-waits p
        (parse_body (drop p.already_parse d) t p.content_length p.chunked_transfer p.body_buf) p' t'
        (rw (ge→ltb (length d) p.already_parse h) at w) in
    ap (λ q. q.chunked_transfer) ep

-- A call that waits for the rest of a body without chunks, and then a call on more bytes, are as one
-- call on all bytes.
pub body_resume :
    (p : Parser) (d more : List ℕ) (t : Target) (p' : Parser) (t' : Target)
    → p.already_parse ≤ length d
    → length (d ++ more) < 2 ^ 64
    → p.content_length < 2 ^ 64
    → p.chunked_transfer ≡ false
    → parse_tag last Tag.body p d t ≡ done RetCode.waiting_data p' t'
    → (p'.tag ≡ p.tag)
      × (parse_tag last Tag.body p' (d ++ more) t' ≡ parse_tag last Tag.body p (d ++ more) t)
body_resume p d more t p' t' h hs hc c w =
    let d₁ = drop p.already_parse d in
    let (b, eb, ep, et) =
      body_case-waits p (parse_plain d₁ t p.content_length p.body_buf) p' t'
        (sym (body_step last p d t h c) ∙ w) in
    let (e, short) = plain_waits d₁ t p.content_length p.body_buf b hc eb in
    let place : p' ≡ waiting p d₁ =
      ep ∙ ap (λ x. record (used p x.nparse) { body_buf = x.body_buf }) short.left in
    let target : t' ≡ t = et ∙ ap (λ x. x.target) short.left in
    let size = length-drop p.already_parse d in
    let moved : add_size p.already_parse (length d₁) ≡ length d =
      omega (arith, size, h, hs, length-append d more) in
    let (later, once) = plain-later d₁ more t p.content_length p.body_buf hc e short.few in
    (
      ap (λ q. q.tag) place,
      ap₂ (λ q u. parse_tag last Tag.body q (d ++ more) u) place target
          ∙ body_step last (waiting p d₁) (d ++ more) t (omega (arith, moved, length-append d more))
              c
          ∙ ap
              (λ x.
                body_case last (waiting p d₁) (parse_plain x t p.content_length (p.body_buf ++ d₁)))
              (ap (λ n. drop n (d ++ more)) moved ∙ drop-append_length d more)
          ∙ ap (body_case last (waiting p d₁)) later
          ∙ filled-used last p (length d₁) (p.body_buf ++ d₁) t p.content_length _ _
          ∙ ap (body_case last p) (sym once)
          ∙ ap (λ x. body_case last p (parse_plain x t p.content_length p.body_buf))
              (sym (drop-append_le p.already_parse d more h))
          ∙ sym (body_step last p (d ++ more) t (omega (arith, h, length-append d more)) c),
    )
