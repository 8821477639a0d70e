-- ===== src/Http/Parser/Prefix.antt =====
-- A message that is cut short, in http/parser.cc: the parser waits, wherever the cut is.
use lcy.Prelude.{
  ℕ, zero, suc, ◌+◌, ◌^◌, ◌≤◌, ◌<◌, ◌≡◌, refl, sym, ap, ◌∙◌, subst, inl, inr, true, false, ◌||◌,
  List, [], ◌++◌, length, take, drop, arith, length-append, length-drop, Option-cases,
  take-append_le, drop-append_le, append-nil,
}
use lcy.Http.Message.{
  Request, blank_request, Message, Target, a_request, a_response, an_unknown, base, with_base,
  dump_request,
}
use lcy.Http.Lexer.{crlf}
use lcy.Http.Lexer.Lines.{crlf_stable, crlf_inside}
use lcy.Http.Parser.{
  RetCode, Tag, Parser, Result, ret, fault, out_of_fuel, add_size, fresh, put_header, parse_line,
  parse_header_loop, content_length_of, is_chunked, done, used, line_found, parse_start_line,
  parse_request_line, line_case, header_case, parse_tag, parse,
}
use lcy.Http.Parser.HeaderLoop.{
  loop_none, loop_end, loop_bad, loop_line, widen_line, front, no_line, blank_line, bad_line,
  good_line, loop_ready,
}
use lcy.Http.Parser.HeaderResume.{header_step, header_case-ready, length_bound}
use lcy.Http.Parser.LineResume.{parse_line-none, parse_line-some, line_ready}
use lcy.Http.Parser.PrefixBody.{Ends, is_request, WaitsPlain, body_cut}
use lcy.Http.Parser.Stages.{at_body, at_header, at_line, parse-at_tag}
use lcy.Http.Parser.RoundTrip.{IsSendable, finished, parse-dump_request}

-- The header loop waits, or what it says stays when bytes follow.
data Stable (f g : ℕ) (d more : List ℕ) (t : Target) (n : ℕ) : Type 0 where
  paused :
      (t' : Target) (n' : ℕ)
      → parse_header_loop f d t n ≡ ret RetCode.waiting_data (t', n')
      → Stable f g d more t n
  settled : parse_header_loop g (d ++ more) t n ≡ parse_header_loop f d t n → Stable f g d more t n

loop-Stable :
    (f g : ℕ) (d more : List ℕ) (t : Target) (n : ℕ)
    → length d < f
    → length (d ++ more) < g
    → Stable f g d more t n
loop-Stable zero g d more t n hf hg = absurd (omega (arith, hf))
loop-Stable (suc f) zero d more t n hf hg = absurd (omega (arith, hg))
loop-Stable (suc f) (suc g) d more t n hf hg = elim (front d) [
  | no_line e ↦ paused t n (loop_none f d t n e)
  | blank_line e ↦
      settled (loop_end g (d ++ more) t n (crlf_stable d more 0 e) ∙ sym (loop_end f d t n e))
  | bad_line i e s ↦ settled (
      loop_bad g (d ++ more) t n i (crlf_stable d more (suc i) e) (
        ap lcy.Http.Lexer.header_split
          (take-append_le (suc i) d more (omega (arith, crlf_inside d (suc i) e)))
        ∙ s)
      ∙ sym (loop_bad f d t n i e s))
  | good_line i kv e s ↦
      let l : suc i + 2 ≤ length d = omega (arith, crlf_inside d (suc i) e) in
      let size = length-drop (suc i + 2) d in
      let here = loop_line f d t n i kv e s in
      let there =
        loop_line g (d ++ more) t n i kv (crlf_stable d more (suc i) e) (widen_line d more i kv e s)
        ∙ ap (λ x. parse_header_loop g x (put_header t kv.0 kv.1) (add_size n (suc i + 2)))
            (drop-append_le (suc i + 2) d more l) in
      elim (loop-Stable f g (drop (suc i + 2) d) more (put_header t kv.0 kv.1)
        (add_size n (suc i + 2)) (omega (arith, size, l, hf))
        (omega
          (arith, size, l, hg, length-append d more, length-append (drop (suc i + 2) d) more))) [
            | paused t' n' w ↦ paused t' n' (here ∙ w)
            | settled w ↦ settled (there ∙ w ∙ sym here)
          ]
]

-- The message stays a request.
with_base-is_request : (t : Target) (m : Message) → is_request (with_base t m) ≡ is_request t
with_base-is_request (a_request r) m = refl
with_base-is_request (a_response r) m = refl
with_base-is_request (an_unknown x) m = refl

answer-is_request :
    {c c' : RetCode} {t t' : Target} {n n' : ℕ}
    → ◌≡◌ {A = Result (Target × ℕ)} (ret c (t, n)) (ret c' (t', n'))
    → is_request t' ≡ is_request t
answer-is_request {t = t} {t' = t'} e = let same : t' ≡ t = cc in ap is_request same

loop-is_request :
    (f : ℕ) (d : List ℕ) (t : Target) (n : ℕ) (c : RetCode) (t' : Target) (n' : ℕ)
    → length d < f
    → parse_header_loop f d t n ≡ ret c (t', n')
    → is_request t' ≡ is_request t
loop-is_request zero d t n c t' n' h w = absurd (omega (arith, h))
loop-is_request (suc f) d t n c t' n' h w = elim (front d) [
  | no_line e ↦ answer-is_request (sym (loop_none f d t n e) ∙ w)
  | blank_line e ↦ answer-is_request (sym (loop_end f d t n e) ∙ w)
  | bad_line i e s ↦ answer-is_request (sym (loop_bad f d t n i e s) ∙ w)
  | good_line i kv e s ↦
      loop-is_request f (drop (suc i + 2) d) (put_header t kv.0 kv.1) (add_size n (suc i + 2)) c t'
        n' (omega (arith, length-drop (suc i + 2) d, crlf_inside d (suc i) e, h))
        (sym (loop_line f d t n i kv e s) ∙ w)
      ∙ with_base-is_request t _
]

line_found-is_request :
    (i : ℕ) (c : RetCode) (r : Request) (c' : RetCode) (t' : Target) (n' : ℕ)
    → line_found i (ret c (a_request r)) ≡ ret c' (t', n')
    → is_request t' ≡ true
line_found-is_request i RetCode.ready r c' t' n' e = answer-is_request e
line_found-is_request i RetCode.waiting_data r c' t' n' e = answer-is_request e
line_found-is_request i RetCode.error r c' t' n' e = answer-is_request e

line-is_request :
    (d : List ℕ) (r : Request) (c : RetCode) (t' : Target) (n : ℕ)
    → parse_line d (a_request r) ≡ ret c (t', n)
    → is_request t' ≡ true
unfolding parse_start_line
line-is_request d r c t' n w = elim (Option-cases (crlf d)) [
  | inl e ↦ answer-is_request (sym (parse_line-none d (a_request r) e) ∙ w)
  | inr (i, e) ↦
      line_found-is_request i (parse_request_line (take i d) r).0
        (parse_request_line (take i d) r).1 c t' n (sym (parse_line-some d (a_request r) i e) ∙ w)
]

-- The parser behind the first line.
abbrev head_parser : ℕ → Parser
head_parser a = record fresh { tag = Tag.header; already_parse = a }

header_settled :
    (a : ℕ) (d more : List ℕ) (t : Target) (r : Result (Target × ℕ))
    → a ≤ length d
    → length (d ++ more) < 2 ^ 64
    → 0 < length more
    → is_request t ≡ true
    → parse_header_loop (suc (length (drop a d))) (drop a d) t 0 ≡ r
    → Ends (header_case (at_body (d ++ more)) (head_parser a) r) (length (d ++ more))
    → WaitsPlain (header_case (at_body d) (head_parser a) r)
unfolding header_case
header_settled a d more t (ret RetCode.ready (u, n)) ha hs hm kind l ends =
    let q = head_parser a in
    let size = length-drop a d in
    let bound = length-append d more in
    let (again, inside) =
      loop_ready (suc (length (drop a d))) (suc (length (drop a d ++ more))) (drop a d) more t 0 u n
        (omega arith) (omega arith) (omega (arith, size, bound, hs)) l in
    elim (Option-cases (content_length_of (base u))) [
      | inl e ↦
          let (p, v, x, c, z) = ends in
          absurd (let no : fault ≡ done RetCode.ready p v = rw (header_case, e) at x in cc)
      | inr (len, e) ↦ subst WaitsPlain (sym (header_case-ready (at_body d) q u n len e)) (
          body_cut (add_size a n) len (is_chunked (base u) || false) d more u
            (omega (arith, inside, size, bound, hs, ha)) hs (length_bound (base u) len e) hm
            (loop-is_request _ (drop a d) t 0 RetCode.ready u n (omega arith) l ∙ kind)
            (subst (λ x. Ends x (length (d ++ more)))
              (header_case-ready (at_body (d ++ more)) q u n len e) ends))
    ]
header_settled a d more t (ret RetCode.waiting_data (u, n)) ha hs hm kind l ends = (
  used (head_parser a) n,
  u,
  refl,
  refl,
  loop-is_request _ (drop a d) t 0 RetCode.waiting_data u n (omega arith) l ∙ kind,
)
header_settled a d more t (ret RetCode.error (u, n)) ha hs hm kind l (p, v, x, c, z) = absurd cc
header_settled a d more t fault ha hs hm kind l (p, v, x, c, z) = absurd cc
header_settled a d more t out_of_fuel ha hs hm kind l (p, v, x, c, z) = absurd cc

header_cut :
    (a : ℕ) (d more : List ℕ) (t : Target)
    → a ≤ length d
    → length (d ++ more) < 2 ^ 64
    → 0 < length more
    → is_request t ≡ true
    → Ends (at_header (d ++ more) (head_parser a) t) (length (d ++ more))
    → WaitsPlain (at_header d (head_parser a) t)
unfolding header_case
header_cut a d more t ha hs hm kind ends =
    let d₁ = drop a d in
    let q = head_parser a in
    let f = suc (length d₁) in
    let g = suc (length (d₁ ++ more)) in
    let bound = length-append d more in
    let here = header_step (at_body d) q d t ha in
    let there =
      header_step (at_body (d ++ more)) q (d ++ more) t (omega (arith, ha, bound))
      ∙ ap (λ z. header_case (at_body (d ++ more)) q (parse_header_loop (suc (length z)) z t 0))
          (drop-append_le a d more ha) in
    elim (loop-Stable f g d₁ more t 0 (omega arith) (omega arith)) [
      | paused t' n' w ↦ (
        used q n',
        t',
        here ∙ ap (header_case (at_body d) q) w,
        refl,
        loop-is_request f d₁ t 0 RetCode.waiting_data t' n' (omega arith) w ∙ kind,
      )
      | settled w ↦ subst WaitsPlain (sym here) (
          header_settled a d more t (parse_header_loop f d₁ t 0) ha hs hm kind refl (
            subst (λ x. Ends x (length (d ++ more)))
              (there ∙ ap (header_case (at_body (d ++ more)) q) w) ends))
    ]

line_settled :
    (d more : List ℕ) (b : Request) (r : Result (Target × ℕ))
    → length (d ++ more) < 2 ^ 64
    → 0 < length more
    → parse_line d (a_request b) ≡ r
    → Ends (line_case (at_header (d ++ more)) fresh r) (length (d ++ more))
    → WaitsPlain (line_case (at_header d) fresh r)
unfolding line_case
line_settled d more b (ret RetCode.ready (u, n)) hs hm l ends =
    let bound = length-append d more in
    let (again, inside) = line_ready d more (a_request b) u n (omega (arith, bound, hs)) l in
    header_cut (add_size 0 n) d more u (omega (arith, inside, bound, hs)) hs hm
      (line-is_request d b RetCode.ready u n l) ends
line_settled d more b (ret RetCode.waiting_data (u, n)) hs hm l ends =
    (fresh, u, refl, refl, line-is_request d b RetCode.waiting_data u n l)
line_settled d more b (ret RetCode.error (u, n)) hs hm l (p, v, x, c, z) = absurd cc
line_settled d more t fault hs hm l (p, v, x, c, z) = absurd cc
line_settled d more t out_of_fuel hs hm l (p, v, x, c, z) = absurd cc

line_cut :
    (d more : List ℕ) (b : Request)
    → length (d ++ more) < 2 ^ 64
    → 0 < length more
    → Ends (at_line (d ++ more) fresh (a_request b)) (length (d ++ more))
    → WaitsPlain (at_line d fresh (a_request b))
unfolding parse_tag line_case
line_cut d more b hs hm ends =
    let t = a_request b in
    elim (Option-cases (crlf d)) [
      | inl e ↦ (fresh, t, ap (line_case (at_header d) fresh) (parse_line-none d t e), refl, refl)
      | inr (i, e) ↦ line_settled d more b (parse_line d t) hs hm refl (
          subst (λ x. Ends x (length (d ++ more)))
            (ap (line_case (at_header (d ++ more)) fresh) (
              parse_line-some (d ++ more) t i (crlf_stable d more i e)
              ∙ ap (λ x. line_found i (parse_start_line x t))
                  (take-append_le i d more (omega (arith, crlf_inside d i e)))
              ∙ sym (parse_line-some d t i e)))
            ends)
    ]

-- A first call on the front of the dump of a request that the format can carry waits for more,
-- wherever the dump is cut, and has not read that the body comes in chunks.
pub parse_prefix :
    (r : Request) (d more : List ℕ)
    → IsSendable r
    → 0 < length more
    → d ++ more ≡ dump_request r
    → WaitsPlain (parse fresh d (a_request blank_request))
parse_prefix r d more ok hm e =
    let t = a_request blank_request in
    let whole : parse fresh (d ++ more) t ≡ done RetCode.ready (finished r) (a_request r) =
      ap (λ x. parse fresh x t) (e ∙ sym (append-nil (dump_request r)))
      ∙ parse-dump_request r [] ok in
    let size : length (d ++ more) ≡ length (dump_request r) = ap length e in
    subst WaitsPlain (sym (parse-at_tag Tag.line fresh d t refl)) (
      line_cut d more blank_request (omega (arith, size, ok.is_size)) hm (
        finished r,
        a_request r,
        sym (parse-at_tag Tag.line fresh (d ++ more) t refl) ∙ whole,
        refl,
        sym size,
      ))
