-- ===== src/Http/Parser/LineResume.antt =====
-- `parseLine` of http/parser.cc when its bytes arrive in parts.
use lcy.Prelude.{
  ℕ, ◌^◌, ◌≤◌, ◌<◌, ◌≡◌, ◌≢◌, refl, sym, ap, ◌∙◌, inl, inr, Option, none, some, List, ◌++◌, length,
  take, arith, Bool-cases, Option-cases, take-append_le,
}
use lcy.Prelude.Int.{ℤ}
use lcy.Http.Text.{atoi}
use lcy.Http.Message.{Request, Response, Target, a_request, a_response, an_unknown}
use lcy.Http.Lexer.{is_valid_http_version, line_split, crlf}
use lcy.Http.Lexer.Lines.{crlf_stable, crlf_inside}
use lcy.Http.Parser.{
  RetCode, Result, ret, fault, out_of_fuel, add_size, parse_request_line, set_state_line,
  parse_response_line, parse_start_line, line_found, parse_line,
}

-- A complete line is never waited for.
request_line_answers :
    (d : List ℕ) (r : Request) → (parse_request_line d r).0 ≢ RetCode.waiting_data
unfolding parse_request_line
request_line_answers d r = ground arith

set_state_line_answers :
    (n : Option ℤ) (version : List ℕ) (r r' : Response)
    → set_state_line n version r ≢ ret RetCode.waiting_data r'
unfolding set_state_line
set_state_line_answers none version r r' = λ e. cc
set_state_line_answers (some n) version r r' = ground arith

response_line_answers :
    (d : List ℕ) (r r' : Response) → parse_response_line d r ≢ ret RetCode.waiting_data r'
unfolding parse_response_line
response_line_answers d r r' = elim (Option-cases (line_split d)) [
  | inl e ↦ λ w.
      (let q : ◌≡◌ {A = Result Response} (ret RetCode.error r) (ret RetCode.waiting_data r') =
          rw (parse_response_line, e) at w in
        cc)
  | inr ((version, state, description), e) ↦ elim (Bool-cases (is_valid_http_version version)) [
    | inl b ↦
        λ w. set_state_line_answers (atoi state) version r r' (rw (parse_response_line, e, b) at w)
    | inr b ↦ λ w.
        (let q : ◌≡◌ {A = Result Response} (ret RetCode.error r) (ret RetCode.waiting_data r') =
            rw (parse_response_line, e, b) at w in
          cc)
  ]
]

-- The three kinds of results.
data Kinds {A : Type 0} (x : Result A) : Type 0 where
  answered : (c : RetCode) (a : A) → x ≡ ret c a → Kinds x
  faulted : x ≡ fault → Kinds x
  unfinished : x ≡ out_of_fuel → Kinds x

kind_of : {A : Type 0} (x : Result A) → Kinds x
kind_of (ret c a) = answered c a refl
kind_of fault = faulted refl
kind_of out_of_fuel = unfinished refl

abbrev code : Result Target → RetCode
code (ret c t) = c
code fault = RetCode.error
code out_of_fuel = RetCode.error

start_line_answers :
    (d : List ℕ) (t t' : Target) → parse_start_line d t ≢ ret RetCode.waiting_data t'
unfolding parse_start_line
start_line_answers d (a_request r) t' = λ e. request_line_answers d r (ap code e)
start_line_answers d (a_response r) t' = elim (kind_of (parse_response_line d r)) [
  | answered c r' e ↦ λ w. response_line_answers d r r' (
      e
      ∙ ap (λ x. ret x r')
          (ap code (
            let q : ret c (a_response r') ≡ ret RetCode.waiting_data t' =
              rw (parse_start_line, e) at w in
            q)))
  | faulted e ↦
      λ w. (let q : fault ≡ ret RetCode.waiting_data t' = rw (parse_start_line, e) at w in cc)
  | unfinished e ↦
      λ w. (let q : out_of_fuel ≡ ret RetCode.waiting_data t' = rw (parse_start_line, e) at w in cc)
]
start_line_answers d (an_unknown m) t' = λ e. cc

pub parse_line-none :
    (d : List ℕ) (t : Target) → crlf d ≡ none → parse_line d t ≡ ret RetCode.waiting_data (t, 0)
unfolding parse_line
parse_line-none d t e = rw (parse_line, e)

pub parse_line-some :
    (d : List ℕ) (t : Target) (i : ℕ)
    → crlf d ≡ some i
    → parse_line d t ≡ line_found i (parse_start_line (take i d) t)
unfolding parse_line
parse_line-some d t i e = rw (parse_line, e) refl

line_found-waits :
    (i : ℕ) (r : Result Target) (t' : Target) (n : ℕ)
    → line_found i r ≡ ret RetCode.waiting_data (t', n)
    → (u : Target) × (r ≡ ret RetCode.waiting_data u)
line_found-waits i (ret RetCode.ready u) t' n e = absurd cc
line_found-waits i (ret RetCode.waiting_data u) t' n e = (u, refl)
line_found-waits i (ret RetCode.error u) t' n e = absurd cc
line_found-waits i fault t' n e = absurd cc
line_found-waits i out_of_fuel t' n e = absurd cc

line_found-ready :
    (i : ℕ) (r : Result Target) (t' : Target) (n : ℕ)
    → line_found i r ≡ ret RetCode.ready (t', n)
    → n ≡ add_size i 2
line_found-ready i (ret RetCode.ready u) t' n e = cc
line_found-ready i (ret RetCode.waiting_data u) t' n e = absurd cc
line_found-ready i (ret RetCode.error u) t' n e = absurd cc
line_found-ready i fault t' n e = absurd cc
line_found-ready i out_of_fuel t' n e = absurd cc

-- A call that waits for the first line leaves the message as it is.
pub line_waits :
    (d : List ℕ) (t t' : Target) (n : ℕ)
    → parse_line d t ≡ ret RetCode.waiting_data (t', n)
    → t' ≡ t
line_waits d t t' n w = elim (Option-cases (crlf d)) [
  | inl e ↦
      let q : ◌≡◌ {A = Result (Target × ℕ)} (ret RetCode.waiting_data (t, 0))
          (ret RetCode.waiting_data (t', n)) =
        sym (parse_line-none d t e) ∙ w in
      same q
  | inr (i, e) ↦
      let (u, q) =
        line_found-waits i (parse_start_line (take i d) t) t' n
          (sym (parse_line-some d t i e) ∙ w) in
      absurd (start_line_answers (take i d) t u q)
]
  where
    same :
        ◌≡◌ {A = Result (Target × ℕ)}
          (ret RetCode.waiting_data (t, 0))
          (ret RetCode.waiting_data (t', n))
        → t' ≡ t
    same q = cc

-- A first line that a call takes is taken also when bytes follow.
pub line_ready :
    (d more : List ℕ) (t t' : Target) (n : ℕ)
    → length d < 2 ^ 64
    → parse_line d t ≡ ret RetCode.ready (t', n)
    → (parse_line (d ++ more) t ≡ ret RetCode.ready (t', n)) × (n ≤ length d)
line_ready d more t t' n h w = elim (Option-cases (crlf d)) [
  | inl e ↦ absurd (let q = sym (parse_line-none d t e) ∙ w in cc)
  | inr (i, e) ↦
      let found = sym (parse_line-some d t i e) ∙ w in
      (
        parse_line-some (d ++ more) t i (crlf_stable d more i e)
            ∙ ap (λ x. line_found i (parse_start_line x t))
                (take-append_le i d more (omega (arith, crlf_inside d i e)))
            ∙ found,
        omega (
          arith,
          line_found-ready i (parse_start_line (take i d) t) t' n found,
          crlf_inside d i e,
          h,
        ),
      )
]
