-- ===== src/Http/Parser/PrefixBody.antt =====
-- The body of a message that is cut short, in http/parser.cc: the parser waits.
use lcy.Prelude.{
  ℕ, ◌^◌, ◌≤◌, ◌<◌, ◌≡◌, refl, sym, ap, ◌∙◌, inl, inr, Bool, true, false, List, [], ◌++◌, ◌==◌, leb,
  length, take, drop, arith, length-append, length-take, Bool-cases, leb→le, lt→leb, ==→eq, ge→ltb,
  take_all, length-drop,
}
use lcy.Http.Message.{Target, a_request, a_response, an_unknown}
use lcy.Http.Parser.{
  RetCode, Tag, Parser, Result, ret, fault, out_of_fuel, add_size, Body, parse_plain, parse_body,
  finish, Outcome, done, used, body_case, parse_tag,
}
use lcy.Http.Parser.BodyResume.{
  room, filled, plain-filled, filled_full, filled_short, plain_empty, body_step, last,
}

-- The parser behind the headers of a message it has just read them of.
abbrev pub body_parser : ℕ → ℕ → Bool → Parser
body_parser a len c = record {
  tag = Tag.body;
  already_parse = a;
  content_length = len;
  chunked_transfer = c;
  body_buf = [];
}

-- The whole call ends, with a parser that has used up a number of bytes.
abbrev pub Ends : Outcome → ℕ → Type 0
Ends x n =
    (p : Parser) × (t : Target) × (x ≡ done RetCode.ready p t)
    × (p.chunked_transfer ≡ false)
    × (p.already_parse ≡ n)

abbrev pub is_request : Target → Bool
is_request (a_request r) = true
is_request (a_response r) = false
is_request (an_unknown m) = false

-- A call waits, has not read of chunks, and is still about a request.
abbrev pub WaitsPlain : Outcome → Type 0
WaitsPlain x =
    (p : Parser) × (t : Target) × (x ≡ done RetCode.waiting_data p t)
    × (p.chunked_transfer ≡ false)
    × (is_request t ≡ true)

body_case-chunked :
    (q : Parser) (r : Result Body) (p : Parser) (t : Target)
    → body_case last q r ≡ done RetCode.ready p t
    → p.chunked_transfer ≡ q.chunked_transfer
unfolding body_case
body_case-chunked q (ret RetCode.ready b) p t e =
    let same : record (used q b.nparse) { tag = Tag.ready; body_buf = b.body_buf } ≡ p = cc in
    sym (ap (λ x. x.chunked_transfer) same)
body_case-chunked q (ret RetCode.waiting_data b) p t e = absurd cc
body_case-chunked q (ret RetCode.error b) p t e = absurd cc
body_case-chunked q fault p t e = absurd cc
body_case-chunked q out_of_fuel p t e = absurd cc

finish_used :
    (q : Parser) (u : Target) (buf : List ℕ) (n : ℕ) (p : Parser) (t : Target)
    → body_case last q (finish u buf n) ≡ done RetCode.ready p t
    → p.already_parse ≡ add_size q.already_parse n
unfolding body_case
finish_used q u buf n p t e =
    let same : record (used q n) { tag = Tag.ready; body_buf = [] } ≡ p = cc in
    sym (ap (λ x. x.already_parse) same)

waiting_not_ready :
    (q : Parser) (b : Body) (p : Parser) (t : Target)
    → body_case last q (ret RetCode.waiting_data b) ≡ done RetCode.ready p t
    → {A : Type 0} → A
unfolding body_case
waiting_not_ready q b p t e = absurd cc

-- A body that is taken is as long as the headers say.
plain_used :
    (q : Parser) (d : List ℕ) (u : Target) (cl : ℕ) (p : Parser) (t : Target)
    → cl < 2 ^ 64
    → body_case last q (parse_plain d u cl []) ≡ done RetCode.ready p t
    → (p.already_parse ≡ add_size q.already_parse cl) × (cl ≤ length d)
plain_used q d u cl p t h e = elim (Bool-cases (cl == 0)) [
  | inl z ↦
      let zero' : cl ≡ 0 = ==→eq cl 0 z in
      (
        finish_used q u [] 0 p t (ap (body_case last q) (sym (plain_empty d u cl [] z)) ∙ e)
            ∙ ap (add_size q.already_parse) (sym zero'),
        omega (arith, zero'),
      )
  | inr z ↦
      let n = room cl [] d in
      let size = length-take n d in
      let once = ap (body_case last q) (sym (plain-filled d u cl [] z)) ∙ e in
      elim (Bool-cases (leb cl (length (take n d)))) [
        | inl full ↦
            let enough = leb→le cl (length (take n d)) full in
            let all : n ≡ cl = omega (arith, enough, size, h) in
            (
              finish_used q u (take cl (take n d)) n p t
                    (ap (body_case last q) (sym (filled_full u cl (take n d) n full)) ∙ once)
                  ∙ ap (add_size q.already_parse) all,
              omega (arith, enough, size),
            )
        | inr short ↦
            waiting_not_ready q _ p t
              (ap (body_case last q) (sym (filled_short u cl (take n d) n short)) ∙ once)
      ]
]

plain_short :
    (q : Parser) (d : List ℕ) (u : Target) (cl : ℕ)
    → cl < 2 ^ 64
    → length d < cl
    → body_case last q (parse_plain d u cl [])
      ≡ done RetCode.waiting_data (record (used q (length d)) { body_buf = d }) u
unfolding body_case
plain_short q d u cl h few =
    let all : room cl [] d ≡ length d = omega (arith, few, h) in
    let z : (cl == 0) ≡ false = ground (arith, few) in
    ap (body_case last q) (
      plain-filled d u cl [] z
      ∙ ap (λ n. filled u cl (take n d) n) all
      ∙ ap (λ x. filled u cl x (length d)) (take_all (length d) d (omega arith))
      ∙ filled_short u cl d (length d) (lt→leb cl (length d) few))

-- If a call on all bytes ends and uses them up, then one that has not all of them waits.
pub body_cut :
    (a len : ℕ) (c : Bool) (d more : List ℕ) (t : Target)
    → a ≤ length d
    → length (d ++ more) < 2 ^ 64
    → len < 2 ^ 64
    → 0 < length more
    → is_request t ≡ true
    → Ends (parse_tag last Tag.body (body_parser a len c) (d ++ more) t) (length (d ++ more))
    → WaitsPlain (parse_tag last Tag.body (body_parser a len c) d t)
unfolding parse_tag
body_cut a len true d more t ha hs hl hm k (p, u, e, plain, n) =
    let bound = length-append d more in
    let step : body_case last (body_parser a len true)
          (parse_body (drop a (d ++ more)) t len true [])
        ≡ done RetCode.ready p u =
      rw (ge→ltb (length (d ++ more)) a (omega (arith, bound, ha))) at e in
    let chunked = body_case-chunked (body_parser a len true) _ p u step in
    absurd (let no : false ≡ true = sym plain ∙ chunked in cc)
body_cut a len false d more t ha hs hl hm k (p, u, e, plain, n) =
    let q = body_parser a len false in
    let bound = length-append d more in
    let size = length-drop a d in
    let size' = length-drop a (d ++ more) in
    let (count, inside) =
      plain_used q (drop a (d ++ more)) t len p u hl
        (sym (body_step last q (d ++ more) t (omega (arith, bound, ha)) refl) ∙ e) in
    (
      record (used q (length (drop a d))) { body_buf = drop a d },
      t,
      body_step last q d t ha refl
          ∙ plain_short q (drop a d) t len hl
              (omega (arith, count, n, inside, size, size', bound, ha, hs, hm)),
      refl,
      k,
    )
