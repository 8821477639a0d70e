-- ===== src/Http/Parser/Tail.antt =====
-- What follows the first line of a message, as `dump_rest` writes it, in http/parser.cc: the headers
-- and a body that comes in no chunks are taken.
use lcy.Prelude.{
  ℕ, suc, ◌+◌, ◌^◌, ◌<◌, ◌≡◌, refl, sym, ap, ◌∙◌, inl, inr, Bool, false, ◌||◌, none, some, List, [],
  ◌∷◌, ◌++◌, length, drop, All, arith, Bool-cases, append-nil, append_assoc, length-append,
  drop-append_eq, drop-drop,
}
use mathlib.Core.Path.{ap₂}
use lcy.Http.Text.{str_eq}
use lcy.Http.Message.{
  Message, Target, a_request, a_response, an_unknown, base, with_base, set_body, Headers, find,
  set_header, dump_headers, dump_rest,
}
use lcy.Http.Parser.{
  RetCode, Tag, Parser, ret, fresh, done, put_header, content_length_of, is_chunked, body_case,
  parse_plain, parse_header_loop, header_case,
}
use lcy.Http.Parser.Steps.{
  IsHeader, put_all, header_loop-dump, length-le-dump_headers, parse_plain_whole,
}
use lcy.Http.Parser.BodyResume.{last, body_step}
use lcy.Http.Parser.HeaderResume.{behind, header_step, header_case-ready}
use lcy.Http.Parser.Stages.{at_body, at_header}

-- Each key differs from those that stand before it.
abbrev pub Distinct : Headers → Headers → Type 0
Distinct before [] = Unit {0}
Distinct before ((k, v) ∷ hs) = (find k before ≡ none) × Distinct (before ++ (k, v) ∷ []) hs

-- A message behind whose first line the format can carry the rest: headers with different keys whose
-- keys and values are single words, and among them the length of the body, which comes in no chunks.
pub record HasTail (m : Message) : Type 0 where
  pub headers : All IsHeader m.headers
  pub distinct : Distinct [] m.headers
  pub length_known : content_length_of m ≡ some (length m.body)
  pub plain : is_chunked m ≡ false

base-with_base : (t : Target) (m : Message) → base (with_base t m) ≡ m
base-with_base (a_request r) m = refl
base-with_base (a_response r) m = refl
base-with_base (an_unknown x) m = refl

with_base-with_base : (t : Target) (m m' : Message) → with_base (with_base t m) m' ≡ with_base t m'
with_base-with_base (a_request r) m m' = refl
with_base-with_base (a_response r) m m' = refl
with_base-with_base (an_unknown x) m m' = refl

with_base_self : (t : Target) → with_base t (base t) ≡ t
with_base_self (a_request r) = refl
with_base_self (a_response r) = refl
with_base_self (an_unknown x) = refl

-- Headers with different keys are stored one behind the other.
set_header-new :
    (hs : Headers) (k v : List ℕ) → find k hs ≡ none → set_header hs k v ≡ hs ++ ((k, v) ∷ [])
unfolding find set_header
set_header-new [] k v h = refl
set_header-new ((j, w) ∷ hs) k v h = elim (Bool-cases (str_eq j k)) [
  | inl e ↦ absurd (let h' : some w ≡ none = rw e at h in cc)
  | inr e ↦ rw e (ap (◌∷◌ (j, w)) (set_header-new hs k v (rw e at h)))
]

-- A target whose message has some headers and no body.
abbrev holding : Target → Headers → Target
holding t hs = with_base t (record (base t) { headers = hs })

put_header-new :
    (t : Target) (hs : Headers) (k v : List ℕ)
    → find k hs ≡ none
    → put_header (holding t hs) k v ≡ holding t (hs ++ ((k, v) ∷ []))
put_header-new t hs k v new =
    ap (λ (m : Message). with_base (holding t hs) (record m { headers = set_header m.headers k v }))
      (base-with_base t (record (base t) { headers = hs }))
    ∙ with_base-with_base t (record (base t) { headers = hs })
        (record (base t) { headers = set_header hs k v })
    ∙ ap (λ (x : Headers). holding t x) (set_header-new hs k v new)

put_all-Distinct :
    (t : Target) (before hs : Headers)
    → Distinct before hs
    → put_all (holding t before) hs ≡ holding t (before ++ hs)
unfolding put_all
put_all-Distinct t before [] h = ap (λ (x : Headers). holding t x) (sym (append-nil before))
put_all-Distinct t before ((k, v) ∷ hs) (new, h) =
    ap (λ u. put_all u hs) (put_header-new t before k v new)
    ∙ put_all-Distinct t (before ++ (k, v) ∷ []) hs h
    ∙ ap (λ (x : Headers). holding t x) (append_assoc before ((k, v) ∷ []) hs)

-- Both depend on nothing but the headers.
same_length : (m m' : Message) → m.headers ≡ m'.headers → content_length_of m ≡ content_length_of m'
unfolding content_length_of
same_length m m' e = ap (λ (x : Headers). content_length_of (record m { headers = x })) e

same_chunked : (m m' : Message) → m.headers ≡ m'.headers → is_chunked m ≡ is_chunked m'
unfolding is_chunked
same_chunked m m' e = ap (λ (x : Headers). is_chunked (record m { headers = x })) e

-- The parser when it has taken the whole message.
abbrev pub taken : ℕ → Message → Parser
taken n m = record {
  tag = Tag.ready;
  already_parse = n;
  content_length = length m.body;
  chunked_transfer = false;
  body_buf = [];
}

module _ (front rest : List ℕ) (m : Message) (t : Target) (ok : HasTail m)
    (blank : (base t).headers ≡ []) (bound : length front + length (dump_rest m) < 2 ^ 64) where
  abbrev body_text : List ℕ
  body_text = m.body ++ rest

  abbrev header_text : List ℕ
  header_text = dump_headers m.headers ++ (13 ∷ 10 ∷ body_text)

  -- What stands behind the front.
  abbrev pub whole : List ℕ
  whole = front ++ header_text

  abbrev head_parser : Parser
  head_parser = record fresh { tag = Tag.header; already_parse = length front }

  abbrev head : ℕ
  head = length (dump_headers m.headers) + 2

  rest_length : length (dump_rest m) ≡ head + length m.body
  unfolding dump_rest
  rest_length = omega (arith, length-append (dump_headers m.headers) (13 ∷ 10 ∷ m.body))

  text_length : length header_text ≡ head + length m.body + length rest
  text_length = omega (
    arith,
    length-append (dump_headers m.headers) (13 ∷ 10 ∷ body_text),
    length-append m.body rest,
  )

  whole_length : length whole ≡ length front + (head + length m.body + length rest)
  whole_length = omega (arith, length-append front header_text, text_length)

  drop-front : drop (length front) whole ≡ header_text
  drop-front = drop-append_eq (length front) front header_text refl

  drop-head : drop (length front + head) whole ≡ body_text
  drop-head =
      sym (drop-drop head (length front) whole)
      ∙ ap (drop head) drop-front
      ∙ ap (drop head) (sym (append_assoc (dump_headers m.headers) (13 ∷ 10 ∷ []) body_text))
      ∙ drop-append_eq head (dump_headers m.headers ++ 13 ∷ 10 ∷ []) body_text
          (omega (arith, length-append (dump_headers m.headers) (13 ∷ 10 ∷ [])))

  -- The target behind the headers.
  abbrev headed : Target
  headed = holding t m.headers

  headers_read :
      parse_header_loop (suc (length header_text)) header_text t 0
      ≡ ret RetCode.ready (headed, head)
  headers_read =
      header_loop-dump (suc (length header_text)) m.headers body_text t 0
        (omega (arith, length-le-dump_headers m.headers, text_length)) ok.headers
        (omega (arith, bound, rest_length))
      ∙ ap₂ (λ (u : Target) (n : ℕ). ret RetCode.ready (u, n))
          (ap (λ u. put_all u m.headers)
              (sym (with_base_self t)
                ∙ ap (λ (x : Headers). with_base t (record (base t) { headers = x })) blank)
            ∙ put_all-Distinct t [] m.headers ok.distinct)
          (omega arith)

  base-headed : base headed ≡ record (base t) { headers = m.headers }
  base-headed = base-with_base t (record (base t) { headers = m.headers })

  headed_length : content_length_of (base headed) ≡ some (length m.body)
  headed_length =
      ap content_length_of base-headed
      ∙ same_length (record (base t) { headers = m.headers }) m refl
      ∙ ok.length_known

  headed_plain : is_chunked (base headed) ≡ false
  headed_plain =
      ap is_chunked base-headed
      ∙ same_chunked (record (base t) { headers = m.headers }) m refl
      ∙ ok.plain

  body_parser : Bool → Parser
  body_parser c = record fresh {
    tag = Tag.body;
    already_parse = length front + head;
    content_length = length m.body;
    chunked_transfer = c;
  }

  behind_head : behind head_parser head (length m.body) headed ≡ body_parser false
  unfolding body_parser
  behind_head =
      ap₂ (λ (c : Bool) (n : ℕ). record (body_parser (c || false)) { already_parse = n })
        headed_plain (omega (arith, bound, rest_length))

  body_read :
      at_body whole (body_parser false) headed
      ≡ done RetCode.ready (taken (length front + length (dump_rest m)) m) (set_body headed m.body)
  unfolding body_case body_parser
  body_read =
      body_step last (body_parser false) whole headed (omega (arith, whole_length)) refl
      ∙ ap (λ z. body_case last (body_parser false) (parse_plain z headed (length m.body) []))
          drop-head
      ∙ ap (body_case last (body_parser false))
          (parse_plain_whole m.body rest headed (omega (arith, bound, rest_length)))
      ∙ ap (λ n. done RetCode.ready (taken n m) (set_body headed m.body))
          (omega (arith, bound, rest_length))

  -- From behind the first line, the rest of the message is taken and just that.
  pub tail_read :
      at_header whole head_parser t
      ≡ done RetCode.ready
          (taken (length front + length (dump_rest m)) m)
          (with_base t (record (base t) { headers = m.headers; body = m.body }))
  tail_read =
      header_step (at_body whole) head_parser whole t (omega (arith, whole_length))
      ∙ ap (λ z. header_case (at_body whole) head_parser (parse_header_loop (suc (length z)) z t 0))
          drop-front
      ∙ ap (header_case (at_body whole) head_parser) headers_read
      ∙ header_case-ready (at_body whole) head_parser headed head (length m.body) headed_length
      ∙ ap (λ q. at_body whole q headed) behind_head
      ∙ body_read
      ∙ ap (λ u. done RetCode.ready (taken (length front + length (dump_rest m)) m) u)
          (ap (λ (x : Message). with_base headed (record x { body = m.body })) base-headed
            ∙ with_base-with_base t (record (base t) { headers = m.headers })
                (record (base t) { headers = m.headers; body = m.body }))
