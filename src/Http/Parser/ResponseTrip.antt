-- ===== src/Http/Parser/ResponseTrip.antt =====
-- What `Response::dump` of http/response.cc writes, http/parser.cc reads back where the description of
-- the state is one word, and refuses where it has a blank.
use lcy.Prelude.{
  ℕ, ◌^◌, ◌<◌, ◌≡◌, ◌≢◌, refl, sym, ap, ◌∙◌, inl, inr, Bool, true, false, not, ◌&&◌, Option, none,
  some, List, [], ◌∷◌, ◌++◌, ◌==◌, if◌then◌else◌, length, arith, Bool-cases, append_assoc,
  take-append_length, and-true, ==→eq,
}
use lcy.Prelude.Int.{ℤ, pos, negsuc}
use lcy.Prelude.Bits.{agree_below, agree_below→eq}
use lcy.Http.Text.{all, is_space, atoi}
use lcy.Http.Version.{http_err, version_to_string}
use lcy.Http.State.{State, state_to_string, state_to_desc}
use lcy.Http.Message.{
  Response, blank_response, a_response, decimal, int_to_string, dump_rest, dump_response,
}
use lcy.Http.Lexer.{is_empty, line_split}
use lcy.Http.Lexer.Lines.{IsLine, crlf-line}
use lcy.Http.Lexer.Fields.{IsWord, line_split_words, line_split_third_blank}
use lcy.Http.Parser.{
  RetCode, Tag, ret, fresh, add_size, done, set_state_line, parse_response_line, parse_start_line,
  parse_line, line_case, parse_tag, parse,
}
use lcy.Http.Parser.Steps.{IsLine-append}
use lcy.Http.Parser.Stages.{at_header, parse-at_tag}
use lcy.Http.Parser.Tail.{HasTail, taken}
use lcy.Http.Parser.Whole.{message_read}
use lcy.Http.Parser.RoundTrip.{no_space, IsWordLine, version_text}

is_pos : ℕ → Option ℤ → Bool
is_pos n none = false
is_pos n (some (pos k)) = k == n
is_pos n (some (negsuc k)) = false

-- What the number of a state looks like, and that its description stands in one line.
state_ok : ℕ → Bool
state_ok n =
    all (λ c. not (is_space c)) (decimal 10 n)
    && (all (λ c. not (c == 13)) (state_to_desc (pos n)) && is_pos n (atoi (decimal 10 n)))

counted : ℕ → ℕ
counted n = if state_ok n then 1 else 0

-- Checked for each number that a state may have.
states_ok : agree_below counted (λ i. 1) 512 ≡ true
unfolding agree_below counted state_ok all decimal state_to_desc atoi is_pos
states_ok = refl

-- A state below 512 whose description is as the table checks it.
record StateText (n : ℕ) : Type 0 where
  number : IsWordLine (decimal 10 n)
  desc_line : IsLine (state_to_desc (pos n))
  read : atoi (decimal 10 n) ≡ some (pos n)

no_return : (s : List ℕ) → all (λ c. not (c == 13)) s ≡ true → IsLine s
unfolding all
no_return [] h = tt
no_return (c ∷ s) h =
    let (hc, hs) = and-true (not (c == 13)) (all (λ d. not (d == 13)) s) h in
    (ground arith, no_return s hs)

is_pos→eq : (n : ℕ) (o : Option ℤ) → is_pos n o ≡ true → o ≡ some (pos n)
unfolding is_pos
is_pos→eq n none h = cc
is_pos→eq n (some (pos k)) h = ap (λ i. some (pos i)) (==→eq k n h)
is_pos→eq n (some (negsuc k)) h = cc

state_text : (n : ℕ) → n < 512 → StateText n
unfolding counted state_ok
state_text n h =
    let one : counted n ≡ 1 = agree_below→eq counted (λ i. 1) 512 states_ok n h in
    let ok : state_ok n ≡ true = elim (Bool-cases (state_ok n)) [
      | inl t ↦ t
      | inr f ↦ absurd (let e : ◌≡◌ {A = ℕ} 0 1 = rw f at one in omega arith)
    ] in
    let (spaces, others) = and-true (all (λ c. not (is_space c)) (decimal 10 n)) _ ok in
    let (returns, reads) =
      and-true (all (λ c. not (c == 13)) (state_to_desc (pos n))) (is_pos n (atoi (decimal 10 n)))
        others in
    record {
      number = no_space (decimal 10 n) spaces;
      desc_line = no_return (state_to_desc (pos n)) returns;
      read = is_pos→eq n (atoi (decimal 10 n)) reads;
    }

-- A response that the format can carry, but for the description of its state: a state by its number, a
-- version, and headers and a body as for a request.
pub record IsDumpable (n : ℕ) (r : Response) : Type 0 where
  pub state : r.state ≡ pos n
  pub below : n < 512
  pub version : r.message.version ≢ http_err
  pub tail : HasTail r.message
  pub is_size : length (dump_response r) < 2 ^ 64

-- The first line, with a description.
abbrev response_line : Response → ℕ → List ℕ → List ℕ
response_line r n desc = version_to_string r.message.version ++ (32 ∷ (decimal 10 n ++ (32 ∷ desc)))

abbrev written : Response → State → List ℕ
written r s =
    version_to_string r.message.version
    ++ (32 ∷ (int_to_string s ++ (32 ∷ (state_to_desc s ++ (13 ∷ 10 ∷ dump_rest r.message)))))

dump-written : (r : Response) → dump_response r ≡ written r r.state
unfolding dump_response
dump-written r = refl

regroup :
    (v n d rest : List ℕ)
    → v ++ (32 ∷ (n ++ (32 ∷ (d ++ rest)))) ≡ (v ++ (32 ∷ (n ++ (32 ∷ d)))) ++ rest
regroup v n d rest = simp append_assoc refl

dump-response_line :
    (r : Response) (n : ℕ)
    → r.state ≡ pos n
    → dump_response r ≡ response_line r n (state_to_desc (pos n)) ++ (13 ∷ 10 ∷ dump_rest r.message)
unfolding int_to_string
dump-response_line r n e =
    dump-written r
    ∙ ap (written r) e
    ∙ regroup (version_to_string r.message.version) (decimal 10 n) (state_to_desc (pos n))
        (13 ∷ 10 ∷ dump_rest r.message)

-- The response with the fields of the line.
abbrev with_line : Response → Response → Response
with_line r r₀ = record r₀ {
  state = r.state;
  message = record (r₀.message) { version = r.message.version };
}

response_line-IsLine :
    (r : Response) (n : ℕ) → IsDumpable n r → IsLine (response_line r n (state_to_desc (pos n)))
response_line-IsLine r n ok =
    let text = state_text n ok.below in
    IsLine-append (version_to_string r.message.version) _
      (version_text r.message.version ok.version).word.1
      (omega arith, IsLine-append (decimal 10 n) _ text.number.1 (omega arith, text.desc_line))

-- The first line, where its fields are found.
response_line_read :
    (r r₀ : Response) (n : ℕ)
    → IsDumpable n r
    → IsWord (state_to_desc (pos n))
    → state_to_desc (pos n) ≢ []
    → is_empty (state_to_string (pos n)) ≡ false
    → parse_response_line (response_line r n (state_to_desc (pos n))) r₀
      ≡ ret RetCode.ready (with_line r r₀)
unfolding parse_response_line set_state_line
response_line_read r r₀ n ok one full named =
    let v = version_text r.message.version ok.version in
    let text = state_text n ok.below in
    let found =
      line_split_words (version_to_string r.message.version) (decimal 10 n) (state_to_desc (pos n))
        v.word.0 text.number.0 one full in
    rw (parse_response_line, found, v.valid, text.read, named, v.read)
      (ap (λ s. ret RetCode.ready (record (with_line r r₀) { state = s })) (sym ok.state))

line_read :
    (r r₀ : Response) (n : ℕ) (rest : List ℕ)
    → IsDumpable n r
    → IsWord (state_to_desc (pos n))
    → state_to_desc (pos n) ≢ []
    → is_empty (state_to_string (pos n)) ≡ false
    → parse_line (response_line r n (state_to_desc (pos n)) ++ (13 ∷ 10 ∷ rest)) (a_response r₀)
      ≡ ret RetCode.ready (
        a_response (with_line r r₀),
        add_size (length (response_line r n (state_to_desc (pos n)))) 2,
      )
unfolding parse_line parse_start_line
line_read r r₀ n rest ok one full named = rw (
  parse_line,
  crlf-line (response_line r n (state_to_desc (pos n))) rest (response_line-IsLine r n ok),
  take-append_length (response_line r n (state_to_desc (pos n))) (13 ∷ 10 ∷ rest),
  parse_start_line,
  response_line_read r r₀ n ok one full named,
)

-- On the dump of a response that the format can carry, whose state has a name and a description of one
-- word, and whatever follows it, a first call of the parser on a blank response is ready: it has used up
-- exactly the dump, and it has rebuilt the response, its version, state, headers and body.
pub parse-dump_response :
    (r : Response) (n : ℕ) (rest : List ℕ)
    → IsDumpable n r
    → IsWord (state_to_desc (pos n))
    → state_to_desc (pos n) ≢ []
    → is_empty (state_to_string (pos n)) ≡ false
    → parse fresh (dump_response r ++ rest) (a_response blank_response)
      ≡ done RetCode.ready (taken (length (dump_response r)) r.message) (a_response r)
parse-dump_response r n rest ok one full named =
    let text = dump-response_line r n ok.state in
    ap (λ x. parse fresh (x ++ rest) (a_response blank_response)) text
    ∙ message_read (response_line r n (state_to_desc (pos n))) rest r.message
        (a_response blank_response) (a_response (with_line r blank_response)) ok.tail refl
        (omega (arith, ap length text, ok.is_size))
        (λ more. line_read r blank_response n more ok one full named)
    ∙ ap (λ k. done RetCode.ready (taken k r.message) (a_response r)) (ap length (sym text))

line_refused :
    (r r₀ : Response) (n : ℕ) (a b rest : List ℕ)
    → IsDumpable n r
    → state_to_desc (pos n) ≡ a ++ (32 ∷ b)
    → IsWord a
    → parse_line (response_line r n (state_to_desc (pos n)) ++ (13 ∷ 10 ∷ rest)) (a_response r₀)
      ≡ ret RetCode.error (a_response r₀, 0)
unfolding parse_line parse_start_line parse_response_line
line_refused r r₀ n a b rest ok two one =
    let blanks : line_split (response_line r n (state_to_desc (pos n))) ≡ none =
      ap (λ d. line_split (response_line r n d)) two
      ∙ line_split_third_blank (version_to_string r.message.version) (decimal 10 n) a b
          (version_text r.message.version ok.version).word.0 (state_text n ok.below).number.0 one in
    rw (
      parse_line,
      crlf-line (response_line r n (state_to_desc (pos n))) rest (response_line-IsLine r n ok),
      take-append_length (response_line r n (state_to_desc (pos n))) (13 ∷ 10 ∷ rest),
      parse_start_line,
      parse_response_line,
      blanks,
    )

-- On the dump of a response that the format can carry, but whose description has a blank in it, and
-- whatever follows it, a first call of the parser is an error, and it takes nothing.
pub parse-dump_response_error :
    (r r₀ : Response) (n : ℕ) (a b rest : List ℕ)
    → IsDumpable n r
    → state_to_desc (pos n) ≡ a ++ (32 ∷ b)
    → IsWord a
    → parse fresh (dump_response r ++ rest) (a_response r₀)
      ≡ done RetCode.error fresh (a_response r₀)
unfolding parse_tag line_case
parse-dump_response_error r r₀ n a b rest ok two one =
    let desc = state_to_desc (pos n) in
    let line = response_line r n desc in
    let text : dump_response r ++ rest ≡ line ++ (13 ∷ 10 ∷ (dump_rest r.message ++ rest)) =
      ap (λ x. x ++ rest) (dump-response_line r n ok.state)
      ∙ append_assoc line (13 ∷ 10 ∷ dump_rest r.message) rest in
    let all = line ++ (13 ∷ 10 ∷ (dump_rest r.message ++ rest)) in
    ap (λ x. parse fresh x (a_response r₀)) text
    ∙ parse-at_tag Tag.line fresh all (a_response r₀) refl
    ∙ ap (line_case (at_header all) fresh)
        (line_refused r r₀ n a b (dump_rest r.message ++ rest) ok two one)
