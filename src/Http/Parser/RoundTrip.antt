-- ===== src/Http/Parser/RoundTrip.antt =====
-- What `Request::dump` of http/request.cc writes, http/parser.cc reads back.
use lcy.Prelude.{
  ℕ, ◌^◌, ◌<◌, ◌≡◌, ◌≢◌, refl, sym, ap, ◌∙◌, inl, inr, true, false, not, some, List, [], ◌∷◌, ◌++◌,
  ◌==◌, if◌then◌else◌, length, All, arith, Bool-cases, append_assoc, and-true, take-append_length,
}
use lcy.Prelude.Bits.{agree_below, agree_below→eq}
use lcy.Http.Text.{all, is_space, str_eq}
use lcy.Http.Version.{Version, http_err, http_1_0, http_1_1, version_to_string, string_to_version}
use lcy.Http.Method.{Method, method_to_string, string_to_method}
use lcy.Http.Method
use lcy.Http.Method.Names.{string_to_method-method_to_string}
use lcy.Http.Message.{Request, blank_request, a_request, dump_rest, dump_request}
use lcy.Http.Lexer.{is_valid_uri, is_valid_http_version}
use lcy.Http.Lexer.Lines.{IsLine, crlf-line}
use lcy.Http.Lexer.Fields.{IsWord, line_split_words}
use lcy.Http.Parser.{
  RetCode, Parser, ret, add_size, fresh, done, parse_request_line, parse_start_line, parse_line,
  content_length_of, is_chunked, parse,
}
use lcy.Http.Parser.Tail.{Distinct, HasTail, taken}
use lcy.Http.Parser.Whole.{message_read}
use lcy.Http.Parser.Steps.{IsHeader, IsLine-append}

-- A request that the format can carry: a method of the map, a path that the parser accepts, a
-- version, headers with different keys whose keys and values are single words, and among them the
-- length of the body, which comes in no chunks.
pub record IsSendable (r : Request) : Type 0 where
  pub method : r.method < Method.invalid
  pub uri : is_valid_uri r.uri ≡ true
  pub version : r.message.version ≢ http_err
  pub headers : All IsHeader r.message.headers
  pub distinct : Distinct [] r.message.headers
  pub length_known : content_length_of r.message ≡ some (length r.message.body)
  pub plain : is_chunked r.message ≡ false
  pub is_size : length (dump_request r) < 2 ^ 64

-- Text of a word in one line.
abbrev pub IsWordLine : List ℕ → Type 0
IsWordLine s = IsWord s × IsLine s

pub no_space : (s : List ℕ) → all (λ c. not (is_space c)) s ≡ true → IsWordLine s
unfolding all
no_space [] h = (tt, tt)
no_space (c ∷ s) h =
    let (hc, hs) = and-true (not (is_space c)) (all (λ d. not (is_space d)) s) h in
    let (w, l) = no_space s hs in ((ground arith, w), (ground arith, l))

uri_word : (s : List ℕ) → is_valid_uri s ≡ true → IsWordLine s
unfolding is_valid_uri
uri_word [] h = cc
uri_word (c ∷ s) h =
    let (hc, hs) = and-true (c == b'/') (all (λ d. not (is_space d)) s) h in
    let (w, l) = no_space s hs in ((ground arith, w), (ground arith, l))

method_word : (m : Method) → m < Method.invalid → IsWordLine (method_to_string m)
method_word m h =
    no_space (method_to_string m) (as_true (agree_below→eq clean (λ i. 1) Method.invalid table m h))
  where
    clean : ℕ → ℕ
    clean i = if all (λ c. not (is_space c)) (method_to_string i) then 1 else 0

    table : agree_below clean (λ i. 1) Method.invalid ≡ true
    table = unfold agree_below method_to_string all in refl

    as_true : clean m ≡ 1 → all (λ c. not (is_space c)) (method_to_string m) ≡ true
    as_true e = elim (Bool-cases (all (λ c. not (is_space c)) (method_to_string m))) [
      | inl t ↦ t
      | inr f ↦ absurd (let e' : ◌≡◌ {A = ℕ} 0 1 = rw f at e in omega arith)
    ]

-- What the parser makes of a written version.
pub record VersionText (v : Version) : Type 0 where
  pub word : IsWordLine (version_to_string v)
  pub not_empty : version_to_string v ≢ []
  pub valid : is_valid_http_version (version_to_string v) ≡ true
  pub read : string_to_version (version_to_string v) ≡ v

pub version_text : (v : Version) → v ≢ http_err → VersionText v
unfolding version_to_string string_to_version is_valid_http_version all str_eq
version_text http_err h = absurd (h refl)
version_text http_1_0 h = record {
  word = (omega arith, omega arith);
  not_empty = λ e. cc;
  valid = refl;
  read = refl;
}
version_text http_1_1 h = record {
  word = (omega arith, omega arith);
  not_empty = λ e. cc;
  valid = refl;
  read = refl;
}

-- The request line, and the line in the dump.
abbrev request_line : Request → List ℕ
request_line r =
    method_to_string r.method ++ (32 ∷ (r.uri ++ (32 ∷ version_to_string r.message.version)))

dump-request_line :
    (r : Request) → dump_request r ≡ request_line r ++ (13 ∷ 10 ∷ dump_rest r.message)
unfolding dump_request
dump-request_line r = simp append_assoc

-- The message with the three fields of the line.
abbrev with_line : Request → Request → Request
with_line r r₀ = record r₀ {
  method = r.method;
  uri = r.uri;
  message = record (r₀.message) { version = r.message.version };
}

request_line_read :
    (r r₀ : Request)
    → IsSendable r
    → parse_request_line (request_line r) r₀ ≡ (RetCode.ready, with_line r r₀)
unfolding parse_request_line
request_line_read r r₀ ok =
    let v : VersionText r.message.version = version_text r.message.version ok.version in
    let valid : (r.method == Method.invalid) ≡ false = ground (arith, ok.method) in
    rw (
      parse_request_line,
      line_split_words (method_to_string r.method) r.uri (version_to_string r.message.version)
          (method_word r.method ok.method).0 (uri_word r.uri ok.uri).0 v.word.0 v.not_empty,
      ok.uri,
      v.valid,
      string_to_method-method_to_string r.method ok.method,
      valid,
      v.read,
    )

request_line-IsLine : (r : Request) → IsSendable r → IsLine (request_line r)
request_line-IsLine r ok =
    IsLine-append (method_to_string r.method) _ (method_word r.method ok.method).1 (
      omega arith,
      IsLine-append r.uri _ (uri_word r.uri ok.uri).1
          (omega arith, (version_text r.message.version ok.version).word.1),
    )

line_read :
    (r r₀ : Request) (rest : List ℕ)
    → IsSendable r
    → parse_line (request_line r ++ (13 ∷ 10 ∷ rest)) (a_request r₀)
      ≡ ret RetCode.ready (a_request (with_line r r₀), add_size (length (request_line r)) 2)
unfolding parse_line parse_start_line
line_read r r₀ rest ok = rw (
  parse_line,
  crlf-line (request_line r) rest (request_line-IsLine r ok),
  take-append_length (request_line r) (13 ∷ 10 ∷ rest),
  request_line_read r r₀ ok,
)

-- The parser when it has taken the whole request.
abbrev pub finished : Request → Parser
finished r = taken (length (dump_request r)) r.message

tail : (r : Request) → IsSendable r → HasTail r.message
tail r ok = record {
  headers = ok.headers;
  distinct = ok.distinct;
  length_known = ok.length_known;
  plain = ok.plain;
}

-- On the dump of a request that the format can carry, and whatever follows it, a first call of the
-- parser on a blank request is ready: it has used up exactly the dump, and it has rebuilt the
-- request, its method, path, version, headers and body.
pub parse-dump_request :
    (r : Request) (rest : List ℕ)
    → IsSendable r
    → parse fresh (dump_request r ++ rest) (a_request blank_request)
      ≡ done RetCode.ready (finished r) (a_request r)
parse-dump_request r rest ok =
    let text = dump-request_line r in
    ap (λ x. parse fresh (x ++ rest) (a_request blank_request)) text
    ∙ message_read (request_line r) rest r.message (a_request blank_request)
        (a_request (with_line r blank_request)) (tail r ok) refl
        (omega (arith, ap length text, ok.is_size)) (λ more. line_read r blank_request more ok)
    ∙ ap (λ n. done RetCode.ready (taken n r.message) (a_request r)) (ap length (sym text))
