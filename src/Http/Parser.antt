-- ===== src/Http/Parser.antt =====
-- The incremental parser of protocol/src/http/parser.cc. Each call is given all bytes received so
-- far; `already_parse_` of them earlier calls have used up. A number is a `size_t`.
pub mod Steps
pub mod Tail
pub mod Whole
pub mod RoundTrip
pub mod ResponseTrip
pub mod HeaderLoop
pub mod BodyResume
pub mod Stages
pub mod Resume
pub mod HeaderResume
pub mod Pieces
pub mod PrefixBody
pub mod Prefix
pub mod LineResume
use Prim.Native.Nat.{min}
use lcy.Prelude.{
  ℕ, zero, suc, ◌+◌, ◌-◌, ◌*◌, ◌%◌, ◌^◌, Bool, true, false, ◌&&◌, ◌||◌, Option, none, some, List,
  [], ◌∷◌, ◌++◌, ◌==◌, ltb, leb, if◌then◌else◌, length, take, drop,
}
use lcy.Prelude.Int.{ℤ, pos, negsuc}
use lcy.Http.Text.{codes, str_eq, atoi}
use lcy.Http.Version.{string_to_version}
use lcy.Http.Method.{string_to_method}
use lcy.Http.Method
use lcy.Http.State.{state_to_string}
use lcy.Http.Message.{
  Message, Request, Response, Target, a_request, a_response, an_unknown, base, with_base,
  get_header, set_header, set_body,
}
use lcy.Http.Lexer.{is_empty, is_valid_uri, is_valid_http_version, line_split, header_split, crlf}

pub data RetCode : Type 0 where
  ready waiting_data error : RetCode

pub data Tag : Type 0 where
  line header body ready : Tag

-- `Parser::Impl`
pub record Parser : Type 0 where
  pub tag : Tag
  pub already_parse : ℕ
  pub content_length : ℕ
  pub chunked_transfer : Bool
  pub body_buf : List ℕ

-- `Impl::Impl`, and what `reset` restores
abbrev pub fresh : Parser
fresh = record {
  tag = Tag.line;
  already_parse = 0;
  content_length = 0;
  chunked_transfer = false;
  body_buf = [];
}

abbrev pub reset : Parser → Parser
reset p = fresh

abbrev pub nparse : Parser → ℕ
nparse p = p.already_parse

abbrev pub add_size : ℕ → ℕ → ℕ
add_size a b = (a + b) % 2 ^ 64

abbrev pub sub_size : ℕ → ℕ → ℕ
sub_size a b = (2 ^ 64 + a - b) % 2 ^ 64

-- A part of the parser ends with a code and a result; or it faults: an access outside the buffer,
-- undefined behaviour of `atoi`, or an exception of `std::string`.
pub data Result {ℓ} (A : Type ℓ) : Type ℓ where
  ret : RetCode → A → Result A
  fault out_of_fuel : Result A

-- `parseRequestLine`
unfoldable pub parse_request_line : List ℕ → Request → RetCode × Request
parse_request_line d r = elim (line_split d) [
  | none ↦ (RetCode.error, r)
  | some (method, uri, version) ↦
      if is_valid_uri uri && is_valid_http_version version
      then (if string_to_method method == Method.invalid then (RetCode.error, r) else (
        RetCode.ready,
        record r {
          method = string_to_method method;
          uri = uri;
          message = record (r.message) { version = string_to_version version };
        },
      ))
      else (RetCode.error, r)
]

-- The rest of `parseResponseLine`, from the number of the state on.
unfoldable pub set_state_line : Option ℤ → List ℕ → Response → Result Response
set_state_line none version r = fault
set_state_line (some tmp) version r =
    if is_empty (state_to_string tmp)
    then ret RetCode.error r
    else ret RetCode.ready (record r {
      state = tmp;
      message = record (r.message) { version = string_to_version version };
    })

-- `parseResponseLine`
unfoldable pub parse_response_line : List ℕ → Response → Result Response
parse_response_line d r = elim (line_split d) [
  | none ↦ ret RetCode.error r
  | some (version, state, description) ↦
      if is_valid_http_version version
      then set_state_line (atoi state) version r
      else ret RetCode.error r
]

-- The three ways on in `parseLine`, by the type of the message.
unfoldable pub parse_start_line : List ℕ → Target → Result Target
unfolding parse_request_line parse_response_line set_state_line
parse_start_line d (a_request r) =
    let (code, r') = parse_request_line d r in ret code (a_request r')
parse_start_line d (a_response r) = elim (parse_response_line d r) [
  | ret code r' ↦ ret code (a_response r')
  | fault ↦ fault
  | out_of_fuel ↦ out_of_fuel
]
parse_start_line d (an_unknown m) = ret RetCode.error (an_unknown m)

-- What `parseLine` makes of the answer for a line of `i` bytes.
abbrev pub line_found : ℕ → Result Target → Result (Target × ℕ)
line_found i (ret RetCode.ready t) = ret RetCode.ready (t, add_size i 2)
line_found i (ret RetCode.waiting_data t) = ret RetCode.waiting_data (t, 0)
line_found i (ret RetCode.error t) = ret RetCode.error (t, 0)
line_found i fault = fault
line_found i out_of_fuel = out_of_fuel

-- `parseLine`: the message and `nparse`
unfoldable pub parse_line : List ℕ → Target → Result (Target × ℕ)
unfolding parse_start_line
parse_line d t = elim (crlf d) [
  | none ↦ ret RetCode.waiting_data (t, 0)
  | some i ↦ line_found i (parse_start_line (take i d) t)
]

abbrev pub put_header : Target → List ℕ → List ℕ → Target
put_header t key value =
    with_base t (record (base t) { headers = set_header (base t).headers key value })

-- The loop of `parseHeader` on the bytes from `header_ptr` on, with fuel.
unfoldable pub parse_header_loop : ℕ → List ℕ → Target → ℕ → Result (Target × ℕ)
parse_header_loop zero d t n = out_of_fuel
parse_header_loop (suc fuel) d t n = elim (crlf d) [
  | none ↦ ret RetCode.waiting_data (t, n)
  | some zero ↦ ret RetCode.ready (t, add_size n 2)
  | some (suc i) ↦ elim (header_split (take (suc i) d)) [
    | none ↦ ret RetCode.error (t, n)
    | some (key, value) ↦
        parse_header_loop fuel (drop (suc i + 2) d) (put_header t key value)
          (add_size n (suc i + 2))
  ]
]

-- Each round but the last uses up a line, so a round more than there are bytes is enough.
unfoldable pub parse_header : List ℕ → Target → Result (Target × ℕ)
unfolding parse_header_loop
parse_header d t = parse_header_loop (suc (length d)) d t 0

-- What `parseBody` leaves: the message, `nparse` and `body_buf`.
pub record Body : Type 0 where
  pub target : Target
  pub nparse : ℕ
  pub body_buf : List ℕ

-- `msg.setBody(std::move(body_buf))`; the buffer that was moved from is empty.
abbrev pub finish : Target → List ℕ → ℕ → Result Body
finish t buf n = ret RetCode.ready (record { target = set_body t buf; nparse = n; body_buf = [] })

-- `parseBody` without chunks
unfoldable pub parse_plain : List ℕ → Target → ℕ → List ℕ → Result Body
parse_plain d t content_len buf =
    if content_len == 0
    then finish t buf 0
    else let read_len = min (sub_size content_len (length buf)) (length d) in
      let buf' = buf ++ take read_len d in
      if leb content_len (length buf')
      then finish t (take content_len buf') read_len
      else ret RetCode.waiting_data (record { target = t; nparse = read_len; body_buf = buf' })

-- The value of a hexadecimal digit.
unfoldable pub hex_digit : ℕ → Option ℕ
hex_digit c =
    if leb b'0' c && leb c b'9'
    then some (c - b'0')
    else if leb b'a' c && leb c b'f'
    then some (c - b'a' + 10)
    else if leb b'A' c && leb c b'F'
    then some (c - b'A' + 10)
    else none

-- The size of a chunk, up to the end of its line or an extension; `none` is a wrong character.
unfoldable pub parse_chunk_size : List ℕ → ℕ → Option ℕ
unfolding hex_digit
parse_chunk_size [] size = some size
parse_chunk_size (c ∷ s) size =
    if c == b';'
    then some size
    else elim (hex_digit c) [ none ↦ none | some k ↦ parse_chunk_size s ((size * 16 + k) % 2 ^ 64) ]

-- The inner loop of `parseBody`, on the trailer lines behind the last chunk, with fuel.
unfoldable pub parse_trailer_loop : ℕ → List ℕ → Target → ℕ → List ℕ → Result Body
parse_trailer_loop zero d t n buf = out_of_fuel
parse_trailer_loop (suc fuel) d t n buf = elim (leb 2 (length d)) [
  | false ↦ ret RetCode.waiting_data (record { target = t; nparse = n; body_buf = buf })
  | true ↦ elim (crlf d) [
    | none ↦ ret RetCode.waiting_data (record { target = t; nparse = n; body_buf = buf })
    | some zero ↦ finish t buf (add_size n 2)
    | some (suc i) ↦ parse_trailer_loop fuel (drop (suc i + 2) d) t (add_size n (suc i + 2)) buf
  ]
]

-- `ptr[chunk_size]` and the byte behind it
abbrev pub ends_chunk : List ℕ → Option Bool
ends_chunk (a ∷ b ∷ s) = some ((a == 13) && (b == 10))
ends_chunk _ = none

-- The loop of `parseBody` with chunks, with fuel. `string::append` outside the buffer is a fault.
unfoldable pub parse_chunk_loop : ℕ → List ℕ → Target → ℕ → List ℕ → Result Body
unfolding parse_chunk_size parse_trailer_loop
parse_chunk_loop zero d t n buf = out_of_fuel
parse_chunk_loop (suc fuel) [] t n buf =
    ret RetCode.waiting_data (record { target = t; nparse = n; body_buf = buf })
parse_chunk_loop (suc fuel) (c ∷ d) t n buf = elim (crlf (c ∷ d)) [
  | none ↦ ret RetCode.waiting_data (record { target = t; nparse = n; body_buf = buf })
  | some zero ↦ ret RetCode.error (record { target = t; nparse = n; body_buf = buf })
  | some (suc i) ↦ elim (parse_chunk_size (take (suc i) (c ∷ d)) 0) [
    | none ↦ ret RetCode.error (record { target = t; nparse = n; body_buf = buf })
    | some size ↦
        let total = add_size (suc i) 2 in
        elim (ltb (length (c ∷ d)) (add_size (add_size total size) 2)) [
          | true ↦ ret RetCode.waiting_data (record { target = t; nparse = n; body_buf = buf })
          | false ↦
              let rest = drop (suc i + 2) (c ∷ d) in
              let n' = add_size n total in
              elim size [
                | zero ↦ parse_trailer_loop (suc (length rest)) rest t n' buf
                | suc k ↦ elim (ltb (length rest) (add_size (suc k) 2)) [
                  | true ↦
                      ret RetCode.waiting_data (record { target = t; nparse = n'; body_buf = buf })
                  | false ↦ elim (ends_chunk (drop (suc k) rest)) [
                    | none ↦ fault
                    | some false ↦
                        ret RetCode.error
                          (record { target = t; nparse = n'; body_buf = buf ++ take (suc k) rest })
                    | some true ↦
                        parse_chunk_loop fuel (drop (suc k + 2) rest) t
                          (add_size n' (add_size (suc k) 2)) (buf ++ take (suc k) rest)
                  ]
                ]
              ]
        ]
  ]
]

-- `parseBody`; a chunk takes three bytes at least, so a round more than there are bytes is enough.
unfoldable pub parse_body : List ℕ → Target → ℕ → Bool → List ℕ → Result Body
unfolding parse_plain parse_chunk_loop
parse_body d t content_len false buf = parse_plain d t content_len buf
parse_body d t content_len true buf = parse_chunk_loop (suc (length d)) d t 0 buf

-- An `int`, converted to `size_t`
abbrev pub to_size : ℤ → ℕ
to_size (pos n) = n % 2 ^ 64
to_size (negsuc n) = 2 ^ 64 - n - 1

-- `std::string::max_size`: `reserve` throws above it.
abbrev pub max_size : ℕ
max_size = 2 ^ 63 - 1

-- What `Impl::parse` reads from the headers when they are complete: the content length, `none` if
-- `atoi` or `reserve` fails, and whether the body comes in chunks.
unfoldable pub content_length_of : Message → Option ℕ
unfolding atoi get_header
content_length_of m = elim (atoi (get_header m.headers (codes "Content-Length") (codes "0"))) [
  | none ↦ none
  | some n ↦ if ltb max_size (to_size n) then none else some (to_size n)
]

unfoldable pub is_chunked : Message → Bool
unfolding get_header str_eq
is_chunked m =
    str_eq (get_header m.headers (codes "Transfer-Encoding") (codes "No Transfer-Encoding"))
      (codes "chunked")

-- A call of `parse`: the code, the parser and the message.
abbrev pub Outcome : Type 0
Outcome = Result (Parser × Target)

abbrev pub done : RetCode → Parser → Target → Outcome
done code p t = ret code (p, t)

abbrev pub used : Parser → ℕ → Parser
used p n = record p { already_parse = add_size p.already_parse n }

-- `case Tag::LINE`, on the answer of `parseLine`; `k` goes round the loop again.
unfoldable pub line_case : (Parser → Target → Outcome) → Parser → Result (Target × ℕ) → Outcome
line_case k p (ret RetCode.ready (t, n)) = k (record (used p n) { tag = Tag.header }) t
line_case k p (ret code (t, n)) = done code p t
line_case k p fault = fault
line_case k p out_of_fuel = out_of_fuel

-- `case Tag::HEADER`
unfoldable pub header_case : (Parser → Target → Outcome) → Parser → Result (Target × ℕ) → Outcome
unfolding content_length_of is_chunked
header_case k p (ret RetCode.ready (t, n)) = elim (content_length_of (base t)) [
  | none ↦ fault
  | some len ↦
      k
        (record (used p n) {
          tag = Tag.body;
          content_length = len;
          chunked_transfer = is_chunked (base t) || p.chunked_transfer;
        })
        t
]
header_case k p (ret RetCode.waiting_data (t, n)) = done RetCode.waiting_data (used p n) t
header_case k p (ret RetCode.error (t, n)) = done RetCode.error p t
header_case k p fault = fault
header_case k p out_of_fuel = out_of_fuel

-- `case Tag::BODY`
unfoldable pub body_case : (Parser → Target → Outcome) → Parser → Result Body → Outcome
body_case k p (ret RetCode.ready b) =
    k (record (used p b.nparse) { tag = Tag.ready; body_buf = b.body_buf }) b.target
body_case k p (ret RetCode.waiting_data b) =
    done RetCode.waiting_data (record (used p b.nparse) { body_buf = b.body_buf }) b.target
body_case k p (ret RetCode.error b) =
    done RetCode.error (record p { body_buf = b.body_buf }) b.target
body_case k p fault = fault
body_case k p out_of_fuel = out_of_fuel

-- The switch of `Impl::parse`. Where the caller passes fewer bytes than were used up,
-- `len - already_parse_` wraps and the parser reads outside the buffer.
unfoldable pub parse_tag : (Parser → Target → Outcome) → Tag → Parser → List ℕ → Target → Outcome
unfolding parse_line line_case parse_header header_case parse_body body_case
parse_tag k Tag.line p d t = line_case k p (parse_line d t)
parse_tag k Tag.header p d t =
    if ltb (length d) p.already_parse
    then fault
    else header_case k p (parse_header (drop p.already_parse d) t)
parse_tag k Tag.body p d t =
    if ltb (length d) p.already_parse
    then fault
    else body_case k p
        (parse_body (drop p.already_parse d) t p.content_length p.chunked_transfer p.body_buf)
parse_tag k Tag.ready p d t = done RetCode.ready p t

unfoldable pub parse_loop : ℕ → Parser → List ℕ → Target → Outcome
unfolding parse_tag
parse_loop zero p d t = out_of_fuel
parse_loop (suc fuel) p d t = parse_tag (λ p' t'. parse_loop fuel p' d t') p.tag p d t

-- Each round but the last moves the tag on, so four rounds are enough.
unfoldable pub parse : Parser → List ℕ → Target → Outcome
unfolding parse_loop
parse p d t = parse_loop 4 p d t
