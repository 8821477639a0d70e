-- ===== src/Http/Tests.antt =====
-- Runs of the definitions, and the theorems at concrete inputs.
use lcy.Prelude.{ℕ, ◌≡◌, refl, true, false, some, List, [], ◌∷◌, ◌++◌, length, arith}
use lcy.Http.Text.{codes, all}
use lcy.Http.Version.{http_1_1, string_to_version, version_to_string}
use lcy.Http.Method.{method_to_string, string_to_method}
use lcy.Http.State.{state_name, state_to_string}
use lcy.Http.Message.{
  Headers, Target, a_request, blank_request, crlf_bytes, set_header, dump_headers, dump_rest,
  dump_request,
}
use lcy.Http.Lexer.{line_split, header_split, crlf, is_valid_uri, is_valid_http_version}
use lcy.Http.Parser.{RetCode, Tag, Parser, fresh, done, parse}
use lcy.Http.Parser.HeaderResume.{shown}
use lcy.Http.Parser.Pieces.{WaitedCalls, first_call, next_call, parse_pieces}
use lcy.Http.Sample.{post, post-IsSendable, answer, ok-IsDumpable, not_found-IsDumpable}
use lcy.Http.State.{state_to_desc}
use lcy.Prelude.{◌<◌, drop}
use lcy.Http.Message.{blank_response, a_response, dump_response}
use lcy.Http.Parser.Tail.{taken}
use lcy.Http.Parser.Prefix.{parse_prefix}
use lcy.Http.Parser.PrefixBody.{WaitsPlain}
use lcy.Http.Parser.ResponseTrip.{parse-dump_response, parse-dump_response_error}
use lcy.Http.Parser.RoundTrip.{no_space, finished, parse-dump_request}

get_line : line_split (codes "GET /a HTTP/1.1") ≡ some (codes "GET", codes "/a", codes "HTTP/1.1")
unfolding line_split
get_line = refl

-- A value with a blank inside is cut at the blank.
cut_value : header_split (codes "User-Agent: curl (x86)") ≡ some (codes "User-Agent", codes "curl")
unfolding header_split
cut_value = refl

http_version : is_valid_http_version (codes "HTTP/1.1") ≡ true
unfolding is_valid_http_version
http_version = refl

get_text : List ℕ
get_text =
    codes "POST /a HTTP/1.1"
    ++ (crlf_bytes ++ (codes "Content-Length: 2" ++ (crlf_bytes ++ (crlf_bytes ++ codes "hi!"))))

get_parsed :
    parse fresh get_text (a_request blank_request)
    ≡ done RetCode.ready
        (record {
          tag = Tag.ready;
          already_parse = 41;
          content_length = 2;
          chunked_transfer = false;
          body_buf = [];
        })
        (a_request (record {
          message = record {
            body = codes "hi";
            version = http_1_1;
            headers = (codes "Content-Length", codes "2") ∷ [];
          };
          method = 3;
          uri = codes "/a";
        }))
unfolding parse get_text crlf line_split is_valid_uri is_valid_http_version string_to_method
    header_split set_header string_to_version
get_parsed = refl

chunk_head : List ℕ
chunk_head =
    codes "PUT /a HTTP/1.1"
    ++ (crlf_bytes ++ (codes "Transfer-Encoding: chunked" ++ (crlf_bytes ++ crlf_bytes)))

chunk_text : List ℕ
chunk_text =
    chunk_head
    ++ (codes "2;x"
        ++ (crlf_bytes
            ++ (codes "hi"
                ++ (crlf_bytes ++ (codes "0" ++ (crlf_bytes ++ (codes "T: y" ++ crlf_bytes)))))))

parse-dump_request_example :
    parse fresh (dump_request post ++ codes "GET /b") (a_request blank_request)
    ≡ done RetCode.ready (finished post) (a_request post)
parse-dump_request_example = parse-dump_request post (codes "GET /b") post-IsSendable

abbrev two_headers : Headers
two_headers = (codes "Host", codes "a") ∷ (codes "Age", codes "7") ∷ []

-- All of `get_text` but the last two bytes, so that a byte of the body is missing.
abbrev first_part : List ℕ
first_part =
    codes "POST /a HTTP/1.1"
    ++ (crlf_bytes ++ (codes "Content-Length: 2" ++ (crlf_bytes ++ (crlf_bytes ++ codes "h"))))

abbrev first_parser : Parser
first_parser = record {
  tag = Tag.body;
  already_parse = 40;
  content_length = 2;
  chunked_transfer = false;
  body_buf = codes "h";
}

abbrev first_target : Target
first_target = a_request (record {
  message = record {
    body = [];
    version = http_1_1;
    headers = (codes "Content-Length", codes "2") ∷ [];
  };
  method = 3;
  uri = codes "/a";
})

start_parsed :
    parse fresh (codes "POST /a HT") (a_request blank_request)
    ≡ done RetCode.waiting_data fresh (a_request blank_request)
unfolding parse crlf
start_parsed = refl

first_parsed :
    parse fresh first_part (a_request blank_request)
    ≡ done RetCode.waiting_data first_parser first_target
unfolding parse crlf line_split is_valid_uri is_valid_http_version string_to_version header_split
    set_header string_to_method
first_parsed = refl

-- A first call in the middle of the first line, then the call above.
abbrev part_calls : WaitedCalls (a_request blank_request) first_part first_parser first_target
part_calls =
    next_call (codes "POST /a HT")
      (codes "TP/1.1"
        ++ (crlf_bytes ++ (codes "Content-Length: 2" ++ (crlf_bytes ++ (crlf_bytes ++ codes "h")))))
      fresh (a_request blank_request) first_parser first_target
      (first_call (codes "POST /a HT") fresh (a_request blank_request) refl start_parsed) refl
      first_parsed

first_length : length (first_part ++ codes "i!") ≡ 42
first_length = refl

parse_pieces_example :
    shown (parse first_parser (first_part ++ codes "i!") first_target)
    ≡ shown (parse fresh (first_part ++ codes "i!") (a_request blank_request))
parse_pieces_example =
    parse_pieces (a_request blank_request) first_part (codes "i!") first_parser first_target
      part_calls (omega (arith, first_length))

parse-dump_response_example :
    parse fresh (dump_response (answer 200) ++ codes "HTTP") (a_response blank_response)
    ≡ done RetCode.ready
        (taken (length (dump_response (answer 200))) post.message)
        (a_response (answer 200))
unfolding state_to_desc state_to_string state_name all
parse-dump_response_example =
    parse-dump_response (answer 200) 200 (codes "HTTP") ok-IsDumpable (no_space (codes "OK") refl).0
      (λ e. cc) refl

-- `Not Found`
parse-dump_response_error_example :
    parse fresh (dump_response (answer 404) ++ codes "HTTP") (a_response blank_response)
    ≡ done RetCode.error fresh (a_response blank_response)
unfolding state_to_desc all
parse-dump_response_error_example =
    parse-dump_response_error (answer 404) blank_response 404 (codes "Not") (codes "Found")
      (codes "HTTP") not_found-IsDumpable refl (no_space (codes "Not") refl).0

front_text : codes "POST /a HT" ++ drop 10 (dump_request post) ≡ dump_request post
unfolding dump_request dump_rest dump_headers method_to_string version_to_string
front_text = refl

front_left : 0 < length (drop 10 (dump_request post))
unfolding dump_request dump_rest dump_headers method_to_string version_to_string
front_left = omega arith

parse_prefix_example : WaitsPlain (parse fresh (codes "POST /a HT") (a_request blank_request))
parse_prefix_example =
    parse_prefix post (codes "POST /a HT") (drop 10 (dump_request post)) post-IsSendable front_left
      front_text
