-- ===== src/Http/Sample.antt =====
-- A concrete request, for the runs of the modules about HTTP.
use lcy.Prelude.{ℕ, ◌≡◌, refl, true, not, ◌||◌, List, [], ◌∷◌, ◌==◌, length, arith, and-true}
use lcy.Prelude.Int.{pos}
use lcy.Http.State.{state_to_desc}
use lcy.Http.Message.{Response, int_to_string, dump_response}
use lcy.Http.Parser.Tail.{HasTail}
use lcy.Http.Parser.ResponseTrip.{IsDumpable}
use lcy.Http.Text.{codes, all}
use lcy.Http.Version.{http_1_1, version_to_string}
use lcy.Http.Method.{method_to_string}
use lcy.Http.Message.{Request, find, dump_headers, dump_rest, dump_request}
use lcy.Http.Lexer.{is_valid_uri}
use lcy.Http.Lexer.Fields.{IsKey}
use lcy.Http.Parser.{content_length_of, is_chunked}
use lcy.Http.Parser.Steps.{IsHeader}
use lcy.Http.Parser.RoundTrip.{no_space, IsSendable}

pub IsKey-all : (s : List ℕ) → all (λ c. not ((c == 32) || (c == 58))) s ≡ true → IsKey s
unfolding all
IsKey-all [] h = tt
IsKey-all (c ∷ s) h =
    let (hc, hs) =
      and-true (not ((c == 32) || (c == 58))) (all (λ d. not ((d == 32) || (d == 58))) s) h in
    ((ground arith, ground arith), IsKey-all s hs)

pub length_key : IsHeader (codes "Content-Length", codes "2")
unfolding all
length_key = record {
  key = IsKey-all (codes "Content-Length") refl;
  key_line = (no_space (codes "Content-Length") refl).1;
  value = (no_space (codes "2") refl).0;
  value_line = (no_space (codes "2") refl).1;
}

pub agent_key : IsHeader (codes "User-Agent", codes "lcy")
unfolding all
agent_key = record {
  key = IsKey-all (codes "User-Agent") refl;
  key_line = (no_space (codes "User-Agent") refl).1;
  value = (no_space (codes "lcy") refl).0;
  value_line = (no_space (codes "lcy") refl).1;
}

abbrev pub post : Request
post = record {
  message = record {
    body = codes "hi";
    version = http_1_1;
    headers = (codes "User-Agent", codes "lcy") ∷ (codes "Content-Length", codes "2") ∷ [];
  };
  method = 3;
  uri = codes "/a";
}

pub post_length : length (dump_request post) ≡ 58
unfolding dump_request dump_rest dump_headers method_to_string version_to_string
post_length = refl

pub post-IsSendable : IsSendable post
unfolding is_valid_uri find content_length_of is_chunked
post-IsSendable = record {
  method = omega arith;
  uri = refl;
  version = λ e. cc;
  headers = (agent_key, (length_key, tt));
  distinct = (refl, (refl, tt));
  length_known = refl;
  plain = refl;
  is_size = omega (arith, post_length);
}

abbrev pub answer : ℕ → Response
answer n = record { message = post.message; state = pos n }

ok_length : length (dump_response (answer 200)) ≡ 57
unfolding dump_response dump_rest dump_headers state_to_desc version_to_string int_to_string
ok_length = refl

not_found_length : length (dump_response (answer 404)) ≡ 64
unfolding dump_response dump_rest dump_headers state_to_desc version_to_string int_to_string
not_found_length = refl

post_tail : HasTail post.message
unfolding find content_length_of is_chunked
post_tail = record {
  headers = (agent_key, (length_key, tt));
  distinct = (refl, (refl, tt));
  length_known = refl;
  plain = refl;
}

pub ok-IsDumpable : IsDumpable 200 (answer 200)
ok-IsDumpable = record {
  state = refl;
  below = omega arith;
  version = λ e. cc;
  tail = post_tail;
  is_size = omega (arith, ok_length);
}

pub not_found-IsDumpable : IsDumpable 404 (answer 404)
not_found-IsDumpable = record {
  state = refl;
  below = omega arith;
  version = λ e. cc;
  tail = post_tail;
  is_size = omega (arith, not_found_length);
}
