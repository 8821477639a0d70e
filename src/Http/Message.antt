-- ===== src/Http/Message.antt =====
-- The messages of protocol/src/http/message.cc, request.cc and response.cc. The header map is an
-- association list, in the order in which the hash map is walked.
pub mod Headers
use lcy.Prelude.{
  ℕ, zero, suc, ◌+◌, ◌/◌, ◌%◌, Option, none, some, List, [], ◌∷◌, ◌++◌, if◌then◌else◌, ltb,
}
use lcy.Prelude.Int.{pos, negsuc}
use lcy.Http.Text.{codes, str_eq}
use lcy.Http.Version.{Version, http_err, version_to_string}
use lcy.Http.Method.{Method, method_to_string}
use lcy.Http.Method
use lcy.Http.State.{State, state_to_desc}
use lcy.Http.State

pub data ProtoType : Type 0 where
  unknown request response : ProtoType

abbrev pub Headers : Type 0
Headers = List (List ℕ × List ℕ)

-- The fields that requests and responses share.
pub record Message : Type 0 where
  pub body : List ℕ
  pub version : Version
  pub headers : Headers

-- `Message::Message`, and what `Message::clear` restores
abbrev pub blank : Message
blank = record { body = []; version = http_err; headers = [] }

pub record Request : Type 0 where
  pub message : Message
  pub method : Method
  pub uri : List ℕ

abbrev pub blank_request : Request
blank_request = record { message = blank; method = Method.invalid; uri = [] }

pub record Response : Type 0 where
  pub message : Message
  pub state : State

abbrev pub blank_response : Response
blank_response = record { message = blank; state = State.invalid }

-- What a `Message&` refers to; the constructor is its `type_`.
pub data Target : Type 0 where
  a_request : Request → Target
  a_response : Response → Target
  an_unknown : Message → Target

abbrev pub type : Target → ProtoType
type (a_request r) = request
type (a_response r) = response
type (an_unknown m) = unknown

abbrev pub base : Target → Message
base (a_request r) = r.message
base (a_response r) = r.message
base (an_unknown m) = m

abbrev pub with_base : Target → Message → Target
with_base (a_request r) m = a_request (record r { message = m })
with_base (a_response r) m = a_response (record r { message = m })
with_base (an_unknown m') m = an_unknown m

-- `Request::clear` and `Response::clear`
abbrev pub clear : Target → Target
clear (a_request r) = a_request blank_request
clear (a_response r) = a_response blank_response
clear (an_unknown m) = an_unknown blank

unfoldable pub find : List ℕ → Headers → Option (List ℕ)
unfolding str_eq
find key [] = none
find key ((k, v) ∷ hs) = if str_eq k key then some v else find key hs

-- `getHeader`
unfoldable pub get_header : Headers → List ℕ → List ℕ → List ℕ
unfolding find
get_header hs key def = elim (find key hs) [ none ↦ def | some v ↦ v ]

-- `setHeader`: `headers_[key] = value`
unfoldable pub set_header : Headers → List ℕ → List ℕ → Headers
unfolding str_eq
set_header [] key value = (key, value) ∷ []
set_header ((k, v) ∷ hs) key value =
    if str_eq k key then (k, value) ∷ hs else (k, v) ∷ set_header hs key value

-- `removeHeader`
unfoldable pub remove_header : Headers → List ℕ → Headers
unfolding str_eq
remove_header [] key = []
remove_header ((k, v) ∷ hs) key = if str_eq k key then hs else (k, v) ∷ remove_header hs key

abbrev pub set_body : Target → List ℕ → Target
set_body t b = with_base t (record (base t) { body = b })

abbrev pub set_version : Target → Version → Target
set_version t v = with_base t (record (base t) { version = v })

abbrev pub crlf_bytes : List ℕ
crlf_bytes = 13 ∷ 10 ∷ []

-- The header lines and the body, as both `dump`s write them.
unfoldable pub dump_headers : Headers → List ℕ
dump_headers [] = []
dump_headers ((k, v) ∷ hs) = k ++ (codes ": " ++ (v ++ (crlf_bytes ++ dump_headers hs)))

unfoldable pub dump_rest : Message → List ℕ
unfolding dump_headers
dump_rest m = dump_headers m.headers ++ (crlf_bytes ++ m.body)

-- `Request::dump`
unfoldable pub dump_request : Request → List ℕ
unfolding dump_rest method_to_string version_to_string
dump_request r =
    method_to_string r.method
    ++ (codes " "
        ++ (r.uri
            ++ (codes " "
                ++ (version_to_string r.message.version ++ (crlf_bytes ++ dump_rest r.message)))))

-- How `ostream` writes an `int`, with fuel for its digits: ten are enough.
unfoldable pub decimal : ℕ → ℕ → List ℕ
decimal zero n = []
decimal (suc fuel) n =
    let front = decimal fuel (n / 10) in
    if ltb n 10 then (n + b'0') ∷ [] else front ++ ((n % 10 + b'0') ∷ [])

unfoldable pub int_to_string : State → List ℕ
unfolding decimal
int_to_string (pos n) = decimal 10 n
int_to_string (negsuc n) = b'-' ∷ decimal 10 (suc n)

-- `Response::dump`
unfoldable pub dump_response : Response → List ℕ
unfolding dump_rest int_to_string state_to_desc version_to_string
dump_response r =
    version_to_string r.message.version
    ++ (codes " "
        ++ (int_to_string r.state
            ++ (codes " " ++ (state_to_desc r.state ++ (crlf_bytes ++ dump_rest r.message)))))
