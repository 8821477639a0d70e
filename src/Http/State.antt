-- ===== src/Http/State.antt =====
-- The status codes of protocol/src/http/response.h and response.cc. `enum class state : int` is its
-- `int`.
pub mod Names
use lcy.Prelude.{ℕ, Bool, false, List, [], ◌∷◌, ◌==◌, if◌then◌else◌}
use lcy.Prelude.Int.{ℤ, pos, negsuc}
use lcy.Http.Text.{codes, str_eq}

abbrev pub State : Type 0
State = ℤ

-- `state::INVALID`, one more than the last code of the map
abbrev pub invalid : State
invalid = pos 512

-- `HTTP_STATUS_MAP`: the code, the name and the description.
abbrev pub status_map : List (ℕ × List ℕ × List ℕ)
status_map =
    (100, codes "CONTINUE", codes "Continue")
    ∷ (101, codes "SWITCHING_PROTOCOLS", codes "Switching Protocols")
    ∷ (102, codes "PROCESSING", codes "Processing")
    ∷ (200, codes "OK", codes "OK")
    ∷ (201, codes "CREATED", codes "Created")
    ∷ (202, codes "ACCEPTED", codes "Accepted")
    ∷ (203, codes "NON_AUTHORITATIVE_INFORMATION", codes "Non-Authoritative Information")
    ∷ (204, codes "NO_CONTENT", codes "No Content")
    ∷ (205, codes "RESET_CONTENT", codes "Reset Content")
    ∷ (206, codes "PARTIAL_CONTENT", codes "Partial Content")
    ∷ (207, codes "MULTI_STATUS", codes "Multi-Status")
    ∷ (208, codes "ALREADY_REPORTED", codes "Already Reported")
    ∷ (226, codes "IM_USED", codes "IM Used")
    ∷ (300, codes "MULTIPLE_CHOICES", codes "Multiple Choices")
    ∷ (301, codes "MOVED_PERMANENTLY", codes "Moved Permanently")
    ∷ (302, codes "FOUND", codes "Found")
    ∷ (303, codes "SEE_OTHER", codes "See Other")
    ∷ (304, codes "NOT_MODIFIED", codes "Not Modified")
    ∷ (305, codes "USE_PROXY", codes "Use Proxy")
    ∷ (307, codes "TEMPORARY_REDIRECT", codes "Temporary Redirect")
    ∷ (308, codes "PERMANENT_REDIRECT", codes "Permanent Redirect")
    ∷ (400, codes "BAD_REQUEST", codes "Bad Request")
    ∷ (401, codes "UNAUTHORIZED", codes "Unauthorized")
    ∷ (402, codes "PAYMENT_REQUIRED", codes "Payment Required")
    ∷ (403, codes "FORBIDDEN", codes "Forbidden")
    ∷ (404, codes "NOT_FOUND", codes "Not Found")
    ∷ (405, codes "METHOD_NOT_ALLOWED", codes "Method Not Allowed")
    ∷ (406, codes "NOT_ACCEPTABLE", codes "Not Acceptable")
    ∷ (407, codes "PROXY_AUTHENTICATION_REQUIRED", codes "Proxy Authentication Required")
    ∷ (408, codes "REQUEST_TIMEOUT", codes "Request Timeout")
    ∷ (409, codes "CONFLICT", codes "Conflict")
    ∷ (410, codes "GONE", codes "Gone")
    ∷ (411, codes "LENGTH_REQUIRED", codes "Length Required")
    ∷ (412, codes "PRECONDITION_FAILED", codes "Precondition Failed")
    ∷ (413, codes "PAYLOAD_TOO_LARGE", codes "Payload Too Large")
    ∷ (414, codes "URI_TOO_LONG", codes "URI Too Long")
    ∷ (415, codes "UNSUPPORTED_MEDIA_TYPE", codes "Unsupported Media Type")
    ∷ (416, codes "RANGE_NOT_SATISFIABLE", codes "Range Not Satisfiable")
    ∷ (417, codes "EXPECTATION_FAILED", codes "Expectation Failed")
    ∷ (421, codes "MISDIRECTED_REQUEST", codes "Misdirected Request")
    ∷ (422, codes "UNPROCESSABLE_ENTITY", codes "Unprocessable Entity")
    ∷ (423, codes "LOCKED", codes "Locked")
    ∷ (424, codes "FAILED_DEPENDENCY", codes "Failed Dependency")
    ∷ (426, codes "UPGRADE_REQUIRED", codes "Upgrade Required")
    ∷ (428, codes "PRECONDITION_REQUIRED", codes "Precondition Required")
    ∷ (429, codes "TOO_MANY_REQUESTS", codes "Too Many Requests")
    ∷ (431, codes "REQUEST_HEADER_FIELDS_TOO_LARGE", codes "Request Header Fields Too Large")
    ∷ (451, codes "UNAVAILABLE_FOR_LEGAL_REASONS", codes "Unavailable For Legal Reasons")
    ∷ (500, codes "INTERNAL_SERVER_ERROR", codes "Internal Server Error")
    ∷ (501, codes "NOT_IMPLEMENTED", codes "Not Implemented")
    ∷ (502, codes "BAD_GATEWAY", codes "Bad Gateway")
    ∷ (503, codes "SERVICE_UNAVAILABLE", codes "Service Unavailable")
    ∷ (504, codes "GATEWAY_TIMEOUT", codes "Gateway Timeout")
    ∷ (505, codes "HTTP_VERSION_NOT_SUPPORTED", codes "HTTP Version Not Supported")
    ∷ (506, codes "VARIANT_ALSO_NEGOTIATES", codes "Variant Also Negotiates")
    ∷ (507, codes "INSUFFICIENT_STORAGE", codes "Insufficient Storage")
    ∷ (508, codes "LOOP_DETECTED", codes "Loop Detected")
    ∷ (510, codes "NOT_EXTENDED", codes "Not Extended")
    ∷ (511, codes "NETWORK_AUTHENTICATION_REQUIRED", codes "Network Authentication Required")
    ∷ []

-- `code == (int)state`
abbrev pub is_code : ℕ → State → Bool
is_code code (pos n) = code == n
is_code code (negsuc n) = false

unfoldable pub state_name : List (ℕ × List ℕ × List ℕ) → State → List ℕ
state_name [] s = []
state_name ((code, name, desc) ∷ rest) s = if is_code code s then name else state_name rest s

unfoldable pub state_to_string : State → List ℕ
unfolding state_name
state_to_string s = state_name status_map s

unfoldable pub find_state : List (ℕ × List ℕ × List ℕ) → List ℕ → State
unfolding str_eq
find_state [] s = invalid
find_state ((code, name, desc) ∷ rest) s = if str_eq name s then pos code else find_state rest s

unfoldable pub string_to_state : List ℕ → State
unfolding find_state
string_to_state s = find_state status_map s

unfoldable pub state_desc : List (ℕ × List ℕ × List ℕ) → State → List ℕ
state_desc [] s = []
state_desc ((code, name, desc) ∷ rest) s = if is_code code s then desc else state_desc rest s

unfoldable pub state_to_desc : State → List ℕ
unfolding state_desc
state_to_desc s = state_desc status_map s
