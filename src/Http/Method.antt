-- ===== src/Http/Method.antt =====
-- The request methods of protocol/src/http/request.h and request.cc. `enum class method : int` is
-- its `int`.
pub mod Names
use lcy.Prelude.{ℕ, List, [], ◌∷◌, ◌==◌, if◌then◌else◌}
use lcy.Http.Text.{codes, str_eq}

abbrev pub Method : Type 0
Method = ℕ

-- `method::INVALID`, one more than the last code of the map
abbrev pub invalid : Method
invalid = 34

-- `HTTP_METHOD_MAP`: the code and the name. (The third column is used nowhere.)
abbrev pub method_map : List (ℕ × List ℕ)
method_map =
    (0, codes "DELETE")
    ∷ (1, codes "GET")
    ∷ (2, codes "HEAD")
    ∷ (3, codes "POST")
    ∷ (4, codes "PUT")
    ∷ (5, codes "CONNECT")
    ∷ (6, codes "OPTIONS")
    ∷ (7, codes "TRACE")
    ∷ (8, codes "COPY")
    ∷ (9, codes "LOCK")
    ∷ (10, codes "MKCOL")
    ∷ (11, codes "MOVE")
    ∷ (12, codes "PROPFIND")
    ∷ (13, codes "PROPPATCH")
    ∷ (14, codes "SEARCH")
    ∷ (15, codes "UNLOCK")
    ∷ (16, codes "BIND")
    ∷ (17, codes "REBIND")
    ∷ (18, codes "UNBIND")
    ∷ (19, codes "ACL")
    ∷ (20, codes "REPORT")
    ∷ (21, codes "MKACTIVITY")
    ∷ (22, codes "CHECKOUT")
    ∷ (23, codes "MERGE")
    ∷ (24, codes "MSEARCH")
    ∷ (25, codes "NOTIFY")
    ∷ (26, codes "SUBSCRIBE")
    ∷ (27, codes "UNSUBSCRIBE")
    ∷ (28, codes "PATCH")
    ∷ (29, codes "PURGE")
    ∷ (30, codes "MKCALENDAR")
    ∷ (31, codes "LINK")
    ∷ (32, codes "UNLINK")
    ∷ (33, codes "SOURCE")
    ∷ []

-- The chain of tests that the map expands to in `MethodToString`.
unfoldable pub method_name : List (ℕ × List ℕ) → Method → List ℕ
method_name [] m = []
method_name ((code, name) ∷ rest) m = if m == code then name else method_name rest m

unfoldable pub method_to_string : Method → List ℕ
unfolding method_name
method_to_string m = method_name method_map m

-- The chain of tests that the map expands to in `StringToMethod`.
unfoldable pub find_method : List (ℕ × List ℕ) → List ℕ → Method
unfolding str_eq
find_method [] s = invalid
find_method ((code, name) ∷ rest) s = if str_eq name s then code else find_method rest s

unfoldable pub string_to_method : List ℕ → Method
unfolding find_method
string_to_method s = find_method method_map s
