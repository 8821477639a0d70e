-- ===== src/Http/Version.antt =====
-- The protocol versions of protocol/src/http/message.cc.
use lcy.Prelude.{List, ℕ, if◌then◌else◌}
use lcy.Http.Text.{codes, str_eq}

-- `enum class version`
pub data Version : Type 0 where
  http_err http_1_0 http_1_1 : Version

unfoldable pub version_to_string : Version → List ℕ
version_to_string http_1_0 = codes "HTTP/1.0"
version_to_string http_1_1 = codes "HTTP/1.1"
version_to_string http_err = codes "HTTP/1.1"

unfoldable pub string_to_version : List ℕ → Version
unfolding str_eq
string_to_version s =
    if str_eq s (codes "HTTP/1.0")
    then http_1_0
    else if str_eq s (codes "HTTP/1.1")
    then http_1_1
    else http_1_1
