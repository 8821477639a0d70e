-- ===== src/Http/Lexer.antt =====
-- The functions of protocol/src/http/parser.cc that take lines apart. A pointer with a length is
-- the list of the bytes there. The index in `CRLF` is an `int`: buffers are below 2 ^ 31 bytes.
pub mod Lines
pub mod Fields
use lcy.Prelude.{
  ℕ, zero, suc, ◌+◌, Bool, true, false, not, ◌&&◌, Option, none, some, List, [], ◌∷◌, ◌++◌, ◌==◌,
  if◌then◌else◌, ◌>>=◌, take, drop, length,
}
use lcy.Http.Text.{codes, str_eq, is_space, is_digit, take_while, drop_while, all}

-- `std::regex_match` with `^/\S*$`
unfoldable pub is_valid_uri : List ℕ → Bool
unfolding all
is_valid_uri [] = false
is_valid_uri (c ∷ s) = (c == b'/') && all (λ d. not (is_space d)) s

abbrev pub is_empty : List ℕ → Bool
is_empty [] = true
is_empty (c ∷ s) = false

-- The part of the pattern behind the first run of digits: `\.\d+$`.
unfoldable pub is_minor : List ℕ → Bool
unfolding all
is_minor [] = false
is_minor (c ∷ s) = (c == b'.') && (not (is_empty s) && all is_digit s)

-- `std::regex_match` with `^HTTP/\d+\.\d+$`
unfoldable pub is_valid_http_version : List ℕ → Bool
unfolding str_eq take_while drop_while is_minor
is_valid_http_version s =
    let number = drop 5 s in
    str_eq (take 5 s) (codes "HTTP/")
    && (not (is_empty (take_while is_digit number)) && is_minor (drop_while is_digit number))

-- The loop of `lineSplit`: the bytes left, the two fields found so far, and the bytes since
-- `start_ptr`. `none` stands for `return false`.
unfoldable pub line_split_loop :
    List ℕ → ℕ → List ℕ → List ℕ → List ℕ → Option (List ℕ × List ℕ × List ℕ)
line_split_loop [] count field1 field2 since =
    if (count == 2) && not (is_empty since) then some (field1, field2, since) else none
line_split_loop (c ∷ s) count field1 field2 since =
    let first = line_split_loop s 1 since field2 [] in
    let second = line_split_loop s 2 field1 since [] in
    let same = line_split_loop s count field1 field2 (since ++ (c ∷ [])) in
    if c == b' '
    then (if count + 1 == 1 then first else if count + 1 == 2 then second else none)
    else same

unfoldable pub line_split : List ℕ → Option (List ℕ × List ℕ × List ℕ)
unfolding line_split_loop
line_split s = line_split_loop s 0 [] [] []

-- `trim` skips blanks and keeps what stands before the next one.
unfoldable pub trim : List ℕ → List ℕ
unfolding take_while drop_while
trim s = take_while (λ c. not (c == b' ')) (drop_while (λ c. c == b' ') s)

-- The index of the first colon.
unfoldable pub find_colon : List ℕ → Option ℕ
find_colon [] = none
find_colon (c ∷ s) = if c == b':' then some 0 else (do i ← find_colon s; some (suc i))

-- The key and the value of a header line.
unfoldable pub header_split : List ℕ → Option (List ℕ × List ℕ)
unfolding find_colon trim
header_split s = do i ← find_colon s; some (trim (take i s), trim (drop (suc i) s))

-- The index of the first `"\r\n"`; `none` stands for the null pointer.
unfoldable pub crlf : List ℕ → Option ℕ
crlf [] = none
crlf (a ∷ []) = none
crlf (a ∷ b ∷ s) = if (a == 13) && (b == 10) then some 0 else (do i ← crlf (b ∷ s); some (suc i))
