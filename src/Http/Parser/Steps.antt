-- ===== src/Http/Parser/Steps.antt =====
-- What the parts of http/parser.cc make of well-formed text.
use lcy.Prelude.{
  ℕ, zero, suc, ◌+◌, ◌^◌, ◌≤◌, ◌<◌, ◌≡◌, refl, sym, ap, ◌∙◌, false, some, List, [], ◌∷◌, ◌++◌, ◌==◌,
  length, drop, All, arith, append-nil, append_assoc, length-append, min, take-append_length,
  drop-append_eq, le→leb, take_all,
}
use lcy.Http.Message.{Target, Headers, dump_headers}
use lcy.Http.Lexer.{crlf, header_split}
use lcy.Http.Lexer.Lines.{IsLine, crlf-line}
use lcy.Http.Lexer.Fields.{IsWord, IsKey, header_split_line}
use lcy.Http.Parser.{
  RetCode, ret, add_size, sub_size, put_header, parse_header_loop, parse_plain, finish,
}

abbrev line_end : List ℕ → List ℕ
line_end rest = 13 ∷ 10 ∷ rest

drop-line : (s rest : List ℕ) → drop (length s + 2) (s ++ line_end rest) ≡ rest
drop-line s rest =
    ap (drop (length s + 2)) (sym (append_assoc s (13 ∷ 10 ∷ []) rest))
    ∙ drop-append_eq (length s + 2) (s ++ 13 ∷ 10 ∷ []) rest
        (omega (arith, length-append s (13 ∷ 10 ∷ [])))

-- One header line that is found and taken apart.
header_round :
    (fuel c : ℕ) (s rest key value : List ℕ) (t : Target) (n : ℕ)
    → IsLine (c ∷ s)
    → header_split (c ∷ s) ≡ some (key, value)
    → parse_header_loop (suc fuel) ((c ∷ s) ++ line_end rest) t n
      ≡ parse_header_loop fuel rest (put_header t key value) (add_size n (suc (length s) + 2))
unfolding parse_header_loop
header_round fuel c s rest key value t n hl e = rw (
  parse_header_loop,
  crlf-line (c ∷ s) rest hl,
  take-append_length (c ∷ s) (line_end rest),
  e,
  drop-line (c ∷ s) rest,
)

-- The line that a key and a value make.
abbrev header_line : List ℕ → List ℕ → List ℕ
header_line k v = k ++ (58 ∷ 32 ∷ v)

pub record IsHeader (h : List ℕ × List ℕ) : Type 0 where
  pub key : IsKey h.0
  pub key_line : IsLine h.0
  pub value : IsWord h.1
  pub value_line : IsLine h.1

pub IsLine-append : (s t : List ℕ) → IsLine s → IsLine t → IsLine (s ++ t)
IsLine-append [] t hs ht = ht
IsLine-append (c ∷ s) t (hc, hs) ht = (hc, IsLine-append s t hs ht)

header_line-IsLine : (k v : List ℕ) → IsHeader (k, v) → IsLine (header_line k v)
header_line-IsLine k v h =
    IsLine-append k (58 ∷ 32 ∷ v) h.key_line (omega arith, (omega arith, h.value_line))

header_step :
    (fuel : ℕ) (k v rest : List ℕ) (t : Target) (n : ℕ)
    → IsHeader (k, v)
    → parse_header_loop (suc fuel) (header_line k v ++ line_end rest) t n
      ≡ parse_header_loop fuel rest (put_header t k v) (add_size n (length (header_line k v) + 2))
header_step fuel [] v rest t n h =
    header_round fuel 58 (32 ∷ v) rest [] v t n (header_line-IsLine [] v h)
      (header_split_line [] v h.key h.value)
header_step fuel (c ∷ k) v rest t n h =
    header_round fuel c (k ++ (58 ∷ 32 ∷ v)) rest (c ∷ k) v t n (header_line-IsLine (c ∷ k) v h)
      (header_split_line (c ∷ k) v h.key h.value)

-- All headers, put one after the other.
unfoldable pub put_all : Target → Headers → Target
put_all t [] = t
put_all t ((k, v) ∷ hs) = put_all (put_header t k v) hs

dump_headers-cons :
    (k v : List ℕ) (hs : Headers) (rest : List ℕ)
    → dump_headers ((k, v) ∷ hs) ++ rest ≡ header_line k v ++ line_end (dump_headers hs ++ rest)
unfolding dump_headers
dump_headers-cons k v hs rest = simp append_assoc

length-dump_headers :
    (k v : List ℕ) (hs : Headers)
    → length (dump_headers ((k, v) ∷ hs)) ≡ length (header_line k v) + 2 + length (dump_headers hs)
length-dump_headers k v hs =
    ap length (sym (append-nil (dump_headers ((k, v) ∷ hs))) ∙ dump_headers-cons k v hs [])
    ∙ omega (
      arith,
      length-append (header_line k v) (line_end (dump_headers hs ++ [])),
      ap length (append-nil (dump_headers hs)),
    )

pub length-le-dump_headers : (hs : Headers) → length hs ≤ length (dump_headers hs)
length-le-dump_headers [] = omega arith
length-le-dump_headers ((k, v) ∷ hs) =
    omega (arith, length-dump_headers k v hs, length-le-dump_headers hs)

-- The loop takes all headers and the empty line behind them.
pub header_loop-dump :
    (fuel : ℕ) (hs : Headers) (tail : List ℕ) (t : Target) (n : ℕ)
    → length hs < fuel
    → All IsHeader hs
    → n + length (dump_headers hs) + 2 < 2 ^ 64
    → parse_header_loop fuel (dump_headers hs ++ line_end tail) t n
      ≡ ret RetCode.ready (put_all t hs, n + length (dump_headers hs) + 2)
unfolding put_all
header_loop-dump zero hs tail t n hf hh hn = absurd (omega arith)
header_loop-dump (suc fuel) [] tail t n hf hh hn =
    unfold parse_header_loop crlf dump_headers in
    ap (λ (m : ℕ). ret RetCode.ready (t, m)) (omega arith)
header_loop-dump (suc fuel) ((k, v) ∷ hs) tail t n hf (h, hh) hn =
    rw (dump_headers-cons k v hs (line_end tail), length-dump_headers k v hs)
      (header_step fuel k v (dump_headers hs ++ line_end tail) t n h
        ∙ header_loop-dump fuel hs tail (put_header t k v)
            (add_size n (length (header_line k v) + 2)) (omega arith) hh
            (omega (arith, length-dump_headers k v hs))
        ∙ ap (λ (m : ℕ). ret RetCode.ready (put_all (put_header t k v) hs, m))
            (omega (arith, length-dump_headers k v hs)))

-- A body that has arrived in full is taken, and nothing behind it.
pub parse_plain_whole :
    (body more : List ℕ) (t : Target)
    → length body < 2 ^ 64
    → parse_plain (body ++ more) t (length body) [] ≡ finish t body (length body)
unfolding parse_plain
parse_plain_whole [] more t h = refl
parse_plain_whole (c ∷ body) more t h =
    let all : ℕ = suc (length body) in
    let read_len : min (sub_size all 0) (suc (length (body ++ more))) ≡ all =
      omega (arith, length-append body more) in
    let some_left : (suc (length body) == 0) ≡ false = ground arith in
    rw (
      some_left,
      read_len,
      take-append_length body more,
      le→leb all all (omega arith),
      take_all (length body) body (omega arith),
    )
