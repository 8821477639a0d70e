-- ===== src/Http/Parser/Whole.antt =====
-- A whole message for http/parser.cc: a first line that is taken, and the rest as `dump` writes it.
use lcy.Prelude.{
  ℕ, ◌+◌, ◌^◌, ◌<◌, ◌≡◌, refl, sym, ap, ◌∙◌, List, [], ◌∷◌, ◌++◌, length, arith, append_assoc,
  length-append,
}
use lcy.Http.Message.{Message, Target, base, with_base, dump_headers, dump_rest}
use lcy.Http.Parser.{
  RetCode, Tag, ret, fresh, add_size, done, parse_line, line_case, parse_tag, parse,
}
use lcy.Http.Parser.Stages.{at_header, parse-at_tag}
use lcy.Http.Parser.Tail.{HasTail, taken, whole, tail_read}

module _ (line rest : List ℕ) (m : Message) (t u : Target) (ok : HasTail m)
    (blank : (base u).headers ≡ []) (bound : length (line ++ (13 ∷ 10 ∷ dump_rest m)) < 2 ^ 64)
    (first : (more : List ℕ)
      → parse_line (line ++ (13 ∷ 10 ∷ more)) t
        ≡ ret RetCode.ready (u, add_size (length line) 2)) where
  abbrev front : List ℕ
  front = line ++ (13 ∷ 10 ∷ [])

  size : length (line ++ (13 ∷ 10 ∷ dump_rest m)) ≡ length front + length (dump_rest m)
  size =
      omega (arith, length-append line (13 ∷ 10 ∷ dump_rest m), length-append line (13 ∷ 10 ∷ []))

  small : length front + length (dump_rest m) < 2 ^ 64
  small = omega (arith, bound, size)

  abbrev all : List ℕ
  all = whole front rest m u ok blank small

  text-all : (line ++ (13 ∷ 10 ∷ dump_rest m)) ++ rest ≡ all
  unfolding dump_rest
  text-all = simp append_assoc

  line-all : all ≡ line ++ (13 ∷ 10 ∷ (dump_headers m.headers ++ (13 ∷ 10 ∷ (m.body ++ rest))))
  line-all = simp append_assoc

  -- A first call on the message, and whatever follows it, takes just the message.
  pub message_read :
      parse fresh ((line ++ (13 ∷ 10 ∷ dump_rest m)) ++ rest) t
      ≡ done RetCode.ready
          (taken (length (line ++ (13 ∷ 10 ∷ dump_rest m))) m)
          (with_base u (record (base u) { headers = m.headers; body = m.body }))
  unfolding parse_tag line_case
  message_read =
      ap (λ x. parse fresh x t) text-all
      ∙ parse-at_tag Tag.line fresh all t refl
      ∙ ap (line_case (at_header all) fresh) (
          ap (λ x. parse_line x t) line-all
          ∙ first (dump_headers m.headers ++ (13 ∷ 10 ∷ (m.body ++ rest))))
      ∙ ap (λ n. at_header all (record fresh { tag = Tag.header; already_parse = n }) u)
          (omega (arith, length-append line (13 ∷ 10 ∷ []), small))
      ∙ tail_read front rest m u ok blank small
      ∙ ap
          (λ n.
            done RetCode.ready (taken n m)
              (with_base u (record (base u) { headers = m.headers; body = m.body })))
          (sym size)
