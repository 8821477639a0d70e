-- ===== src/Tlv/Parser.antt =====
-- The incremental parser of protocol/src/tlv/parser.cc. Each call is given all bytes received so
-- far, and `already_parse_` says how many of them earlier calls have used up.
pub mod Rounds
pub mod Safety
pub mod Resume
pub mod RoundTrip
use lcy.Prelude.{
  ℕ, zero, suc, ◌+◌, ◌%◌, ◌^◌, Option, none, some, List, ltb, if◌then◌else◌, length as size, take,
  drop,
}
use lcy.Bytes.{Host, load, to_net}
use lcy.Tlv.Message.{Message, set_type, set_length, set_value}

pub data RetCode : Type 0 where
  ready waiting_data error : RetCode

pub data Tag : Type 0 where
  type length value ready : Tag

-- `Parser::Impl`
pub record Parser : Type 0 where
  pub tag : Tag
  pub already_parse : ℕ

-- `Impl::Impl`, and what `reset` restores
abbrev pub fresh : Parser
fresh = record { tag = Tag.type; already_parse = 0 }

abbrev pub reset : Parser → Parser
reset p = fresh

abbrev pub nparse : Parser → ℕ
nparse p = p.already_parse

-- `size_t` addition
abbrev pub add_size : ℕ → ℕ → ℕ
add_size a b = (a + b) % 2 ^ 64

-- A call ends with a code, the parser and the message. It reads outside the buffer where the
-- caller passes fewer bytes than an earlier call has used up (`len - already_parse_` wraps).
pub data Outcome : Type 0 where
  done : RetCode → Parser → Message → Outcome
  out_of_bounds out_of_fuel : Outcome

-- `data_ptr + already_parse_` with the length `len - already_parse_`
abbrev pub view : ℕ → List ℕ → Option (List ℕ)
view n d = if ltb (size d) n then none else some (drop n d)

-- `parseType`, `parseLength` and `parseValue`: the code, the message and the new `nparse`
unfoldable pub parse_type : Host → List ℕ → Message → ℕ → RetCode × Message × ℕ
parse_type h d m n =
    if ltb (size d) 2
    then (RetCode.waiting_data, m, n)
    else (RetCode.ready, set_type m (to_net h 2 (load h (take 2 d))), add_size n 2)

unfoldable pub parse_length : Host → List ℕ → Message → ℕ → RetCode × Message × ℕ
parse_length h d m n =
    if ltb (size d) 4
    then (RetCode.waiting_data, m, n)
    else (RetCode.ready, set_length m (to_net h 4 (load h (take 4 d))), add_size n 4)

unfoldable pub parse_value : List ℕ → Message → ℕ → RetCode × Message × ℕ
parse_value d m n =
    if ltb (size d) m.length
    then (RetCode.waiting_data, m, n)
    else (RetCode.ready, set_value m (take m.length d), add_size n m.length)

-- What a case of the switch does with the answer: on `READY` it moves the parser on and goes round
-- the loop again by `k`, else it returns the code.
abbrev pub advance : (Parser → Message → Outcome) → Parser → Tag → RetCode × Message × ℕ → Outcome
advance k p next (RetCode.ready, m, n) =
    k (record { tag = next; already_parse = add_size p.already_parse n }) m
advance k p next (RetCode.waiting_data, m, n) = done RetCode.waiting_data p m
advance k p next (RetCode.error, m, n) = done RetCode.error p m

-- A case of the switch: the part of the message is parsed from the bytes not yet used.
unfoldable pub parse_part :
    (Parser → Message → Outcome)
    → Parser
    → List ℕ
    → Tag
    → (List ℕ → RetCode × Message × ℕ)
    → Outcome
parse_part k p d next part = elim (view p.already_parse d) [
  | none ↦ out_of_bounds
  | some rest ↦ advance k p next (part rest)
]

-- The switch of `Impl::parse`; at `READY` the loop has ended.
unfoldable pub parse_tag :
    Host → (Parser → Message → Outcome) → Tag → Parser → List ℕ → Message → Outcome
parse_tag h k Tag.type p d m = parse_part k p d Tag.length (λ rest. parse_type h rest m 0)
parse_tag h k Tag.length p d m = parse_part k p d Tag.value (λ rest. parse_length h rest m 0)
parse_tag h k Tag.value p d m = parse_part k p d Tag.ready (λ rest. parse_value rest m 0)
parse_tag h k Tag.ready p d m = done RetCode.ready p m

unfoldable pub parse_loop : Host → ℕ → Parser → List ℕ → Message → Outcome
parse_loop h zero p d m = out_of_fuel
parse_loop h (suc fuel) p d m = parse_tag h (λ p' m'. parse_loop h fuel p' d m') p.tag p d m

-- Each round but the last moves the tag on, so four rounds are enough.
unfoldable pub parse : Host → Parser → List ℕ → Message → Outcome
parse h p d m = parse_loop h 4 p d m
