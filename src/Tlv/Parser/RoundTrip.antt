-- ===== src/Tlv/Parser/RoundTrip.antt =====
-- What tlv/message.cc dumps, tlv/parser.cc reads back, in one piece or in two.
use lcy.Prelude.{
  ℕ, suc, ◌+◌, ◌≤◌, ◌<◌, ◌^◌, ◌≡◌, refl, sym, ap, ◌∙◌, inl, inr, List, [], ◌++◌, arith,
  append_assoc, length-append, length as size, take, ge→ltb, take-append_eq, drop-append_eq,
  length-take, append-nil, some, ◌∷◌, subst,
}
use lcy.Bytes.{Host, net_bytes}
use lcy.Bytes.Laws.{length-net_bytes, to_net-load}
use lcy.Tlv.Message.{Message, IsComplete, dump, wire, dump-wire, length-wire}
use lcy.Tlv.Parser.Rounds.{Fits, part_goes, view-some}
use lcy.Tlv.Parser.Safety.{Ends, parse-Ends, ready_round}
use lcy.Tlv.Parser.Resume.{parse_resume}
use lcy.Tlv.Parser.{
  RetCode, Tag, Parser, Outcome, done, fresh, add_size, view, parse_type, parse_length, parse_value,
  parse_tag, parse_loop, parse,
}

-- The message that the receiver ends up with.
abbrev pub received : Message → Message
received m = record m { value = take m.length m.value }

-- The parser that has used up a whole message.
abbrev pub finished : Message → Parser
finished m = record { tag = Tag.ready; already_parse = 6 + m.length }

value_bytes : Message → List ℕ → List ℕ
value_bytes m rest = take m.length m.value ++ rest

length_bytes : Message → List ℕ → List ℕ
length_bytes m rest = net_bytes 4 m.length ++ value_bytes m rest

type_bytes : Message → List ℕ → List ℕ
type_bytes m rest = net_bytes 2 m.type ++ length_bytes m rest

wire-type_bytes : (m : Message) (rest : List ℕ) → wire m ++ rest ≡ type_bytes m rest
unfolding wire type_bytes length_bytes value_bytes
wire-type_bytes m rest =
    append_assoc (net_bytes 2 m.type) (net_bytes 4 m.length ++ take m.length m.value) rest
    ∙ ap (◌++◌ (net_bytes 2 m.type))
        (append_assoc (net_bytes 4 m.length) (take m.length m.value) rest)

type_part :
    (h : Host) (m m₀ : Message) (rest : List ℕ)
    → m.type < 2 ^ 16
    → parse_type h (type_bytes m rest) m₀ 0 ≡ (RetCode.ready, record m₀ { type = m.type }, 2)
unfolding parse_type type_bytes
type_part h m m₀ rest b =
    let enough : 2 ≤ size (net_bytes 2 m.type ++ length_bytes m rest) = omega (
      arith,
      length-append (net_bytes 2 m.type) (length_bytes m rest),
      length-net_bytes 2 m.type,
    ) in
    rw (
      ge→ltb (size (net_bytes 2 m.type ++ length_bytes m rest)) 2 enough,
      take-append_eq 2 (net_bytes 2 m.type) (length_bytes m rest) (length-net_bytes 2 m.type),
      to_net-load h 2 m.type b,
    )

length_part :
    (h : Host) (m m₀ : Message) (rest : List ℕ)
    → m.length < 2 ^ 32
    → parse_length h (length_bytes m rest) m₀ 0
      ≡ (RetCode.ready, record m₀ { length = m.length }, 4)
unfolding parse_length length_bytes
length_part h m m₀ rest b =
    let enough : 4 ≤ size (net_bytes 4 m.length ++ value_bytes m rest) = omega (
      arith,
      length-append (net_bytes 4 m.length) (value_bytes m rest),
      length-net_bytes 4 m.length,
    ) in
    rw (
      ge→ltb (size (net_bytes 4 m.length ++ value_bytes m rest)) 4 enough,
      take-append_eq 4 (net_bytes 4 m.length) (value_bytes m rest) (length-net_bytes 4 m.length),
      to_net-load h 4 m.length b,
    )

value_part :
    (m m₀ : Message) (rest : List ℕ)
    → m.length ≤ size m.value
    → m₀.length ≡ m.length
    → parse_value (value_bytes m rest) m₀ 0
      ≡ (RetCode.ready, record m₀ { value = take m.length m.value }, add_size 0 m.length)
unfolding parse_value value_bytes
value_part m m₀ rest b e =
    let exact : size (take m.length m.value) ≡ m.length =
      omega (arith, length-take m.length m.value) in
    let enough : m.length ≤ size (take m.length m.value ++ rest) =
      omega (arith, length-append (take m.length m.value) rest, exact) in
    rw (
      e,
      ge→ltb (size (take m.length m.value ++ rest)) m.length enough,
      take-append_eq m.length (take m.length m.value) rest exact,
    )

view_at : (n : ℕ) (xs ys : List ℕ) → size xs ≡ n → view n (xs ++ ys) ≡ some ys
view_at n xs ys e =
    view-some n (xs ++ ys) (omega (arith, length-append xs ys)) ∙ ap some (drop-append_eq n xs ys e)

view_length :
    (m : Message) (rest : List ℕ) → view 2 (type_bytes m rest) ≡ some (length_bytes m rest)
unfolding type_bytes
view_length m rest =
    view_at 2 (net_bytes 2 m.type) (length_bytes m rest) (length-net_bytes 2 m.type)

view_value : (m : Message) (rest : List ℕ) → view 6 (type_bytes m rest) ≡ some (value_bytes m rest)
unfolding type_bytes length_bytes
view_value m rest =
    rw (← append_assoc (net_bytes 2 m.type) (net_bytes 4 m.length) (value_bytes m rest)) (
      view_at 6 (net_bytes 2 m.type ++ net_bytes 4 m.length) (value_bytes m rest) (
        omega (
          arith,
          length-append (net_bytes 2 m.type) (net_bytes 4 m.length),
          length-net_bytes 2 m.type,
          length-net_bytes 4 m.length,
        )))

-- On a whole message in the wire format, and whatever follows it, a first call of the parser is
-- ready: it has used up exactly that message, and the type, the length and the value are there.
pub parse-wire :
    (h : Host) (m m₀ : Message) (rest : List ℕ)
    → IsComplete m
    → parse h fresh (wire m ++ rest) m₀ ≡ done RetCode.ready (finished m) (received m)
unfolding parse parse_loop parse_tag
parse-wire h m m₀ rest ok = rw (wire-type_bytes m rest) (
    part_goes fresh D Tag.length (λ r. parse_type h r m₀ 0) _ 2 D (view-some 0 D (omega arith))
      (type_part h m m₀ rest ok.type_fits) _
    ∙ part_goes (record { tag = Tag.length; already_parse = 2 }) D Tag.value
        (λ r. parse_length h r m₁ 0) m₂ 4 (length_bytes m rest) (view_length m rest)
        (length_part h m m₁ rest ok.length_fits) _
    ∙ part_goes (record { tag = Tag.value; already_parse = 6 }) D Tag.ready
        (λ r. parse_value r m₂ 0) (received m) (add_size 0 m.length) (value_bytes m rest)
        (view_value m rest) (value_part m m₂ rest ok.enough refl) _
    ∙ ap
        (λ (n : ℕ). done RetCode.ready (record { tag = Tag.ready; already_parse = n }) (received m))
        (omega (arith, ok.length_fits)))
  where
    D : List ℕ
    D = type_bytes m rest

    m₁ : Message
    m₁ = record m₀ { type = m.type }

    m₂ : Message
    m₂ = record m₁ { length = m.length }

-- On what `dump` yields on any kind of machine, and whatever follows it, a first call of the
-- parser is ready, has used up exactly that message, and holds its type, length and value.
pub parse-dump :
    (h h' : Host) (m m₀ : Message) (rest : List ℕ)
    → IsComplete m
    → parse h fresh (dump h' m ++ rest) m₀ ≡ done RetCode.ready (finished m) (received m)
parse-dump h h' m m₀ rest ok = rw (dump-wire h' m ok.enough) (parse-wire h m m₀ rest ok)

abbrev used_up : Outcome → ℕ
used_up (done c p m) = p.already_parse
used_up _ = 0

finished_round :
    (h : Host) (p : Parser) (d : List ℕ) (m : Message)
    → p.tag ≡ Tag.ready
    → parse h p d m ≡ done RetCode.ready p m
unfolding parse parse_loop
finished_round h p d m e = ready_round h _ p.tag p d m e

-- If a message arrives in two pieces, the first of them short of the whole, then the first call
-- waits, and the second call, on all that has arrived, is ready with the same result as a call on
-- the message in one piece.
pub parse_split :
    (h : Host) (m m₀ : Message) (x : ℕ) (front back : List ℕ)
    → IsComplete m
    → wire m ≡ front ++ (x ∷ back)
    → (p' : Parser) × (m' : Message) × (parse h fresh front m₀ ≡ done RetCode.waiting_data p' m')
      × (parse h p' (wire m) m' ≡ done RetCode.ready (finished m) (received m))
parse_split h m m₀ x front back ok e = (
  first.parser,
  first.message,
  elim first.verdict [
    | inl (w, _) ↦ rw w at first.outcome
    | inr (_, r) ↦
        let early : done RetCode.ready first.parser first.message
            ≡ done RetCode.ready (finished m) (received m) =
          sym (finished_round h first.parser (wire m) first.message r) ∙ second in
        absurd (too_far (ap used_up early))
  ],
  second,
)
  where
    total : size front + suc (size back) ≡ 6 + m.length
    total = omega (arith, length-append front (x ∷ back), ap size e, length-wire m ok.enough)

    fits : Fits fresh front
    fits = record { used = omega arith; is_size = omega (arith, ok.length_fits, total) }

    first : Ends fresh front (parse h fresh front m₀)
    first = parse-Ends h fresh front m₀ fits

    whole : parse h fresh (front ++ (x ∷ back)) m₀ ≡ done RetCode.ready (finished m) (received m)
    whole =
        subst (λ d. parse h fresh d m₀ ≡ done RetCode.ready (finished m) (received m))
          (append-nil (wire m) ∙ e) (parse-wire h m m₀ [] ok)

    second :
        parse h first.parser (wire m) first.message ≡ done RetCode.ready (finished m) (received m)
    second = rw e (
        parse_resume h fresh front (x ∷ back) m₀ first.code first.parser first.message fits
          (omega (arith, length-append front (x ∷ back), total, ok.length_fits)) first.outcome
        ∙ whole)

    too_far : first.parser.already_parse ≡ 6 + m.length → ⊥
    too_far q = omega (arith, first.inside, total, q)
