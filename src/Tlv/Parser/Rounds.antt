-- ===== src/Tlv/Parser/Rounds.antt =====
-- One round of the loop in `Impl::parse` of protocol/src/tlv/parser.cc.
use lcy.Prelude.{
  ℕ, ◌-◌, ◌^◌, ◌≤◌, ◌<◌, ◌≡◌, refl, ap, ◌∙◌, ◌⊎◌, inl, inr, false, some, List, ◌++◌, ltb,
  length as size, take, drop, length-append, length-drop, drop-append_le, take-append_le, ge→ltb,
  ltb→ge, Bool-cases, arith,
}
use lcy.Bytes.{Host, load, to_net}
use lcy.Tlv.Message.{Message, set_type, set_length, set_value}
use lcy.Tlv.Parser.{
  RetCode, Tag, Parser, Outcome, done, add_size, view, parse_type, parse_length, parse_value,
  parse_part, parse_tag,
}

-- The tag that follows, and how many rounds the loop can still make.
abbrev pub next : Tag → Tag
next Tag.type = Tag.length
next Tag.length = Tag.value
next Tag.value = Tag.ready
next Tag.ready = Tag.ready

abbrev pub rounds : Tag → ℕ
rounds Tag.type = 4
rounds Tag.length = 3
rounds Tag.value = 2
rounds Tag.ready = 1

abbrev pub IsOpen : Tag → Type 0
IsOpen Tag.ready = ⊥
IsOpen _ = Unit {0}

-- What the caller keeps to: the buffer holds all that was used up, and its size is a `size_t`.
pub record Fits (p : Parser) (d : List ℕ) : Type 0 where
  pub used : p.already_parse ≤ size d
  pub is_size : size d < 2 ^ 64

module _ (h : Host) (t : Tag) (p : Parser) (d : List ℕ) (m : Message) where
  -- The round waits, and leaves the parser and the message as they are.
  abbrev pub Waits : Type 0
  Waits = (k : Parser → Message → Outcome) → parse_tag h k t p d m ≡ done RetCode.waiting_data p m

  -- The round takes bytes of the buffer and goes on, whatever is received later.
  pub record Goes : Type 0 where
    pub parser : Parser
    pub message : Message
    pub tag : parser.tag ≡ next t
    pub grows : p.already_parse ≤ parser.already_parse
    pub fits : parser.already_parse ≤ size d
    pub here : (k : Parser → Message → Outcome) → parse_tag h k t p d m ≡ k parser message
    pub later :
        (k : Parser → Message → Outcome) (more : List ℕ)
        → parse_tag h k t p (d ++ more) m ≡ k parser message

-- A part of the message, on the bytes `d` that are left: it is short of bytes, or it takes `n` of
-- them whatever follows.
record Takes (part : List ℕ → RetCode × Message × ℕ) (d : List ℕ) : Type 0 where
  taken : ℕ
  message : Message
  enough : taken ≤ size d
  here : part d ≡ (RetCode.ready, message, add_size 0 taken)
  later : (more : List ℕ) → part (d ++ more) ≡ (RetCode.ready, message, add_size 0 taken)

abbrev Parts : (List ℕ → RetCode × Message × ℕ) → List ℕ → Message → Type 0
Parts part d m = (part d ≡ (RetCode.waiting_data, m, 0)) ⊎ Takes part d

still_enough : (n : ℕ) (d more : List ℕ) → ltb (size d) n ≡ false → ltb (size (d ++ more)) n ≡ false
still_enough n d more e =
    ge→ltb (size (d ++ more)) n (omega (arith, length-append d more, ltb→ge (size d) n e))

parse_type-Parts : (h : Host) (d : List ℕ) (m : Message) → Parts (λ rest. parse_type h rest m 0) d m
unfolding parse_type
parse_type-Parts h d m = elim (Bool-cases (ltb (size d) 2)) [
  | inl short ↦ inl (rw short)
  | inr long ↦ inr (record {
    taken = 2;
    message = set_type m (to_net h 2 (load h (take 2 d)));
    enough = ltb→ge (size d) 2 long;
    here = rw long;
    later =
        λ more. rw (still_enough 2 d more long, take-append_le 2 d more (ltb→ge (size d) 2 long));
  })
]

parse_length-Parts :
    (h : Host) (d : List ℕ) (m : Message) → Parts (λ rest. parse_length h rest m 0) d m
unfolding parse_length
parse_length-Parts h d m = elim (Bool-cases (ltb (size d) 4)) [
  | inl short ↦ inl (rw short)
  | inr long ↦ inr (record {
    taken = 4;
    message = set_length m (to_net h 4 (load h (take 4 d)));
    enough = ltb→ge (size d) 4 long;
    here = rw long;
    later =
        λ more. rw (still_enough 4 d more long, take-append_le 4 d more (ltb→ge (size d) 4 long));
  })
]

parse_value-Parts : (d : List ℕ) (m : Message) → Parts (λ rest. parse_value rest m 0) d m
unfolding parse_value
parse_value-Parts d m = elim (Bool-cases (ltb (size d) m.length)) [
  | inl short ↦ inl (rw short)
  | inr long ↦
      let enough : m.length ≤ size d = ltb→ge (size d) m.length long in
      inr (record {
        taken = m.length;
        message = set_value m (take m.length d);
        enough = enough;
        here = rw long;
        later =
            λ more. rw (still_enough m.length d more long, take-append_le m.length d more enough);
      })
]

pub view-some : (n : ℕ) (d : List ℕ) → n ≤ size d → view n d ≡ some (drop n d)
view-some n d h = rw (ge→ltb (size d) n h)

view_more : (n : ℕ) (d more : List ℕ) → n ≤ size d → view n (d ++ more) ≡ some (drop n d ++ more)
view_more n d more h =
    view-some n (d ++ more) (omega (arith, length-append d more))
    ∙ ap some (drop-append_le n d more h)

module _ (p : Parser) (d : List ℕ) (t : Tag) (part : List ℕ → RetCode × Message × ℕ) where
  part_waits :
      (m : Message) (n : ℕ)
      → Fits p d
      → part (drop p.already_parse d) ≡ (RetCode.waiting_data, m, n)
      → (k : Parser → Message → Outcome) → parse_part k p d t part ≡ done RetCode.waiting_data p m
  unfolding parse_part
  part_waits m n f e k = rw (parse_part, view-some p.already_parse d f.used, e)

  pub part_goes :
      (m : Message) (n : ℕ)
      → (rest : List ℕ) → view p.already_parse d ≡ some rest
      → part rest ≡ (RetCode.ready, m, n)
      → (k : Parser → Message → Outcome)
      → parse_part k p d t part
        ≡ k (record { tag = t; already_parse = add_size p.already_parse n }) m
  unfolding parse_part
  part_goes m n rest v e k = rw (parse_part, v, e)

round_of_part :
    (h : Host) (t : Tag) (p : Parser) (d : List ℕ) (m : Message)
    → (part : List ℕ → RetCode × Message × ℕ)
    → ((k : Parser → Message → Outcome) (d : List ℕ)
        → parse_tag h k t p d m ≡ parse_part k p d (next t) part)
    → Fits p d
    → Parts part (drop p.already_parse d) m
    → Waits h t p d m ⊎ Goes h t p d m
round_of_part h t p d m part e f (inl short) =
    inl (λ k. e k d ∙ part_waits p d (next t) part m 0 f short k)
round_of_part h t p d m part e f (inr long) =
    let n : ℕ = long.taken in
    let small : n ≤ size d - p.already_parse =
      omega (arith, long.enough, length-drop p.already_parse d) in
    inr (record {
      parser = record { tag = next t; already_parse = add_size p.already_parse (add_size 0 n) };
      message = long.message;
      tag = refl;
      grows = omega (arith, f.used, f.is_size);
      fits = omega (arith, f.used, f.is_size);
      here = λ k.
          e k d
          ∙ part_goes p d (next t) part long.message (add_size 0 n) (drop p.already_parse d)
              (view-some p.already_parse d f.used) long.here k;
      later = λ k more.
          e k (d ++ more)
          ∙ part_goes p (d ++ more) (next t) part long.message (add_size 0 n)
              (drop p.already_parse d ++ more) (view_more p.already_parse d more f.used)
              (long.later more) k;
    })

-- A round waits and changes nothing, or takes bytes that are there and goes on to the next tag.
pub round :
    (h : Host) (t : Tag) (p : Parser) (d : List ℕ) (m : Message)
    → IsOpen t
    → Fits p d
    → Waits h t p d m ⊎ Goes h t p d m
unfolding parse_tag
round h Tag.type p d m o f =
    round_of_part h Tag.type p d m (λ rest. parse_type h rest m 0) (λ k d'. refl) f
      (parse_type-Parts h (drop p.already_parse d) m)
round h Tag.length p d m o f =
    round_of_part h Tag.length p d m (λ rest. parse_length h rest m 0) (λ k d'. refl) f
      (parse_length-Parts h (drop p.already_parse d) m)
round h Tag.value p d m o f =
    round_of_part h Tag.value p d m (λ rest. parse_value rest m 0) (λ k d'. refl) f
      (parse_value-Parts (drop p.already_parse d) m)
round h Tag.ready p d m o f = absurd o
