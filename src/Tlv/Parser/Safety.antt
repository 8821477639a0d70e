-- ===== src/Tlv/Parser/Safety.antt =====
-- What a call of `parse` in protocol/src/tlv/parser.cc may do.
use lcy.Prelude.{ℕ, zero, suc, ◌≤◌, ◌≡◌, refl, ◌∙◌, ◌⊎◌, inl, inr, List, length as size, arith}
use lcy.Bytes.{Host}
use lcy.Tlv.Message.{Message}
use lcy.Tlv.Parser.{RetCode, Tag, Parser, Outcome, done, parse_tag, parse_loop, parse}
use lcy.Tlv.Parser.Rounds.{next, rounds, IsOpen, Fits, round}

-- How a call ends on a buffer that fits: it waits with the parser short of the end, or it is ready
-- with the parser at the end; in both cases inside the buffer.
pub record Ends (p : Parser) (d : List ℕ) (r : Outcome) : Type 0 where
  pub code : RetCode
  pub parser : Parser
  pub message : Message
  pub outcome : r ≡ done code parser message
  pub grows : p.already_parse ≤ parser.already_parse
  pub inside : parser.already_parse ≤ size d
  pub verdict :
      ((code ≡ RetCode.waiting_data) × IsOpen parser.tag)
      ⊎ ((code ≡ RetCode.ready) × (parser.tag ≡ Tag.ready))

pub Tag-cases : (t : Tag) → (t ≡ Tag.ready) ⊎ IsOpen t
Tag-cases Tag.ready = inl refl
Tag-cases Tag.type = inr tt
Tag-cases Tag.length = inr tt
Tag-cases Tag.value = inr tt

rounds-next : (t : Tag) → IsOpen t → suc (rounds (next t)) ≡ rounds t
rounds-next Tag.type o = refl
rounds-next Tag.length o = refl
rounds-next Tag.value o = refl
rounds-next Tag.ready o = absurd o

pub rounds_pos : (t : Tag) → 1 ≤ rounds t
rounds_pos Tag.type = omega arith
rounds_pos Tag.length = omega arith
rounds_pos Tag.value = omega arith
rounds_pos Tag.ready = omega arith

pub ready_round :
    (h : Host) (k : Parser → Message → Outcome) (t : Tag) (p : Parser) (d : List ℕ) (m : Message)
    → t ≡ Tag.ready
    → parse_tag h k t p d m ≡ done RetCode.ready p m
unfolding parse_tag
ready_round h k t p d m e = rw e

pub rounds_left :
    (t u : Tag) (fuel : ℕ) → IsOpen t → u ≡ next t → rounds t ≤ suc fuel → rounds u ≤ fuel
rounds_left t u fuel o e h = rw e (omega (arith, rounds-next t o))

pub loop-Ends :
    (h : Host) (fuel : ℕ) (p : Parser) (d : List ℕ) (m : Message)
    → rounds p.tag ≤ fuel
    → Fits p d
    → Ends p d (parse_loop h fuel p d m)
unfolding parse_loop
loop-Ends h zero p d m e f = absurd (omega (arith, rounds_pos p.tag))
loop-Ends h (suc fuel) p d m e f = elim (Tag-cases p.tag) [
  | inl ready ↦ record {
    code = RetCode.ready;
    parser = p;
    message = m;
    outcome = ready_round h _ p.tag p d m ready;
    grows = omega arith;
    inside = f.used;
    verdict = inr (refl, ready);
  }
  | inr more ↦ elim (round h p.tag p d m more f) [
    | inl waits ↦ record {
      code = RetCode.waiting_data;
      parser = p;
      message = m;
      outcome = waits _;
      grows = omega arith;
      inside = f.used;
      verdict = inl (refl, more);
    }
    | inr goes ↦
        let ih : Ends goes.parser d (parse_loop h fuel goes.parser d goes.message) =
          loop-Ends h fuel goes.parser d goes.message
            (rounds_left p.tag goes.parser.tag fuel more goes.tag e)
            (record { used = goes.fits; is_size = f.is_size }) in
        record {
          code = ih.code;
          parser = ih.parser;
          message = ih.message;
          outcome = goes.here _ ∙ ih.outcome;
          grows = omega (arith, goes.grows, ih.grows);
          inside = ih.inside;
          verdict = ih.verdict;
        }
  ]
]

pub four_rounds : (t : Tag) → rounds t ≤ 4
four_rounds Tag.type = omega arith
four_rounds Tag.length = omega arith
four_rounds Tag.value = omega arith
four_rounds Tag.ready = omega arith

-- On a buffer that holds at least what earlier calls used up, a call ends and reads nothing
-- outside it; it never gives the code `ERROR`, gives back no byte, and is ready exactly when the
-- parser stands at its last tag.
pub parse-Ends :
    (h : Host) (p : Parser) (d : List ℕ) (m : Message) → Fits p d → Ends p d (parse h p d m)
unfolding parse
parse-Ends h p d m f = loop-Ends h 4 p d m (four_rounds p.tag) f
