-- ===== src/Tlv/Parser/Resume.antt =====
-- A message may arrive in pieces: parsing goes on where it stopped.
use lcy.Prelude.{
  ℕ, zero, suc, ◌≤◌, ◌≡◌, sym, ◌∙◌, inl, inr, List, ◌++◌, arith, length-append, length as size, ◌<◌,
  ◌^◌,
}
use lcy.Bytes.{Host}
use lcy.Tlv.Message.{Message}
use lcy.Tlv.Parser.{RetCode, Parser, done, parse_loop, parse}
use lcy.Tlv.Parser.Rounds.{rounds, Fits, round}
use lcy.Tlv.Parser.Safety.{Tag-cases, rounds_pos, rounds_left, ready_round, four_rounds}

-- More fuel than the rounds that are left changes nothing.
loop_fuel :
    (h : Host) (f g : ℕ) (p : Parser) (d : List ℕ) (m : Message)
    → rounds p.tag ≤ f
    → rounds p.tag ≤ g
    → Fits p d
    → parse_loop h f p d m ≡ parse_loop h g p d m
unfolding parse_loop
loop_fuel h zero g p d m ef eg fit = absurd (omega (arith, rounds_pos p.tag))
loop_fuel h (suc f) zero p d m ef eg fit = absurd (omega (arith, rounds_pos p.tag))
loop_fuel h (suc f) (suc g) p d m ef eg fit = elim (Tag-cases p.tag) [
  | inl ready ↦ ready_round h _ p.tag p d m ready ∙ sym (ready_round h _ p.tag p d m ready)
  | inr open' ↦ elim (round h p.tag p d m open' fit) [
    | inl waits ↦ waits _ ∙ sym (waits _)
    | inr goes ↦
        goes.here _
        ∙ loop_fuel h f g goes.parser d goes.message
            (rounds_left p.tag goes.parser.tag f open' goes.tag ef)
            (rounds_left p.tag goes.parser.tag g open' goes.tag eg)
            (record { used = goes.fits; is_size = fit.is_size })
        ∙ sym (goes.here _)
  ]
]

-- A call on the longer buffer passes through the state in which the call on the shorter one ended.
loop_resume :
    (h : Host) (f : ℕ) (p : Parser) (d more : List ℕ) (m : Message) (c : RetCode)
    → (p' : Parser) (m' : Message) → rounds p.tag ≤ f
    → Fits p d
    → size (d ++ more) < 2 ^ 64
    → parse_loop h f p d m ≡ done c p' m'
    → parse_loop h f p (d ++ more) m ≡ parse_loop h 4 p' (d ++ more) m'
unfolding parse_loop
loop_resume h zero p d more m c p' m' ef fit s e = absurd (omega (arith, rounds_pos p.tag))
loop_resume h (suc f) p d more m c p' m' ef fit s e = elim (Tag-cases p.tag) [
  | inl ready ↦ same (ready_round h _ p.tag p d m ready)
  | inr open' ↦ elim (round h p.tag p d m open' fit) [
    | inl waits ↦ same (waits _)
    | inr goes ↦
        goes.later _ more
        ∙ loop_resume h f goes.parser d more goes.message c p' m'
            (rounds_left p.tag goes.parser.tag f open' goes.tag ef)
            (record { used = goes.fits; is_size = fit.is_size }) s (sym (goes.here _) ∙ e)
  ]
]
  where
    wider : Fits p (d ++ more)
    wider = record { used = omega (arith, fit.used, length-append d more); is_size = s }

    same :
        {c' : RetCode}
        → parse_loop h (suc f) p d m ≡ done c' p m
        → parse_loop h (suc f) p (d ++ more) m ≡ parse_loop h 4 p' (d ++ more) m'
    same q = cc (q, e, loop_fuel h (suc f) 4 p (d ++ more) m ef (four_rounds p.tag) wider)

-- If a call on a buffer ends, whatever its code, then to call again with the parser and message it
-- left, on the buffer with more bytes behind, is the same as a first call on the longer buffer.
pub parse_resume :
    (h : Host) (p : Parser) (d more : List ℕ) (m : Message)
    → (c : RetCode) (p' : Parser) (m' : Message) → Fits p d
    → size (d ++ more) < 2 ^ 64
    → parse h p d m ≡ done c p' m'
    → parse h p' (d ++ more) m' ≡ parse h p (d ++ more) m
unfolding parse
parse_resume h p d more m c p' m' fit s e =
    sym (loop_resume h 4 p d more m c p' m' (four_rounds p.tag) fit s e)
