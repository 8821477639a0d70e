-- ===== src/Http/Parser/Pieces.antt =====
-- Calls of http/parser.cc, one after the other, on a buffer that grows.
use lcy.Prelude.{
  ℕ, ◌^◌, ◌<◌, ◌≡◌, refl, sym, ap, ◌∙◌, false, List, ◌++◌, length, arith, length-append,
}
use lcy.Http.Message.{Target}
use lcy.Http.Parser.{RetCode, Parser, ret, fault, out_of_fuel, fresh, Outcome, done, parse}
use lcy.Http.Parser.HeaderResume.{shown}
use lcy.Http.Parser.Resume.{Between, parse_resume_whole}

-- Calls for a message, each on all bytes so far, that all wait for more: the bytes, and the parser
-- and the message they leave. None of them has read that the message comes in chunks.
pub data WaitedCalls (t : Target) : List ℕ → Parser → Target → Type 0 where
  first_call :
      (d : List ℕ) (p : Parser) (u : Target)
      → p.chunked_transfer ≡ false
      → parse fresh d t ≡ done RetCode.waiting_data p u
      → WaitedCalls t d p u
  next_call :
      (d more : List ℕ) (p : Parser) (u : Target) (p' : Parser) (u' : Target)
      → WaitedCalls t d p u
      → p'.chunked_transfer ≡ false
      → parse p (d ++ more) u ≡ done RetCode.waiting_data p' u'
      → WaitedCalls t (d ++ more) p' u'

pub fresh-Between : (d : List ℕ) → Between fresh d
fresh-Between d = record { inside = omega arith; unstarted = λ e. refl; is_size = omega arith }

pub shown-waits :
    (x : Outcome) (p : Parser) (u : Target)
    → shown x ≡ done RetCode.waiting_data p u
    → x ≡ done RetCode.waiting_data p u
unfolding shown
shown-waits (ret RetCode.ready (q, v)) p u e = absurd cc
shown-waits (ret RetCode.waiting_data (q, v)) p u e = e
shown-waits (ret RetCode.error (q, v)) p u e = absurd cc
shown-waits fault p u e = absurd cc
shown-waits out_of_fuel p u e = absurd cc

pub shown-ready :
    (x : Outcome) (p : Parser) (u : Target)
    → shown x ≡ done RetCode.ready p u
    → x ≡ done RetCode.ready p u
unfolding shown
shown-ready (ret RetCode.ready (q, v)) p u e = e
shown-ready (ret RetCode.waiting_data (q, v)) p u e = absurd cc
shown-ready (ret RetCode.error (q, v)) p u e = absurd cc
shown-ready fault p u e = absurd cc
shown-ready out_of_fuel p u e = absurd cc

plain_calls :
    (t : Target) (d : List ℕ) (p : Parser) (u : Target)
    → WaitedCalls t d p u
    → p.chunked_transfer ≡ false
plain_calls t d p u (first_call d₀ p₀ u₀ c w) = c
plain_calls t d p u (next_call d₀ more p₀ u₀ p₁ u₁ calls c w) = c

-- One call on all bytes ends in the same state.
one_call :
    (t : Target) (d : List ℕ) (p : Parser) (u : Target)
    → WaitedCalls t d p u
    → length d < 2 ^ 64
    → parse fresh d t ≡ done RetCode.waiting_data p u
unfolding shown
one_call t d p u (first_call d₀ p₀ u₀ c w) h = w
one_call t d₁ p₁ u₁ (next_call d more p u p' u' calls c w) h =
    shown-waits (parse fresh (d ++ more) t) p' u' (
      sym (
        parse_resume_whole fresh d more t p u (fresh-Between d) h (plain_calls t d p u calls)
          (one_call t d p u calls (omega (arith, h, length-append d more))))
      ∙ ap shown w)

-- After any number of calls that all waited for more of a message that is not known to come in
-- chunks, each on all bytes received so far, the next call, with any bytes behind, gives what one
-- call of a new parser on all bytes gives, up to the state of a parser that found an error.
pub parse_pieces :
    (t : Target) (d more : List ℕ) (p : Parser) (u : Target)
    → WaitedCalls t d p u
    → length (d ++ more) < 2 ^ 64
    → shown (parse p (d ++ more) u) ≡ shown (parse fresh (d ++ more) t)
parse_pieces t d more p u calls h =
    parse_resume_whole fresh d more t p u (fresh-Between d) h (plain_calls t d p u calls)
      (one_call t d p u calls (omega (arith, h, length-append d more)))
