-- ===== src/Tlv/Tests.antt =====
-- Runs of the definitions, and the theorems at concrete inputs.
use lcy.Prelude.{
  ℕ, suc, ◌≤◌, ◌<◌, ◌^◌, ◌≡◌, ◌≢◌, refl, ◌⊎◌, none, some, List, [], ◌∷◌, ◌++◌, length, drop, All,
  arith,
}
use lcy.Prelude.Int.{pos, negsuc}
use lcy.Bytes.{little, image, load, to_net, net_bytes}
use lcy.Tlv.Width.{u8, u16, u32, buflen}
use lcy.Tlv.Zigzag.{InRange, zigzag_encode, zigzag_decode}
use lcy.Tlv.Zigzag.RoundTrip.{zigzag, Overflows, zigzag_round_trip, zigzag_decode_lem}
use lcy.Tlv.Variant.{store, variant_encode_loop, variant_encode, variant_decode}
use lcy.Tlv.Variant.Encode.{groups, encoding, variant_encode-encoding}
use lcy.Tlv.Variant.RoundTrip.{variant_decode-encode}
use lcy.Tlv.Message.{Message, empty, IsComplete, dump, wire}
use lcy.Tlv.Parser.{
  RetCode, Tag, Parser, done, fresh, parse_type, parse_length, parse_part, parse_tag, parse_loop,
  parse,
}
use lcy.Tlv.Parser.Rounds.{Fits}
use lcy.Tlv.Parser.Safety.{Ends, parse-Ends}
use lcy.Tlv.Parser.Resume.{parse_resume}
use lcy.Tlv.Parser.RoundTrip.{received, finished, parse_split}

zigzag_of_least : zigzag_encode u8 (negsuc 127) ≡ some 255
unfolding zigzag_encode
zigzag_of_least = refl

-- A signed overflow at a value far from the ends of the range.
zigzag_overflow : zigzag_encode u32 (negsuc 1073741823) ≡ none
unfolding zigzag_encode
zigzag_overflow = refl

zigzag_round_trip_example :
    (Overflows u16 (negsuc 299) × (zigzag_encode u16 (negsuc 299) ≡ none))
    ⊎ ((zigzag_encode u16 (negsuc 299) ≡ some 599)
        × (599 < 2 ^ 16)
        × (zigzag_decode u16 599 ≡ negsuc 299))
zigzag_round_trip_example = zigzag_round_trip u16 (negsuc 299) (omega arith)

zigzag_decode_lem_example :
    ((suc 4294967295 ≢ 2 ^ 32)
      × (zigzag (zigzag_decode u32 4294967295) ≡ 4294967295)
      × InRange u32 (zigzag_decode u32 4294967295))
    ⊎ ((suc 4294967295 ≡ 2 ^ 32) × (zigzag_decode u32 4294967295 ≡ pos 0))
zigzag_decode_lem_example = zigzag_decode_lem u32 4294967295 (omega arith)

abbrev three : List ℕ
three = 7 ∷ 7 ∷ 7 ∷ []

encode_300 : variant_encode u16 300 three ≡ some (2, 0xac ∷ 0x02 ∷ 7 ∷ [])
unfolding variant_encode variant_encode_loop store
encode_300 = refl

encoding_300 : encoding u16 300 ≡ 0xac ∷ 0x02 ∷ []
unfolding groups
encoding_300 = refl

variant_encode-encoding_example :
    let out = encoding u16 300 in
    (variant_encode u16 300 three ≡ some (length out, out ++ drop (length out) three))
    × (1 ≤ length out)
    × (length out ≤ buflen u16)
    × All (λ b. b < 256) out
variant_encode-encoding_example = variant_encode-encoding u16 300 three (omega arith) (omega arith)

variant_decode-encode_example :
    (n : ℕ) × (buf : List ℕ) × (variant_encode u16 300 three ≡ some (n, buf))
    × (variant_decode u16 buf ≡ some 300)
variant_decode-encode_example = variant_decode-encode u16 300 three (omega arith) (omega arith)

-- Type 5 and the two bytes 8, 9 of a longer value.
abbrev sample : Message
sample = record { type = 5; length = 2; value = 8 ∷ 9 ∷ 10 ∷ [] }

sample-IsComplete : IsComplete sample
sample-IsComplete = record {
  type_fits = omega arith;
  length_fits = omega arith;
  enough = omega arith;
}

abbrev sample_bytes : List ℕ
sample_bytes = 0 ∷ 5 ∷ 0 ∷ 0 ∷ 0 ∷ 2 ∷ 8 ∷ 9 ∷ []

wire-sample : wire sample ≡ sample_bytes
unfolding wire net_bytes
wire-sample = refl

dump_on_little : dump little sample ≡ sample_bytes
unfolding dump image to_net
dump_on_little = refl

abbrev half : List ℕ
half = 0 ∷ 5 ∷ 0 ∷ []

half_parsed :
    parse little fresh half empty
    ≡ done RetCode.waiting_data
        (record { tag = Tag.length; already_parse = 2 })
        (record empty { type = 5 })
unfolding parse parse_loop parse_tag parse_part parse_type parse_length load to_net
half_parsed = refl

half-Fits : Fits fresh half
half-Fits = record { used = omega arith; is_size = omega arith }

parse-Ends_example : Ends fresh half (parse little fresh half empty)
parse-Ends_example = parse-Ends little fresh half empty half-Fits

parse_resume_example :
    parse little
      (record { tag = Tag.length; already_parse = 2 })
      sample_bytes
      (record empty { type = 5 })
    ≡ parse little fresh sample_bytes empty
parse_resume_example =
    parse_resume little fresh half (0 ∷ 0 ∷ 2 ∷ 8 ∷ 9 ∷ []) empty RetCode.waiting_data
      (record { tag = Tag.length; already_parse = 2 }) (record empty { type = 5 }) half-Fits
      (omega arith) half_parsed

parse_split_example :
    (p : Parser) × (m : Message) × (parse little fresh half empty ≡ done RetCode.waiting_data p m)
    × (parse little p (wire sample) m ≡ done RetCode.ready (finished sample) (received sample))
parse_split_example =
    parse_split little sample empty 0 half (0 ∷ 2 ∷ 8 ∷ 9 ∷ []) sample-IsComplete wire-sample
