-- ===== src/Tlv/Message.antt =====
-- The message of protocol/src/tlv/message.cc and its wire format.
use lcy.Prelude.{
  ℕ, ◌+◌, ◌^◌, ◌≤◌, ◌<◌, ◌≡◌, List, [], ◌++◌, ltb, if◌then◌else◌, length as size, take,
}
use lcy.Prelude.{ge→ltb, length-append, length-take, arith}
use lcy.Bytes.{Host, image, to_net, net_bytes}
use lcy.Bytes.Laws.{image-to_net, length-net_bytes}

pub record Message : Type 0 where
  pub type : ℕ
  pub length : ℕ
  pub value : List ℕ

-- `Message::Message`
abbrev pub empty : Message
empty = record { type = 0; length = 0; value = [] }

abbrev pub set_type : Message → ℕ → Message
set_type m t = record m { type = t }

abbrev pub set_length : Message → ℕ → Message
set_length m n = record m { length = n }

abbrev pub set_value : Message → List ℕ → Message
set_value m v = record m { value = v }

-- A `uint16_t`, a `uint32_t`, and at least the bytes that the length announces.
pub record IsComplete (m : Message) : Type 0 where
  pub type_fits : m.type < 2 ^ 16
  pub length_fits : m.length < 2 ^ 32
  pub enough : m.length ≤ size m.value

-- `Message::dump`: the copies of the converted fields, then the first `length_` bytes of the value.
unfoldable pub dump : Host → Message → List ℕ
dump h m =
    if ltb (size m.value) m.length
    then []
    else image h 2 (to_net h 2 m.type) ++ (image h 4 (to_net h 4 m.length) ++ take m.length m.value)

-- The format that the two ends agree on.
unfoldable pub wire : Message → List ℕ
wire m = net_bytes 2 m.type ++ (net_bytes 4 m.length ++ take m.length m.value)

-- On every kind of machine a message with enough bytes is dumped in the same format: its type in
-- two bytes and its length in four, the highest byte first, and then `length_` bytes of the value.
pub dump-wire : (h : Host) (m : Message) → m.length ≤ size m.value → dump h m ≡ wire m
unfolding dump wire
dump-wire h m e =
    rw (ge→ltb (size m.value) m.length e, image-to_net h 2 m.type, image-to_net h 4 m.length)

pub length-wire : (m : Message) → m.length ≤ size m.value → size (wire m) ≡ 6 + m.length
unfolding wire
length-wire m e = omega (
  arith,
  length-append (net_bytes 2 m.type) (net_bytes 4 m.length ++ take m.length m.value),
  length-append (net_bytes 4 m.length) (take m.length m.value),
  length-net_bytes 2 m.type,
  length-net_bytes 4 m.length,
  length-take m.length m.value,
)
