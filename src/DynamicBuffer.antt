-- ===== src/DynamicBuffer.antt =====
-- The byte buffer of asio/src/dynamic_buffer.cc: a vector with a read index and a write index.
-- A value is the bit pattern of an integer of `n` bytes, signed or not. `none` is a fault: an
-- exception of `at`, a division by zero, or an access outside the vector.
pub mod Inv
pub mod Reserve
pub mod Refine
pub mod Run
pub mod Room
mod Tests
use lcy.Prelude.{
  ℕ, ◌+◌, ◌-◌, ◌*◌, ◌/◌, ◌%◌, ◌^◌, Option, none, some, List, [], ◌∷◌, ◌++◌, ltb, leb, ◌==◌,
  if◌then◌else◌, ◌>>=◌, length, take, drop, replicate,
}
use lcy.Bytes.{Host, image, load}

pub record DynamicBuffer : Type 0 where
  pub read_index : ℕ
  pub write_index : ℕ
  pub expand_size : ℕ
  pub char_vector : List ℕ

-- `DynamicBuffer::DynamicBuffer`
abbrev pub fresh : ℕ → DynamicBuffer
fresh e = record { read_index = 0; write_index = 0; expand_size = e; char_vector = 0 ∷ [] }

-- `size_t` arithmetic
abbrev pub add_size : ℕ → ℕ → ℕ
add_size a b = (a + b) % 2 ^ 64

abbrev pub sub_size : ℕ → ℕ → ℕ
sub_size a b = (2 ^ 64 + a - b) % 2 ^ 64

-- The index to which `writeBegin` and `readBegin` point; `at` throws outside the vector.
abbrev pub at : List ℕ → ℕ → Option ℕ
at v i = if ltb i (length v) then some i else none

abbrev pub write_begin : DynamicBuffer → Option ℕ
write_begin b = at b.char_vector b.write_index

abbrev pub read_begin : DynamicBuffer → Option ℕ
read_begin b = at b.char_vector b.read_index

pub read : DynamicBuffer → ℕ → DynamicBuffer
read b n =
    let r = add_size b.read_index n in
    if r == b.write_index
    then record b { read_index = 0; write_index = 0 }
    else record b { read_index = r }

abbrev pub write : DynamicBuffer → ℕ → DynamicBuffer
write b n = record b { write_index = add_size b.write_index n }

abbrev pub data_bytes : DynamicBuffer → ℕ
data_bytes b = sub_size b.write_index b.read_index

abbrev pub available_bytes : DynamicBuffer → ℕ
available_bytes b = sub_size (length b.char_vector) b.write_index

abbrev pub useless_bytes : DynamicBuffer → ℕ
useless_bytes b = b.read_index

-- The `n` bytes from index `i` on.
abbrev pub slice : List ℕ → ℕ → ℕ → Option (List ℕ)
slice v i n = if leb (i + n) (length v) then some (take n (drop i v)) else none

-- `memcpy` and `memmove` of `bs` to index `i`
abbrev pub put : List ℕ → ℕ → List ℕ → Option (List ℕ)
put v i bs =
    if leb (i + length bs) (length v)
    then some (take i v ++ (bs ++ drop (i + length bs) v))
    else none

-- `vector::resize`
abbrev pub resize : List ℕ → ℕ → List ℕ
resize v n = take n v ++ replicate (n - length v) 0

-- `new_size` of `reserve`; `none` is the division by zero.
pub new_size : DynamicBuffer → ℕ → Option ℕ
new_size b n =
    if leb (add_size (available_bytes b) (useless_bytes b)) n
    then if b.expand_size == 0
      then none
      else some (((n / b.expand_size + 1) * b.expand_size + length b.char_vector) % 2 ^ 64)
    else some (length b.char_vector)

-- `reserve` where there is not room enough behind the data.
pub rearrange : DynamicBuffer → ℕ → Option DynamicBuffer
rearrange b n = do
  size ← new_size b n
  let v = resize b.char_vector size
  i ← at v b.read_index
  bytes ← slice v i (data_bytes b)
  v' ← put v 0 bytes
  some (record b { char_vector = v'; write_index = data_bytes b; read_index = 0 })

pub reserve : DynamicBuffer → ℕ → Option DynamicBuffer
reserve b n = if ltb n (available_bytes b) then some b else rearrange b n

pub read_all_to_string : DynamicBuffer → Option (List ℕ × DynamicBuffer)
read_all_to_string b = do
  i ← read_begin b
  bytes ← slice b.char_vector i (data_bytes b)
  some (bytes, read b (data_bytes b))

-- `WRITE` at a type of `n` bytes
pub write_value : Host → ℕ → DynamicBuffer → ℕ → Option DynamicBuffer
write_value h n b value = do
  b' ← reserve b n
  i ← write_begin b'
  v ← put b'.char_vector i (image h n value)
  some (write (record b' { char_vector = v }) n)

-- `READ` at a type of `n` bytes: the value, if the call returns true, and the buffer.
pub read_value : Host → ℕ → DynamicBuffer → Option (Option ℕ × DynamicBuffer)
read_value h n b = if ltb (data_bytes b) n then some (none, b) else (do
  i ← read_begin b
  bytes ← slice b.char_vector i n
  some (some (load h bytes), read b n))

-- `PEEK` at a type of `n` bytes
pub peek_value : Host → ℕ → DynamicBuffer → ℕ → Option (Option ℕ)
peek_value h n b offset = if ltb (data_bytes b) (add_size n offset) then some none else (do
  i ← read_begin b
  bytes ← slice b.char_vector (i + offset) n
  some (some (load h bytes)))

-- The functions that the macros define.
abbrev pub write_int8 : Host → DynamicBuffer → ℕ → Option DynamicBuffer
write_int8 h = write_value h 1

abbrev pub read_int8 : Host → DynamicBuffer → Option (Option ℕ × DynamicBuffer)
read_int8 h = read_value h 1

abbrev pub peek_int8 : Host → DynamicBuffer → ℕ → Option (Option ℕ)
peek_int8 h = peek_value h 1

abbrev pub write_uint8 : Host → DynamicBuffer → ℕ → Option DynamicBuffer
write_uint8 h = write_value h 1

abbrev pub read_uint8 : Host → DynamicBuffer → Option (Option ℕ × DynamicBuffer)
read_uint8 h = read_value h 1

abbrev pub peek_uint8 : Host → DynamicBuffer → ℕ → Option (Option ℕ)
peek_uint8 h = peek_value h 1

abbrev pub write_int16 : Host → DynamicBuffer → ℕ → Option DynamicBuffer
write_int16 h = write_value h 2

abbrev pub read_int16 : Host → DynamicBuffer → Option (Option ℕ × DynamicBuffer)
read_int16 h = read_value h 2

abbrev pub peek_int16 : Host → DynamicBuffer → ℕ → Option (Option ℕ)
peek_int16 h = peek_value h 2

abbrev pub write_uint16 : Host → DynamicBuffer → ℕ → Option DynamicBuffer
write_uint16 h = write_value h 2

abbrev pub read_uint16 : Host → DynamicBuffer → Option (Option ℕ × DynamicBuffer)
read_uint16 h = read_value h 2

abbrev pub peek_uint16 : Host → DynamicBuffer → ℕ → Option (Option ℕ)
peek_uint16 h = peek_value h 2

abbrev pub write_int32 : Host → DynamicBuffer → ℕ → Option DynamicBuffer
write_int32 h = write_value h 4

abbrev pub read_int32 : Host → DynamicBuffer → Option (Option ℕ × DynamicBuffer)
read_int32 h = read_value h 4

abbrev pub peek_int32 : Host → DynamicBuffer → ℕ → Option (Option ℕ)
peek_int32 h = peek_value h 4

abbrev pub write_uint32 : Host → DynamicBuffer → ℕ → Option DynamicBuffer
write_uint32 h = write_value h 4

abbrev pub read_uint32 : Host → DynamicBuffer → Option (Option ℕ × DynamicBuffer)
read_uint32 h = read_value h 4

abbrev pub peek_uint32 : Host → DynamicBuffer → ℕ → Option (Option ℕ)
peek_uint32 h = peek_value h 4

abbrev pub write_int64 : Host → DynamicBuffer → ℕ → Option DynamicBuffer
write_int64 h = write_value h 8

abbrev pub read_int64 : Host → DynamicBuffer → Option (Option ℕ × DynamicBuffer)
read_int64 h = read_value h 8

abbrev pub peek_int64 : Host → DynamicBuffer → ℕ → Option (Option ℕ)
peek_int64 h = peek_value h 8

abbrev pub write_uint64 : Host → DynamicBuffer → ℕ → Option DynamicBuffer
write_uint64 h = write_value h 8

abbrev pub read_uint64 : Host → DynamicBuffer → Option (Option ℕ × DynamicBuffer)
read_uint64 h = read_value h 8

abbrev pub peek_uint64 : Host → DynamicBuffer → ℕ → Option (Option ℕ)
peek_uint64 h = peek_value h 8
