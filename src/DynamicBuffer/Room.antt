-- ===== src/DynamicBuffer/Room.antt =====
-- A buffer of dynamic_buffer.cc that a socket fills, time after time, behind a call of `reserve`.
use lcy.Prelude.{
  ℕ, suc, ◌+◌, ◌*◌, ◌^◌, ◌≤◌, ◌<◌, ◌≡◌, refl, ap, ◌∙◌, some, List, ◌++◌, arith, length, lt→ltb,
  le→leb, take_all,
}
use lcy.DynamicBuffer.{DynamicBuffer, reserve, write_begin, slice, put, data_bytes, available_bytes}
use lcy.DynamicBuffer.Inv.{IsValid, content, available_bytes_lem, length-content, read_front}
use lcy.DynamicBuffer.Reserve.{Reserved, reserve-Reserved}
use lcy.DynamicBuffer.Refine.{written, written-IsValid, content-written, length-written}

-- Room for more than `size` bytes, and address space for `n` more calls of `reserve`.
pub record HasRoom (size n : ℕ) (b : DynamicBuffer) : Type 0 where
  pub valid : IsValid b
  pub room : size < available_bytes b
  pub space : length b.char_vector + n * (size + b.expand_size) < 2 ^ 64

-- What `reserve` leaves: the same bytes, and room again.
pub record Restocked (size n : ℕ) (b : DynamicBuffer) : Type 0 where
  pub buffer : DynamicBuffer
  pub result : reserve b size ≡ some buffer
  pub begins : write_begin buffer ≡ some buffer.write_index
  pub ready : HasRoom size n buffer
  pub same : content buffer ≡ content b

mul-suc : (n a : ℕ) → suc n * a ≡ a + n * a
mul-suc n a = grind arith

space_left :
    (size n l l' e e' : ℕ)
    → e' ≡ e
    → l' ≤ l + size + e
    → l + suc n * (size + e) < 2 ^ 64
    → l' + n * (size + e') < 2 ^ 64
space_left size n l l' e e' p h s =
    omega (arith, h, s, mul-suc n (size + e), ap (λ (k : ℕ). n * (size + k)) p)

pub restock :
    (size n : ℕ) (b : DynamicBuffer)
    → IsValid b
    → length b.char_vector + suc n * (size + b.expand_size) < 2 ^ 64
    → Restocked size n b
restock size n b v space =
    let more = mul-suc n (size + b.expand_size) in
    let x : Reserved b size = reserve-Reserved b size v (omega (arith, space, more)) in
    record {
      buffer = x.buffer;
      result = x.result;
      begins =
          rw
            (lt→ltb x.buffer.write_index (length x.buffer.char_vector)
              (omega (arith, available_bytes_lem x.valid, x.room)))
            refl;
      ready = record {
        valid = x.valid;
        room = x.room;
        space =
            space_left size n (length b.char_vector) (length x.buffer.char_vector) b.expand_size
              x.buffer.expand_size x.expand x.grown space;
      };
      same = x.same;
    }

-- The buffer that the socket has filled.
module _ (size n : ℕ) (b : DynamicBuffer) (r : HasRoom size n b) (bytes : List ℕ)
    (some_bytes : 0 < length bytes) (few : length bytes ≤ size) where
  abbrev pub filled : DynamicBuffer
  filled = written r.valid bytes (length bytes) refl some_bytes (omega (arith, r.room, few))

  pub filled-IsValid : IsValid filled
  filled-IsValid =
      written-IsValid r.valid bytes (length bytes) refl some_bytes (omega (arith, r.room, few))

  pub content-filled : content filled ≡ content b ++ bytes
  content-filled =
      content-written r.valid bytes (length bytes) refl some_bytes (omega (arith, r.room, few))

  pub length-filled : length filled.char_vector ≡ length b.char_vector
  length-filled =
      length-written r.valid bytes (length bytes) refl some_bytes (omega (arith, r.room, few))

  pub put-filled : put b.char_vector b.write_index bytes ≡ some filled.char_vector
  put-filled =
      rw
        (le→leb (b.write_index + length bytes) (length b.char_vector)
          (omega (arith, r.room, few, available_bytes_lem r.valid)))
        refl

-- All bytes that a valid buffer holds, from the read index on.
pub slice-content :
    (b : DynamicBuffer)
    → IsValid b
    → slice b.char_vector b.read_index (data_bytes b) ≡ some (content b)
slice-content b v =
    read_front v (data_bytes b) (omega arith)
    ∙ ap some (take_all (data_bytes b) (content b) (omega (arith, length-content v)))
