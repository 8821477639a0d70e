-- ===== src/DynamicBuffer/Refine.antt =====
-- A valid buffer of dynamic_buffer.cc is a queue of bytes.
use lcy.Prelude.{
  ℕ, ◌+◌, ◌-◌, ◌^◌, ◌≤◌, ◌<◌, ◌≡◌, refl, sym, ap, ◌∙◌, inl, inr, Option, none, some, List, [], ◌++◌,
  length, take, drop, arith, ltb, if◌then◌else◌, ltb→ge, lt→ltb, le→leb, length-take, length-drop,
  length-append, Bool-cases, take_all, drop-append_le, take-append_eq, append_assoc, drop-take,
  drop_all,
}
use lcy.Bytes.{Host, image, load}
use lcy.Bytes.Laws.{length-image}
use lcy.DynamicBuffer.{
  DynamicBuffer, add_size, read, data_bytes, available_bytes, write_value, read_value, peek_value,
  read_all_to_string,
}
use lcy.DynamicBuffer.Inv.{
  IsValid, content, data_bytes_lem, available_bytes_lem, length-content, read-IsValid, content-read,
  read_front, peek_front, read_begin_lem,
}
use lcy.DynamicBuffer.Reserve.{CanGrow, Reserved, reserve-Reserved}

-- Writing `bs` where there is room, and moving the write index behind it, appends `bs`.
module _ {b : DynamicBuffer} (v : IsValid b) (bs : List ℕ) (n : ℕ) (exact : length bs ≡ n)
    (pos : 0 < n) (room : n ≤ available_bytes b) where
  abbrev pub written : DynamicBuffer
  written = record b {
    char_vector =
        take b.write_index b.char_vector ++ (bs ++ drop (b.write_index + length bs) b.char_vector);
    write_index = add_size b.write_index n;
  }

  no_wrap : add_size b.write_index n ≡ b.write_index + n
  no_wrap = omega (arith, available_bytes_lem v, v.is_size)

  pub length-written : length written.char_vector ≡ length b.char_vector
  length-written = omega (
    arith,
    length-append (take b.write_index b.char_vector)
        (bs ++ drop (b.write_index + length bs) b.char_vector),
    length-append bs (drop (b.write_index + length bs) b.char_vector),
    length-take b.write_index b.char_vector,
    length-drop (b.write_index + length bs) b.char_vector,
    available_bytes_lem v,
    v.inside,
  )

  pub written-IsValid : IsValid written
  written-IsValid = record {
    ordered = omega (arith, no_wrap, v.ordered);
    inside = omega (arith, no_wrap, length-written, available_bytes_lem v);
    room = omega (arith, length-written, v.room);
    rewound = inl (omega (arith, no_wrap, v.ordered));
    expands = v.expands;
    is_size = omega (arith, length-written, v.is_size);
  }

  pub content-written : content written ≡ content b ++ bs
  content-written =
      ap (take (add_size b.write_index n - b.read_index)) (
        drop-append_le b.read_index (take b.write_index b.char_vector)
          (bs ++ drop (b.write_index + length bs) b.char_vector)
          (omega (arith, length-take b.write_index b.char_vector, v.ordered, v.inside))
        ∙ ap (λ (l : List ℕ). l ++ (bs ++ drop (b.write_index + length bs) b.char_vector))
            (drop-take b.read_index b.write_index b.char_vector)
        ∙ sym (append_assoc (content b) bs (drop (b.write_index + length bs) b.char_vector)))
      ∙ take-append_eq (add_size b.write_index n - b.read_index) (content b ++ bs)
          (drop (b.write_index + length bs) b.char_vector)
          (omega (
            arith,
            length-append (content b) bs,
            length-content v,
            data_bytes_lem v,
            no_wrap,
            v.ordered,
          ))

-- What `WRITE` leaves: a valid buffer with the value's bytes behind the old ones.
pub record Wrote (h : Host) (n : ℕ) (b : DynamicBuffer) (value : ℕ) : Type 0 where
  pub buffer : DynamicBuffer
  pub result : write_value h n b value ≡ some buffer
  pub valid : IsValid buffer
  pub bytes : content buffer ≡ content b ++ image h n value
  pub expand : buffer.expand_size ≡ b.expand_size
  pub grown : length buffer.char_vector ≤ length b.char_vector + n + b.expand_size

-- On a valid buffer with address space left, a write does not fault and appends the bytes of the
-- value to those of the buffer.
pub write_value-Wrote :
    (h : Host) (n : ℕ) (b : DynamicBuffer) (value : ℕ)
    → 0 < n
    → IsValid b
    → CanGrow b n
    → Wrote h n b value
unfolding write_value
write_value-Wrote h n b value pos v g = record {
  buffer = written r.valid bs n exact pos enough;
  result = rw (
    r.result,
    lt→ltb r.buffer.write_index (length r.buffer.char_vector)
        (omega (arith, available_bytes_lem r.valid, r.room)),
    le→leb (r.buffer.write_index + length bs) (length r.buffer.char_vector)
        (omega (arith, available_bytes_lem r.valid, r.room, exact)),
  );
  valid = written-IsValid r.valid bs n exact pos enough;
  bytes = content-written r.valid bs n exact pos enough ∙ ap (λ (l : List ℕ). l ++ bs) r.same;
  expand = r.expand;
  grown = omega (arith, length-written r.valid bs n exact pos enough, r.grown);
}
  where
    r : Reserved b n
    r = reserve-Reserved b n v g

    enough : n ≤ available_bytes r.buffer
    enough = omega (arith, r.room)

    bs : List ℕ
    bs = image h n value

    exact : length bs ≡ n
    exact = length-image h n value

-- The same operations on a queue of bytes, oldest first.
unfoldable pub dequeue : Host → ℕ → List ℕ → Option ℕ × List ℕ
dequeue h n q = if ltb (length q) n then (none, q) else (some (load h (take n q)), drop n q)

unfoldable pub peek : Host → ℕ → List ℕ → ℕ → Option ℕ
peek h n q offset =
    if ltb (length q) (n + offset) then none else some (load h (take n (drop offset q)))

-- The vector and the step by which it grows stay as they are.
abbrev pub Keeps : DynamicBuffer → DynamicBuffer → Type 0
Keeps b b' = (b'.char_vector ≡ b.char_vector) × (b'.expand_size ≡ b.expand_size)

pub read-Keeps : (b : DynamicBuffer) (n : ℕ) → Keeps b (read b n)
unfolding read
read-Keeps b n = ground arith

-- A read returns what the queue of the buffer's bytes returns, and leaves a valid buffer that
-- holds what the queue is left with: nothing changes where there are fewer than `n` bytes.
pub read_value_refines :
    (h : Host) (n : ℕ) {b : DynamicBuffer}
    → IsValid b
    → (b' : DynamicBuffer) × (read_value h n b ≡ some ((dequeue h n (content b)).0, b'))
      × IsValid b'
      × (content b' ≡ (dequeue h n (content b)).1)
      × Keeps b b'
unfolding read_value dequeue
read_value_refines h n {b} v = elim (Bool-cases (ltb (data_bytes b) n)) [
  | inl short ↦ (b, rw (length-content v, short), v, rw (length-content v, short), (refl, refl))
  | inr enough ↦
      let e : n ≤ data_bytes b = ltb→ge (data_bytes b) n enough in
      (
        read b n,
        rw (length-content v, enough, read_begin_lem v, read_front v n e),
        read-IsValid v n e,
        rw (length-content v, enough) (content-read v n e),
        read-Keeps b n,
      )
]

-- A peek returns what the queue shows behind the offset, where the sum of the size and the offset
-- does not wrap.
pub peek_value_refines :
    (h : Host) (n offset : ℕ) {b : DynamicBuffer}
    → IsValid b
    → n + offset < 2 ^ 64
    → peek_value h n b offset ≡ some (peek h n (content b) offset)
unfolding peek_value peek
peek_value_refines h n offset {b} v small = elim (Bool-cases (ltb (data_bytes b) (n + offset))) [
  | inl short ↦ rw (no_wrap', length-content v, short)
  | inr enough ↦ rw (
    no_wrap',
    length-content v,
    enough,
    read_begin_lem v,
    peek_front v n offset (ltb→ge (data_bytes b) (n + offset) enough),
  )
]
  where
    no_wrap' : add_size n offset ≡ n + offset
    no_wrap' = omega arith

-- `readAllToString` hands over all bytes and leaves a valid buffer with none.
pub read_all_refines :
    {b : DynamicBuffer}
    → IsValid b
    → (b' : DynamicBuffer) × (read_all_to_string b ≡ some (content b, b'))
      × IsValid b'
      × (content b' ≡ [])
      × Keeps b b'
unfolding read_all_to_string
read_all_refines {b} v = (
  read b (data_bytes b),
  rw (read_begin_lem v, read_front v (data_bytes b) (omega arith))
      (ap (λ (l : List ℕ). some (l, read b (data_bytes b)))
        (take_all (data_bytes b) (content b) (omega (arith, length-content v)))),
  read-IsValid v (data_bytes b) (omega arith),
  content-read v (data_bytes b) (omega arith)
      ∙ drop_all (data_bytes b) (content b) (omega (arith, length-content v)),
  read-Keeps b (data_bytes b),
)
