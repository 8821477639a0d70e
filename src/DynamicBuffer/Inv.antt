-- ===== src/DynamicBuffer/Inv.antt =====
-- The representation invariant of dynamic_buffer.cc, and the bytes that a buffer holds.
use lcy.Prelude.{
  ℕ, ◌+◌, ◌-◌, ◌^◌, ◌≤◌, ◌<◌, ◌≡◌, refl, ◌∙◌, ◌⊎◌, inl, inr, some, List, length, take, drop, arith,
  lt→ltb, length-take, length-drop, le→leb, drop_all, drop-drop, drop-take, take-take, sym, ap,
  ==→eq, Bool-cases, ◌==◌,
}
use lcy.DynamicBuffer.{
  DynamicBuffer, fresh, add_size, read_begin, slice, read, data_bytes, available_bytes,
}

-- The indices lie in the vector in their order, an empty buffer starts at 0, and the sizes are
-- those of a `size_t`.
pub record IsValid (b : DynamicBuffer) : Type 0 where
  pub ordered : b.read_index ≤ b.write_index
  pub inside : b.write_index ≤ length b.char_vector
  pub room : b.read_index < length b.char_vector
  pub rewound : (b.read_index < b.write_index) ⊎ (b.write_index ≡ 0)
  pub expands : 0 < b.expand_size
  pub is_size : length b.char_vector < 2 ^ 64

-- The bytes between the indices, oldest first.
abbrev pub content : DynamicBuffer → List ℕ
content b = take (b.write_index - b.read_index) (drop b.read_index b.char_vector)

pub fresh-IsValid : (e : ℕ) → 0 < e → IsValid (fresh e)
fresh-IsValid e h = record {
  ordered = omega arith;
  inside = omega arith;
  room = omega arith;
  rewound = inr refl;
  expands = h;
  is_size = omega arith;
}

module _ {b : DynamicBuffer} (v : IsValid b) where
  pub data_bytes_lem : data_bytes b ≡ b.write_index - b.read_index
  data_bytes_lem = omega (arith, v.ordered, v.inside, v.is_size)

  pub available_bytes_lem : available_bytes b ≡ length b.char_vector - b.write_index
  available_bytes_lem = omega (arith, v.inside, v.is_size)

  pub length-content : length (content b) ≡ data_bytes b
  length-content = omega (
    arith,
    data_bytes_lem,
    length-take (b.write_index - b.read_index) (drop b.read_index b.char_vector),
    length-drop b.read_index b.char_vector,
    v.ordered,
    v.inside,
  )

  -- Reading no more than there is keeps the invariant and drops the bytes from the front.
  pub read-IsValid : (n : ℕ) → n ≤ data_bytes b → IsValid (read b n)
  unfolding read
  read-IsValid n h = ground (arith, data_bytes_lem)

  pub content-read : (n : ℕ) → n ≤ data_bytes b → content (read b n) ≡ drop n (content b)
  unfolding read
  content-read n h = elim (Bool-cases (add_size b.read_index n == b.write_index)) [
    | inl e ↦ rw e (
        sym (
          drop_all n (content b) (
            omega (
              arith,
              length-content,
              ==→eq (add_size b.read_index n) b.write_index e,
              data_bytes_lem,
              v.ordered,
              v.inside,
              v.is_size,
            ))))
    | inr e ↦
        let r : add_size b.read_index n ≡ b.read_index + n =
          omega (arith, data_bytes_lem, v.ordered, v.inside, v.is_size) in
        let count : b.write_index - (b.read_index + n) ≡ b.write_index - b.read_index - n =
          omega arith in
        rw (e, r, count)
          (ap (take (b.write_index - b.read_index - n))
              (sym (drop-drop n b.read_index b.char_vector))
            ∙ sym (drop-take n (b.write_index - b.read_index) (drop b.read_index b.char_vector)))
  ]

  -- The front of the content is found at the read index.
  pub read_front :
      (n : ℕ) → n ≤ data_bytes b → slice b.char_vector b.read_index n ≡ some (take n (content b))
  read_front n h =
      rw
        (le→leb (b.read_index + n) (length b.char_vector)
          (omega (arith, data_bytes_lem, v.ordered, v.inside)))
        (ap some (
          sym (
            take-take n (b.write_index - b.read_index) (drop b.read_index b.char_vector)
              (omega (arith, data_bytes_lem)))))

  pub read_begin_lem : read_begin b ≡ some b.read_index
  read_begin_lem = rw (lt→ltb b.read_index (length b.char_vector) v.room)

  -- So are the bytes behind an offset.
  pub peek_front :
      (n offset : ℕ)
      → n + offset ≤ data_bytes b
      → slice b.char_vector (b.read_index + offset) n ≡ some (take n (drop offset (content b)))
  peek_front n offset h =
      rw
        (le→leb (b.read_index + offset + n) (length b.char_vector)
          (omega (arith, data_bytes_lem, v.ordered, v.inside)))
        (ap some (
          ap (take n) (sym (drop-drop offset b.read_index b.char_vector))
          ∙ sym (
              take-take n (b.write_index - b.read_index - offset)
                (drop offset (drop b.read_index b.char_vector)) (omega (arith, data_bytes_lem)))
          ∙ ap (take n) (
              sym (
                drop-take offset (b.write_index - b.read_index)
                  (drop b.read_index b.char_vector)))))
