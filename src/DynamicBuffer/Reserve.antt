-- ===== src/DynamicBuffer/Reserve.antt =====
-- `reserve` of dynamic_buffer.cc makes room and keeps the bytes.
use lcy.Prelude.{
  ℕ, ◌+◌, ◌-◌, ◌*◌, ◌/◌, ◌%◌, ◌^◌, ◌≤◌, ◌<◌, ◌≡◌, refl, ap, ◌∙◌, inl, inr, some, false, List, ◌++◌,
  length, take, drop, replicate, arith, ltb, leb, ◌==◌, ltb→lt, lt→ltb, le→leb, leb→gt, length-drop,
  length-append, length-replicate, Bool-cases,
}
use lcy.Prelude.{take_all, drop-append_le, take-append_le, take-append_eq}
use native.Mathlib.Nat.{div-add-mod}
use lcy.DynamicBuffer.{
  DynamicBuffer, add_size, slice, resize, data_bytes, available_bytes, useless_bytes, new_size,
  rearrange, reserve,
}
use lcy.DynamicBuffer.Inv.{IsValid, content, data_bytes_lem, available_bytes_lem, length-content}

-- Enough address space is left for the vector to grow by `n` bytes.
abbrev pub CanGrow : DynamicBuffer → ℕ → Type 0
CanGrow b n = length b.char_vector + n + b.expand_size < 2 ^ 64

-- Rounded up to a multiple of `e`, at least one more than `n` and at most `n + e`.
round_up : (n e : ℕ) → 0 < e → (n < (n / e + 1) * e) × ((n / e + 1) * e ≤ n + e)
round_up n e h = grind (arith, div-add-mod n e)

-- What `new_size` finds: the vector is not made smaller, and leaves room for more than `n` bytes
-- when the data is moved to the front.
record Sized (b : DynamicBuffer) (n : ℕ) : Type 0 where
  size : ℕ
  found : new_size b n ≡ some size
  not_less : length b.char_vector ≤ size
  fits : size ≤ length b.char_vector + n + b.expand_size
  enough : data_bytes b + n < size

new_size-Sized : (b : DynamicBuffer) (n : ℕ) → IsValid b → CanGrow b n → Sized b n
unfolding new_size
new_size-Sized b n v g =
    elim (Bool-cases (leb (add_size (available_bytes b) (useless_bytes b)) n)) [
      | inl grow ↦
          let (above, below) = round_up n b.expand_size v.expands in
          let nonzero : (b.expand_size == 0) ≡ false = ground (arith, v.expands) in
          let size : ℕ = (n / b.expand_size + 1) * b.expand_size + length b.char_vector in
          let no_wrap : size % 2 ^ 64 ≡ size = omega (arith, g, below) in
          record {
            size = size;
            found = rw (grow, nonzero, no_wrap);
            not_less = omega arith;
            fits = omega (arith, below);
            enough = omega (arith, above, data_bytes_lem v, v.ordered, v.inside);
          }
      | inr keep ↦ record {
        size = length b.char_vector;
        found = rw keep;
        not_less = omega arith;
        fits = omega arith;
        enough = omega (
          arith,
          leb→gt (add_size (available_bytes b) (useless_bytes b)) n keep,
          available_bytes_lem v,
          data_bytes_lem v,
          v.ordered,
          v.inside,
          v.is_size,
        );
      }
    ]

-- What `reserve` leaves: a valid buffer with the same bytes and room for more than `n` behind them.
pub record Reserved (b : DynamicBuffer) (n : ℕ) : Type 0 where
  pub buffer : DynamicBuffer
  pub result : reserve b n ≡ some buffer
  pub valid : IsValid buffer
  pub same : content buffer ≡ content b
  pub room : n < available_bytes buffer
  pub expand : buffer.expand_size ≡ b.expand_size
  pub grown : length buffer.char_vector ≤ length b.char_vector + n + b.expand_size

module _ (b : DynamicBuffer) (n : ℕ) (v : IsValid b) (g : CanGrow b n) where
  sized : Sized b n
  sized = new_size-Sized b n v g

  abbrev larger : List ℕ
  larger = resize b.char_vector sized.size

  larger-append : larger ≡ b.char_vector ++ replicate (sized.size - length b.char_vector) 0
  larger-append =
      ap (λ (l : List ℕ). l ++ replicate (sized.size - length b.char_vector) 0)
        (take_all sized.size b.char_vector sized.not_less)

  length-larger : length larger ≡ sized.size
  length-larger =
      ap length larger-append
      ∙ omega (
        arith,
        length-append b.char_vector (replicate (sized.size - length b.char_vector) 0),
        length-replicate {A = ℕ} (sized.size - length b.char_vector) 0,
        sized.not_less,
      )

  slice-larger : slice larger b.read_index (data_bytes b) ≡ some (content b)
  slice-larger =
      rw
        (le→leb (b.read_index + data_bytes b) (length larger)
          (omega (arith, length-larger, data_bytes_lem v, v.ordered, v.inside, sized.not_less)))
        (ap some (
          ap (λ (l : List ℕ). take (data_bytes b) (drop b.read_index l)) larger-append
          ∙ ap (take (data_bytes b)) (
              drop-append_le b.read_index b.char_vector
                (replicate (sized.size - length b.char_vector) 0) (omega (arith, v.room)))
          ∙ take-append_le (data_bytes b) (drop b.read_index b.char_vector)
              (replicate (sized.size - length b.char_vector) 0)
              (omega (arith, length-drop b.read_index b.char_vector, data_bytes_lem v, v.inside))
          ∙ ap (λ k. take k (drop b.read_index b.char_vector)) (data_bytes_lem v)))

  abbrev moved : DynamicBuffer
  moved = record b {
    char_vector = content b ++ drop (length (content b)) larger;
    write_index = data_bytes b;
    read_index = 0;
  }

  rearrange-moved : rearrange b n ≡ some moved
  unfolding rearrange
  rearrange-moved =
      rw
        (
          sized.found,
          lt→ltb b.read_index (length larger)
              (omega (arith, length-larger, v.room, sized.not_less)),
          slice-larger,
          le→leb (0 + length (content b)) (length larger)
              (omega (arith, length-larger, length-content v, sized.enough)),
        )
        (ap (λ k. some (record moved { char_vector = content b ++ drop k larger }))
          zero-add-content)
    where
      zero-add-content : 0 + length (content b) ≡ length (content b)
      zero-add-content = omega arith

  length-moved : length moved.char_vector ≡ sized.size
  length-moved = omega (
    arith,
    length-append (content b) (drop (length (content b)) larger),
    length-drop (length (content b)) larger,
    length-larger,
    length-content v,
    sized.enough,
  )

  moved-IsValid : IsValid moved
  moved-IsValid = record {
    ordered = omega arith;
    inside = omega (arith, length-moved, sized.enough);
    room = omega (arith, length-moved, sized.enough);
    rewound = elim v.rewound [
      | inl some_data ↦ inl (omega (arith, data_bytes_lem v))
      | inr empty ↦ inr (omega (arith, data_bytes_lem v))
    ];
    expands = v.expands;
    is_size = omega (arith, length-moved, sized.fits, g);
  }

  content-moved : content moved ≡ content b
  content-moved =
      take-append_eq (data_bytes b - 0) (content b) (drop (length (content b)) larger)
        (omega (arith, length-content v))

  -- On a valid buffer with address space left, `reserve` does not fault: it leaves a valid buffer
  -- with the same bytes and with room for more than `n` bytes behind them.
  pub reserve-Reserved : Reserved b n
  unfolding reserve
  reserve-Reserved = elim (Bool-cases (ltb n (available_bytes b))) [
    | inl enough ↦ record {
      buffer = b;
      result = rw enough;
      valid = v;
      same = refl;
      room = ltb→lt n (available_bytes b) enough;
      expand = refl;
      grown = omega arith;
    }
    | inr short ↦ record {
      buffer = moved;
      result = rw short rearrange-moved;
      valid = moved-IsValid;
      same = content-moved;
      room = omega (arith, available_bytes_lem moved-IsValid, length-moved, sized.enough);
      expand = refl;
      grown = omega (arith, length-moved, sized.fits);
    }
  ]
