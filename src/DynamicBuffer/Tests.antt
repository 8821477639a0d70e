-- ===== src/DynamicBuffer/Tests.antt =====
-- Runs of the definitions, and the theorems at concrete inputs.
use lcy.Prelude.{◌^◌, ◌-◌, ◌≡◌, refl, inl, some, none, List, [], ◌∷◌, arith}
use lcy.Bytes.{little, big, image, load}
use lcy.DynamicBuffer.{
  DynamicBuffer, fresh, read, new_size, rearrange, reserve, write_value, read_value, peek_value,
  read_all_to_string,
}
use lcy.DynamicBuffer.Inv.{IsValid, fresh-IsValid}
use lcy.DynamicBuffer.Run.{
  Op, write_op, read_op, peek_op, read_all_op, written, value, bytes, run, run_queue, run_refines,
}

abbrev script : List Op
script = write_op 2 0x1234 ∷ peek_op 1 1 ∷ read_op 4 ∷ write_op 1 7 ∷ read_op 2 ∷ read_all_op ∷ []

script_runs :
    run little (fresh 4) script
    ≡ some (
        written
        ∷ value (some 0x12)
        ∷ value none
        ∷ written
        ∷ value (some 0x1234)
        ∷ bytes (7 ∷ [])
        ∷ [])
unfolding run write_value reserve rearrange new_size read_value peek_value read_all_to_string read
    image load
script_runs = refl

run_refines_example : run big (fresh 4) script ≡ some (run_queue big [] script)
run_refines_example =
    run_refines big script (fresh-IsValid 4 (omega arith)) (omega arith) (omega arith)

abbrev held : DynamicBuffer
held = record {
  read_index = 1;
  write_index = 4;
  expand_size = 8;
  char_vector = 9 ∷ 1 ∷ 2 ∷ 3 ∷ 0 ∷ [];
}

-- An offset that wraps with the size of the type passes the test, and the read is outside the buffer.
peek_wraps : peek_value little 2 held (2 ^ 64 - 1) ≡ none
unfolding peek_value
peek_wraps = refl

held-IsValid : IsValid held
held-IsValid = record {
  ordered = omega arith;
  inside = omega arith;
  room = omega arith;
  rewound = inl (omega arith);
  expands = omega arith;
  is_size = omega arith;
}
