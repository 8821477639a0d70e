-- ===== src/DynamicBuffer/Run.antt =====
-- Sequences of calls of a buffer of dynamic_buffer.cc, against a queue of bytes.
use lcy.Prelude.{
  ℕ, suc, ◌+◌, ◌*◌, ◌^◌, ◌≤◌, ◌<◌, ◌≡◌, refl, Option, some, List, [], ◌∷◌, ◌++◌, length, ◌>>=◌, All,
  arith,
}
use lcy.Bytes.{Host, image}
use lcy.DynamicBuffer.{DynamicBuffer, write_value, read_value, peek_value, read_all_to_string}
use lcy.DynamicBuffer.Inv.{IsValid, content}
use lcy.DynamicBuffer.Refine.{
  Keeps, Wrote, write_value-Wrote, dequeue, peek, read_value_refines, peek_value_refines,
  read_all_refines,
}

-- A client's call of one of four kinds; the first number is the size of the type.
pub data Op : Type 0 where
  write_op : ℕ → ℕ → Op
  read_op : ℕ → Op
  peek_op : ℕ → ℕ → Op
  read_all_op : Op

-- A value that is written has 1 to 8 bytes, and no offset wraps: `peek_value` faults where one does.
abbrev pub IsOp : Op → Type 0
IsOp (write_op n value) = (0 < n) × (n ≤ 8)
IsOp (read_op n) = Unit
IsOp (peek_op n offset) = n + offset < 2 ^ 64
IsOp read_all_op = Unit

pub data Reply : Type 0 where
  written : Reply
  value : Option ℕ → Reply
  bytes : List ℕ → Reply

-- What the calls return, one after the other; `none` if one of them faults.
unfoldable pub run : Host → DynamicBuffer → List Op → Option (List Reply)
run h b [] = some []
run h b (write_op n v ∷ ops) = do b' ← write_value h n b v; rs ← run h b' ops; some (written ∷ rs)
run h b (read_op n ∷ ops) = do (v, b') ← read_value h n b; rs ← run h b' ops; some (value v ∷ rs)
run h b (peek_op n offset ∷ ops) = do
  v ← peek_value h n b offset
  rs ← run h b ops
  some (value v ∷ rs)
run h b (read_all_op ∷ ops) = do
  (s, b') ← read_all_to_string b
  rs ← run h b' ops
  some (bytes s ∷ rs)

-- What a queue of bytes answers.
unfoldable pub run_queue : Host → List ℕ → List Op → List Reply
run_queue h q [] = []
run_queue h q (write_op n v ∷ ops) = written ∷ run_queue h (q ++ image h n v) ops
run_queue h q (read_op n ∷ ops) = let (v, q') = dequeue h n q in value v ∷ run_queue h q' ops
run_queue h q (peek_op n offset ∷ ops) = value (peek h n q offset) ∷ run_queue h q ops
run_queue h q (read_all_op ∷ ops) = bytes q ∷ run_queue h [] ops

-- Address space for `k` more writes.
abbrev pub Space : DynamicBuffer → ℕ → Type 0
Space b k = length b.char_vector + k * (8 + b.expand_size) < 2 ^ 64

next-Space :
    (b b' : DynamicBuffer) (k : ℕ)
    → length b'.char_vector ≤ length b.char_vector + 8 + b.expand_size
    → b'.expand_size ≡ b.expand_size
    → Space b (suc k)
    → Space b' k
next-Space b b' k g e s = rw e (omega arith)

same-Space : (b b' : DynamicBuffer) (k : ℕ) → Keeps b b' → Space b (suc k) → Space b' k
same-Space b b' k (vec, e) s = next-Space b b' k (rw vec (omega arith)) e s

-- On a valid buffer, and with address space for as many writes, a sequence of calls that write a value
-- of 1 to 8 bytes, read or peek a value or read all to a string, in which no peek has an offset that
-- wraps with the size of its type, does not fault, and returns what a queue of the buffer's bytes answers.
pub run_refines :
    (h : Host) (ops : List Op) {b : DynamicBuffer}
    → IsValid b
    → All IsOp ops
    → Space b (length ops)
    → run h b ops ≡ some (run_queue h (content b) ops)
unfolding run run_queue
run_refines h [] v ok s = refl
run_refines h (write_op n value' ∷ ops) {b} v ((pos, small), ok) s =
    let w : Wrote h n b value' = write_value-Wrote h n b value' pos v (omega arith) in
    rw (
      w.result,
      run_refines h ops w.valid ok
          (next-Space b w.buffer (length ops) (omega (arith, w.grown)) w.expand s),
      w.bytes,
    )
run_refines h (read_op n ∷ ops) {b} v (_, ok) s =
    let (b', e, v', c, k) = read_value_refines h n v in
    rw (e, run_refines h ops v' ok (same-Space b b' (length ops) k s), c)
run_refines h (peek_op n offset ∷ ops) {b} v (small, ok) s = rw (
  peek_value_refines h n offset v small,
  run_refines h ops v ok (next-Space b b (length ops) (omega arith) refl s),
)
run_refines h (read_all_op ∷ ops) {b} v (_, ok) s =
    let (b', e, v', c, k) = read_all_refines v in
    rw (e, run_refines h ops v' ok (same-Space b b' (length ops) k s), c)
