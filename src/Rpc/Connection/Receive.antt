-- ===== src/Rpc/Connection/Receive.antt =====
-- The stream that rpc/src/details/connection.cc receives, in whatever pieces, is cut into the
-- messages that were sent.
use lcy.Prelude.{
  subst, ℕ, zero, suc, ◌+◌, ◌≤◌, ◌<◌, ◌≡◌, ◌⊎◌, refl, sym, ap, ◌∙◌, inl, inr, true, false, some,
  List, [], ◌∷◌, ◌++◌, ltb, All, arith, length, take, drop, append_assoc, length-append,
  drop-append_eq, Bool-cases, lt→ltb, ge→ltb, ltb→ge,
}
use lcy.Bytes.{Host}
use lcy.DynamicBuffer.{DynamicBuffer, add_size, read, data_bytes, slice}
use lcy.DynamicBuffer.Inv.{
  IsValid, content, length-content, read-IsValid, content-read, read_front, peek_front,
  read_begin_lem,
}
use lcy.DynamicBuffer.Refine.{Keeps, read-Keeps}
use lcy.Rpc.Connection.{frame, recv_loop}
use lcy.Rpc.Connection.Frames.{Fits, header, Waits, frames, length-frame, header-frame, text-frame}

-- What the loop leaves.
abbrev pub Received : Host → ℕ → DynamicBuffer → List (List ℕ) → List ℕ → Type 0
Received h fuel b texts rest =
    (b' : DynamicBuffer) × (recv_loop h fuel b ≡ some (b', texts))
    × IsValid b'
    × (content b' ≡ rest)
    × Keeps b b'

module _ (h : Host) (b : DynamicBuffer) (v : IsValid b) where
  loop_waits : (fuel : ℕ) → Waits h (content b) → Received h (suc fuel) b [] (content b)
  unfolding recv_loop
  loop_waits fuel w = (b, stops (Bool-cases (ltb (data_bytes b) 4)), v, refl, (refl, refl))
    where
      stops :
          ((ltb (data_bytes b) 4 ≡ true) ⊎ (ltb (data_bytes b) 4 ≡ false))
          → recv_loop h (suc fuel) b ≡ some (b, [])
      stops (inl short) = rw short refl
      stops (inr enough) =
          let four : 4 ≤ data_bytes b = ltb→ge (data_bytes b) 4 enough in
          let less : data_bytes b < add_size (header h (content b)) 4 = elim w [
            | inl s ↦ absurd (omega (arith, s, length-content v, four))
            | inr s ↦ omega (arith, s, length-content v)
          ] in
          rw
            (
              enough,
              read_begin_lem v,
              read_front v 4 four,
              lt→ltb (data_bytes b) (add_size (header h (content b)) 4) less,
            )
            refl

  module _ (text s : List ℕ) (fits : Fits text) (e : content b ≡ frame h text ++ s) where
    available : data_bytes b ≡ 4 + length text + length s
    available =
        sym (length-content v)
        ∙ ap length e
        ∙ omega (arith, length-append (frame h text) s, length-frame h text)

    size : header h (content b) ≡ length text
    size = ap (header h) e ∙ header-frame h text s fits

    sum : add_size (length text) 4 ≡ length text + 4
    sum = omega arith

    text_found : slice b.char_vector (b.read_index + 4) (length text) ≡ some text
    text_found =
        peek_front v (length text) 4 (omega (arith, available))
        ∙ ap (λ (l : List ℕ). some (take (length text) (drop 4 l))) e
        ∙ ap some (text-frame h text s)

    read_past : content (read b (length text + 4)) ≡ s
    read_past =
        content-read v (length text + 4) (omega (arith, available))
        ∙ ap (drop (length text + 4)) e
        ∙ drop-append_eq (length text + 4) (frame h text) s (omega (arith, length-frame h text))

    read_past-IsValid : IsValid (read b (length text + 4))
    read_past-IsValid = read-IsValid v (length text + 4) (omega (arith, available))

    loop_round :
        (fuel : ℕ) (b' : DynamicBuffer) (texts : List (List ℕ))
        → recv_loop h fuel (read b (length text + 4)) ≡ some (b', texts)
        → recv_loop h (suc fuel) b ≡ some (b', text ∷ texts)
    unfolding recv_loop
    loop_round fuel b' texts r =
        rw
          (
            ge→ltb (data_bytes b) 4 (omega (arith, available)),
            read_begin_lem v,
            read_front v 4 (omega (arith, available)),
            size,
            sum,
            ge→ltb (data_bytes b) (length text + 4) (omega (arith, available)),
            text_found,
            r,
          )
          refl

-- The loop hands over the whole frames and keeps the start of the next.
pub recv_loop-frames :
    (h : Host) (fuel : ℕ) (b : DynamicBuffer) (texts : List (List ℕ)) (rest : List ℕ)
    → IsValid b
    → All Fits texts
    → Waits h rest
    → content b ≡ frames h texts ++ rest
    → length texts < fuel
    → Received h fuel b texts rest
unfolding frames
recv_loop-frames h zero b texts rest v fits w e f = absurd (omega arith)
recv_loop-frames h (suc fuel) b [] rest v fits w e f =
    subst (Received h (suc fuel) b []) e (loop_waits h b v fuel (subst (Waits h) (sym e) w))
recv_loop-frames h (suc fuel) b (text ∷ texts) rest v (fit, fits) w e f =
    let s = frames h texts ++ rest in
    let e' : content b ≡ frame h text ++ s =
      e ∙ append_assoc (frame h text) (frames h texts) rest in
    let (b', r, v', c, k) =
      recv_loop-frames h fuel (read b (length text + 4)) texts rest
        (read_past-IsValid h b v text s fit e') fits w (read_past h b v text s fit e')
        (omega arith) in
    let k₀ = read-Keeps b (length text + 4) in
    (b', loop_round h b v text s fit e' fuel b' texts r, v', c, (k.0 ∙ k₀.0, k.1 ∙ k₀.1))
