-- ===== src/Rpc/Connection/Frames.antt =====
-- Frames in a stream of bytes, as rpc/src/details/connection.cc cuts it.
use lcy.Prelude.{
  ℕ, ◌+◌, ◌^◌, ◌%◌, ◌≤◌, ◌<◌, ◌≡◌, refl, sym, ap, ◌∙◌, ◌⊎◌, inl, inr, List, [], ◌∷◌, ◌++◌, ltb, All,
  arith, length, take, drop, append_assoc, length-append, take-append_le, take-append_eq,
  drop-append_eq, take-append_length, Bool-cases, ltb→lt, ltb→ge,
}
use lcy.Bytes.{Host, image, load, to_net}
use lcy.Bytes.Laws.{length-image, image-to_net, to_net-load}
use lcy.DynamicBuffer.{add_size}
use lcy.Rpc.Connection.{frame}

-- A message whose length the four bytes can carry.
abbrev pub Fits : List ℕ → Type 0
Fits text = length text < 2 ^ 32

-- The length that the first four bytes stand for.
abbrev pub header : Host → List ℕ → ℕ
header h q = to_net h 4 (load h (take 4 q))

-- Bytes in which no frame is complete.
abbrev pub Waits : Host → List ℕ → Type 0
Waits h q = (length q < 4) ⊎ (length q < add_size (header h q) 4)

unfoldable pub frames : Host → List (List ℕ) → List ℕ
frames h [] = []
frames h (text ∷ texts) = frame h text ++ frames h texts

pub length-frame : (h : Host) (text : List ℕ) → length (frame h text) ≡ 4 + length text
unfolding frame
length-frame h text = omega (
  arith,
  length-append (image h 4 (to_net h 4 (length text % 2 ^ 32))) text,
  length-image h 4 (to_net h 4 (length text % 2 ^ 32)),
)

header-net :
    (h : Host) (v : ℕ) (s : List ℕ) → v < 2 ^ 32 → header h (image h 4 (to_net h 4 v) ++ s) ≡ v
header-net h v s b =
    ap (λ (l : List ℕ). to_net h 4 (load h l))
      (take-append_eq 4 (image h 4 (to_net h 4 v)) s (length-image h 4 (to_net h 4 v))
        ∙ image-to_net h 4 v)
    ∙ to_net-load h 4 v (omega arith)

pub header-frame :
    (h : Host) (text s : List ℕ) → Fits text → header h (frame h text ++ s) ≡ length text
unfolding frame
header-frame h text s b =
    let small : length text % 2 ^ 32 ≡ length text = omega arith in
    ap (header h) (append_assoc (image h 4 (to_net h 4 (length text % 2 ^ 32))) text s)
    ∙ header-net h (length text % 2 ^ 32) (text ++ s) (omega arith)
    ∙ small

-- The message behind its length.
pub text-frame :
    (h : Host) (text s : List ℕ) → take (length text) (drop 4 (frame h text ++ s)) ≡ text
unfolding frame
text-frame h text s =
    ap (λ (l : List ℕ). take (length text) (drop 4 l))
      (append_assoc (image h 4 (to_net h 4 (length text % 2 ^ 32))) text s)
    ∙ ap (take (length text)) (
        drop-append_eq 4 (image h 4 (to_net h 4 (length text % 2 ^ 32))) (text ++ s)
          (length-image h 4 (to_net h 4 (length text % 2 ^ 32))))
    ∙ take-append_length text s

-- The front of a stream, divided into whole frames and the start of the next.
pub record Divided (h : Host) (q more : List ℕ) (todo : List (List ℕ)) : Type 0 where
  pub texts : List (List ℕ)
  pub left : List (List ℕ)
  pub rest : List ℕ
  pub all_texts : todo ≡ texts ++ left
  pub front : q ≡ frames h texts ++ rest
  pub waits : Waits h rest
  pub behind : rest ++ more ≡ frames h left

-- Where one stream begins with a shorter part, so does the other.
split_front :
    (q more a b : List ℕ)
    → q ++ more ≡ a ++ b
    → length a ≤ length q
    → (q ≡ a ++ drop (length a) q) × (drop (length a) q ++ more ≡ b)
split_front q more [] b e h = (refl, e)
split_front [] more (x ∷ a) b e h = absurd (omega arith)
split_front (y ∷ q) more (x ∷ a) b e h =
    let (p, r) = split_front q more a b (cc e) (omega arith) in (cc (e, p), r)

take_front : (n : ℕ) (q more : List ℕ) → n ≤ length q → take n q ≡ take n (q ++ more)
take_front n q more h = sym (take-append_le n q more h)

pub divide :
    (h : Host) (q more : List ℕ) (todo : List (List ℕ))
    → All Fits todo
    → q ++ more ≡ frames h todo
    → Divided h q more todo
unfolding frames
divide h [] more [] b e = record {
  texts = [];
  left = [];
  rest = [];
  all_texts = refl;
  front = refl;
  waits = inl (omega arith);
  behind = e;
}
divide h (x ∷ q) more [] b e = cc e
divide h q more (text ∷ todo) (b, bs) e =
    elim (Bool-cases (ltb (length q) (length (frame h text)))) [
      | inl short ↦ record {
        texts = [];
        left = text ∷ todo;
        rest = q;
        all_texts = refl;
        front = refl;
        waits = elim (Bool-cases (ltb (length q) 4)) [
          | inl s ↦ inl (ltb→lt (length q) 4 s)
          | inr s ↦ inr (
              omega (
                arith,
                length-frame h text,
                ltb→lt (length q) (length (frame h text)) short,
                ap (λ (l : List ℕ). to_net h 4 (load h l))
                      (take_front 4 q more (ltb→ge (length q) 4 s) ∙ ap (take 4) e)
                    ∙ header-frame h text (frames h todo) b,
              ))
        ];
        behind = e;
      }
      | inr long ↦
          let (p, r) =
            split_front q more (frame h text) (frames h todo) e
              (ltb→ge (length q) (length (frame h text)) long) in
          let d = divide h (drop (length (frame h text)) q) more todo bs r in
          record {
            texts = text ∷ d.texts;
            left = d.left;
            rest = d.rest;
            all_texts = ap (◌∷◌ text) d.all_texts;
            front =
                p
                ∙ ap (◌++◌ (frame h text)) d.front
                ∙ sym (append_assoc (frame h text) (frames h d.texts) d.rest);
            waits = d.waits;
            behind = d.behind;
          }
    ]

-- Whole frames are not left waiting.
pub no_wait :
    (h : Host) (rest : List ℕ) (left : List (List ℕ))
    → All Fits left
    → Waits h rest
    → rest ≡ frames h left
    → (left ≡ []) × (rest ≡ [])
unfolding frames
no_wait h rest [] b w e = (refl, e)
no_wait h rest (text ∷ left) (b, bs) w e =
    let size : length rest ≡ 4 + length text + length (frames h left) =
      ap length e
      ∙ omega (arith, length-append (frame h text) (frames h left), length-frame h text) in
    let len : header h rest ≡ length text =
      ap (header h) e ∙ header-frame h text (frames h left) b in
    absurd
      (elim w [ inl short ↦ omega (arith, size) | inr short ↦ omega (arith, size, len, b, short) ])
