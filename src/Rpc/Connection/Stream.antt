-- ===== src/Rpc/Connection/Stream.antt =====
-- The connection of rpc/src/details/connection.cc while its socket calls it back: the stream, in
-- whatever pieces it comes, gives the messages that were sent.
use lcy.Prelude.{
  ℕ, suc, ◌+◌, ◌*◌, ◌^◌, ◌≤◌, ◌<◌, ◌≡◌, refl, sym, ap, ◌∙◌, true, false, Option, some, List, [],
  ◌∷◌, ◌++◌, map, ◌==◌, ◌>>=◌, All, arith, length, append-nil, append_assoc, length-append, subst,
  lt→ltb, le→leb,
}
use lcy.Bytes.{Host}
use lcy.DynamicBuffer.{DynamicBuffer, write, data_bytes, available_bytes}
use lcy.DynamicBuffer.Inv.{IsValid, content, available_bytes_lem, length-content}
use lcy.DynamicBuffer.Reserve.{Reserved, reserve-Reserved}
use lcy.DynamicBuffer.Refine.{written, written-IsValid, content-written, length-written}
use lcy.Rpc.Connection.{
  frame, Action, async_read, async_write, shut_down, message, Connection, start_recv, fill,
  on_recv_message,
}
use lcy.Rpc.Connection.Frames.{Fits, Waits, frames, length-frame, Divided, divide, no_wait}
use lcy.Rpc.Connection.Receive.{recv_loop-frames}

-- The socket stores bytes where it was told to, and calls back.
unfoldable pub receive : Host → Connection → List ℕ → Option (Connection × List Action)
receive h c bytes = do
  b ← fill c.read_buf bytes
  on_recv_message h true false (length bytes) (record c { read_buf = b })

-- So it does with one piece after the other.
unfoldable pub receive_pieces :
    Host → Connection → List (List ℕ) → Option (Connection × List Action)
receive_pieces h c [] = some (c, [])
receive_pieces h c (bytes ∷ pieces) = do
  (c', actions) ← receive h c bytes
  (c'', actions') ← receive_pieces h c' pieces
  some (c'', actions ++ actions')

-- The messages among the actions, and the bytes of pieces.
unfoldable pub messages_of : List Action → List (List ℕ)
messages_of [] = []
messages_of (message text ∷ rest) = text ∷ messages_of rest
messages_of (async_read n ∷ rest) = messages_of rest
messages_of (async_write text ∷ rest) = messages_of rest
messages_of (shut_down ∷ rest) = messages_of rest

unfoldable pub stream : List (List ℕ) → List ℕ
stream [] = []
stream (bytes ∷ pieces) = bytes ++ stream pieces

messages_of-map :
    (texts : List (List ℕ)) (n : ℕ) → messages_of (map message texts ++ async_read n ∷ []) ≡ texts
unfolding messages_of
messages_of-map [] n = refl
messages_of-map (text ∷ texts) n = ap (◌∷◌ text) (messages_of-map texts n)

messages_of-append : (a b : List Action) → messages_of (a ++ b) ≡ messages_of a ++ messages_of b
unfolding messages_of
messages_of-append [] b = refl
messages_of-append (message text ∷ a) b = ap (◌∷◌ text) (messages_of-append a b)
messages_of-append (async_read n ∷ a) b = messages_of-append a b
messages_of-append (async_write text ∷ a) b = messages_of-append a b
messages_of-append (shut_down ∷ a) b = messages_of-append a b

-- The buffer is ready for the socket: room for more than 4096 bytes, and address space for `n`
-- more calls.
pub record Ready (n : ℕ) (b : DynamicBuffer) : Type 0 where
  pub valid : IsValid b
  pub room : 4096 < available_bytes b
  pub space : length b.char_vector + n * (4096 + b.expand_size) < 2 ^ 64

-- What a call leaves.
record Received (h : Host) (n : ℕ) (c : Connection) (bytes : List ℕ) (texts : List (List ℕ))
    (rest : List ℕ) : Type 0 where
  after : Connection
  actions : List Action
  result : receive h c bytes ≡ some (after, actions)
  ready : Ready n after.read_buf
  same : content after.read_buf ≡ rest
  given : messages_of actions ≡ texts
  deque : after.send_buf_deque ≡ c.send_buf_deque

mul-suc : (n a : ℕ) → suc n * a ≡ a + n * a
mul-suc n a = grind arith

space_left :
    (n l l' e e' : ℕ)
    → e' ≡ e
    → l' ≤ l + 4096 + e
    → l + suc n * (4096 + e) < 2 ^ 64
    → l' + n * (4096 + e') < 2 ^ 64
space_left n l l' e e' p h s =
    omega (arith, h, s, mul-suc n (4096 + e), ap (λ (k : ℕ). n * (4096 + k)) p)

length-le-frames : (h : Host) (texts : List (List ℕ)) → length texts ≤ length (frames h texts)
unfolding frames
length-le-frames h [] = omega arith
length-le-frames h (text ∷ texts) = omega (
  arith,
  length-le-frames h texts,
  length-append (frame h text) (frames h texts),
  length-frame h text,
)

module _ (h : Host) (n : ℕ) (c : Connection) (bytes : List ℕ) (r : Ready (suc n) c.read_buf)
    (some_bytes : 0 < length bytes) (few : length bytes ≤ 4096) where
  abbrev filled : DynamicBuffer
  filled = written r.valid bytes (length bytes) refl some_bytes (omega (arith, r.room))

  filled-IsValid : IsValid filled
  filled-IsValid =
      written-IsValid r.valid bytes (length bytes) refl some_bytes (omega (arith, r.room))

  content-filled : content filled ≡ content c.read_buf ++ bytes
  content-filled =
      content-written r.valid bytes (length bytes) refl some_bytes (omega (arith, r.room))

  length-filled : length filled.char_vector ≡ length c.read_buf.char_vector
  length-filled =
      length-written r.valid bytes (length bytes) refl some_bytes (omega (arith, r.room))

  receive-Received :
      (texts : List (List ℕ)) (rest : List ℕ)
      → All Fits texts
      → Waits h rest
      → content c.read_buf ++ bytes ≡ frames h texts ++ rest
      → Received h n c bytes texts rest
  unfolding receive fill on_recv_message write start_recv
  receive-Received texts rest fits w e =
      let (b', loop, v', same, keeps) =
        recv_loop-frames h (suc (data_bytes filled)) filled texts rest filled-IsValid fits w
          (content-filled ∙ e)
          (omega (
            arith,
            sym (length-content filled-IsValid) ∙ ap length (content-filled ∙ e),
            length-append (frames h texts) rest,
            length-le-frames h texts,
          )) in
      let x : Reserved b' 4096 =
        reserve-Reserved b' 4096 v'
          (omega (arith, r.space, length-filled, ap length keeps.0, keeps.1)) in
      let bytes_come : (length bytes == 0) ≡ false = ground arith in
      record {
        after = record c { read_buf = x.buffer };
        actions = map message texts ++ async_read (available_bytes x.buffer) ∷ [];
        result =
            rw
              (
                le→leb (c.read_buf.write_index + length bytes) (length c.read_buf.char_vector)
                    (omega (arith, r.room, available_bytes_lem r.valid)),
                bytes_come,
                loop,
                x.result,
                lt→ltb x.buffer.write_index (length x.buffer.char_vector)
                    (omega (arith, available_bytes_lem x.valid, x.room)),
              )
              refl;
        ready = record {
          valid = x.valid;
          room = x.room;
          space =
              space_left n (length c.read_buf.char_vector) (length x.buffer.char_vector)
                c.read_buf.expand_size x.buffer.expand_size (x.expand ∙ keeps.1)
                (omega (arith, x.grown, length-filled, ap length keeps.0, keeps.1)) r.space;
        };
        same = x.same ∙ same;
        given = messages_of-map texts (available_bytes x.buffer);
        deque = refl;
      }

-- What all calls together leave.
abbrev pub ReceivedAll : Host → Connection → List (List ℕ) → List (List ℕ) → Type 0
ReceivedAll h c pieces todo =
    (c' : Connection) × (actions : List Action) × (receive_pieces h c pieces ≡ some (c', actions))
    × (messages_of actions ≡ todo)
    × (content c'.read_buf ≡ [])
    × IsValid c'.read_buf
    × (c'.send_buf_deque ≡ c.send_buf_deque)

All-append : (a b : List (List ℕ)) → All Fits (a ++ b) → All Fits a × All Fits b
All-append [] b h = (tt, h)
All-append (x ∷ a) b (hx, h) = let (p, q) = All-append a b h in ((hx, p), q)

-- A connection that is ready for the socket, and whose buffer holds the start of what is still to
-- come, hands over, in their order, just the messages that the pieces of the stream, joined, carry
-- behind their lengths, wherever the stream is cut: no call faults, and no byte is left at the end.
-- Each piece has from 1 to 4096 bytes, each message less than 2 ^ 32.
pub receive_pieces-frames :
    (h : Host) (c : Connection) (pieces todo : List (List ℕ))
    → Ready (length pieces) c.read_buf
    → Waits h (content c.read_buf)
    → All (λ p. (0 < length p) × (length p ≤ 4096)) pieces
    → All Fits todo
    → content c.read_buf ++ stream pieces ≡ frames h todo
    → ReceivedAll h c pieces todo
unfolding receive_pieces stream
receive_pieces-frames h c [] todo r w ps fits e =
    let (none_left, empty) =
      no_wait h (content c.read_buf) todo fits w (sym (append-nil (content c.read_buf)) ∙ e) in
    (c, [], refl, unfold messages_of in sym none_left, empty, r.valid, refl)
receive_pieces-frames h c (bytes ∷ pieces) todo r w ((p, p'), ps) fits e =
    let d : Divided h (content c.read_buf ++ bytes) (stream pieces) todo =
      divide h (content c.read_buf ++ bytes) (stream pieces) todo fits
        (append_assoc (content c.read_buf) bytes (stream pieces) ∙ e) in
    let (fits₁, fits₂) = All-append d.texts d.left (subst (All Fits) d.all_texts fits) in
    let x =
      receive-Received h (length pieces) c bytes r p p' d.texts d.rest fits₁ d.waits d.front in
    let (c', actions, result, given, empty, valid, deque) =
      receive_pieces-frames h x.after pieces d.left x.ready (subst (Waits h) (sym x.same) d.waits)
        ps fits₂ (ap (λ (l : List ℕ). l ++ stream pieces) x.same ∙ d.behind) in
    (
      c',
      x.actions ++ actions,
      rw (x.result, result) refl,
      messages_of-append x.actions actions ∙ rw (x.given, given) (sym d.all_texts),
      empty,
      valid,
      deque ∙ x.deque,
    )
