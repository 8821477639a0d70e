-- ===== src/TcpSocket/Write.antt =====
-- A write of asio/src/ip/details/tcp_socket.cc, which sends a buffer in as many parts as the system
-- takes.
use lcy.Prelude.{
  ℕ, zero, suc, ◌+◌, ◌≤◌, ◌<◌, ◌≡◌, ◌≢◌, refl, ap, ◌∙◌, inl, inr, List, [], ◌∷◌, ◌++◌, ◌==◌, length,
  take, drop, arith, append_assoc, take_all, ==→eq, ==→ne, ge→ltb, Bool-cases, Option-cases,
}
use lcy.Prelude.Int.{ℤ, pos}
use lcy.Prelude.Assoc.{lookup, ℤ_keys}
use lcy.Buffer.{ConstBuffer, advance}
use lcy.Reactor.{
  success, Control, Interest, modify, delete, Epoll, writes, Reactor, has_operation,
  register_operation, remove_operation,
}
use lcy.Reactor.Remove.{Without, remove-Without}
use lcy.TcpSocket.{
  Syscall, value, errno, Sockets, SocketOp, write_op, Callback, on_write, notify, after_send, call,
}

-- The bytes that the system has taken from a descriptor so far, in order: `send` takes as many of
-- its bytes as it says, from the front, or none where it fails; epoll takes none.
pub record Streams {World : Type 0} (epoll : Epoll World) (sockets : Sockets World)
    (stream : World → ℤ → List ℕ) : Type 0 where
  pub takes :
      (fd : ℤ) (bytes : List ℕ) (w w' : World) (n : ℕ)
      → sockets.send fd bytes w ≡ (w', value n)
      → (n ≤ length bytes) × (stream w' fd ≡ stream w fd ++ take n bytes)
  pub fails :
      (fd : ℤ) (bytes : List ℕ) (w w' : World) (e : ℕ)
      → sockets.send fd bytes w ≡ (w', errno e)
      → (e ≢ 0) × (stream w' fd ≡ stream w fd)
  pub keeps :
      (c : Control) (fd j : ℤ) (i : Interest) (w : World)
      → stream (epoll.control c fd i w).0 j ≡ stream w j

take-drop : (n : ℕ) (xs : List ℕ) → take n xs ++ drop n xs ≡ xs
take-drop zero xs = refl
take-drop (suc n) [] = refl
take-drop (suc n) (x ∷ xs) = ap (◌∷◌ x) (take-drop n xs)

advance_inside : (b : ConstBuffer) (n : ℕ) → n ≤ length b → advance b n ≡ drop n b
unfolding advance
advance_inside b n h = rw (ge→ltb (length b) n h) refl

module _ {World : Type 0} (epoll : Epoll World) (sockets : Sockets World)
    (user : Callback → Reactor SocketOp World → Reactor SocketOp World)
    (stream : World → ℤ → List ℕ) where
  -- What a call of a write operation does, from a first state to a last one. In each case the operation
  -- is registered no more when the next thing is done, and all others are. The rest of the buffer is
  -- sent, and the user told how much was sent in all; or the system fails, no byte is sent, and the
  -- user is told so with what was sent before; or a part of the rest is sent, and an operation for
  -- what is left, which takes the count along, is registered where there is none.
  pub data Progress (fd : ℤ) (cbuf : ConstBuffer) (sent u : ℕ) (first : Reactor SocketOp World)
      : Reactor SocketOp World → Type 0 where
    finished :
        (s r : Reactor SocketOp World)
        → Without writes fd first s
        → stream s.world fd ≡ stream first.world fd ++ cbuf
        → r ≡ user (on_write u success (sent + length cbuf)) s
        → Progress fd cbuf sent u first r
    broken :
        (e : ℕ) (s r : Reactor SocketOp World)
        → e ≢ 0
        → Without writes fd first s
        → stream s.world fd ≡ stream first.world fd
        → r ≡ user (on_write u (pos e) sent) s
        → Progress fd cbuf sent u first r
    goes_on :
        (n : ℕ) (s r : Reactor SocketOp World)
        → n < length cbuf
        → Without writes fd first s
        → stream s.world fd ++ drop n cbuf ≡ stream first.world fd ++ cbuf
        → stream s.world fd ≡ stream first.world fd ++ take n cbuf
        → r
          ≡ register_operation epoll
              (notify epoll sockets user)
              writes
              fd
              (write_op fd (drop n cbuf) (sent + n) u)
              s
        → Progress fd cbuf sent u first r

  module _ (laws : Streams epoll sockets stream) where
    removed_keeps :
        (fd j : ℤ) (s : Reactor SocketOp World)
        → stream (remove_operation epoll (notify epoll sockets user) writes fd s).world j
          ≡ stream s.world j
    unfolding remove_operation
    removed_keeps fd j s = elim (Option-cases (lookup fd s.fd_opinfo_umap)) [
      | inl e ↦ rw e refl
      | inr (i, e) ↦ elim (Bool-cases (has_operation writes i)) [
        | inr n ↦ rw (e, n) refl
        | inl n ↦ elim (Option-cases i.read_op) [
          | inl m ↦ rw (e, n, m) (laws.keeps delete fd j _ s.world)
          | inr (x, m) ↦ rw (e, n, m) (laws.keeps modify fd j _ s.world)
        ]
      ]
    ]

    send-Progress :
        (fd : ℤ) (cbuf : ConstBuffer) (sent u : ℕ) (first s : Reactor SocketOp World)
        (r : World × Syscall ℕ)
        → sockets.send fd cbuf s.world ≡ r
        → Without writes fd first s
        → stream s.world fd ≡ stream first.world fd
        → Progress fd cbuf sent u first (after_send epoll sockets user fd cbuf sent u s r)
    send-Progress fd cbuf sent u first s (w, errno e) h gone b =
        let (bad, same) = laws.fails fd cbuf s.world w e h in
        broken e (record s { world = w }) _ bad gone (same ∙ b) refl
    send-Progress fd cbuf sent u first s (w, value n) h gone b =
        let (le, new) = laws.takes fd cbuf s.world w n h in
        let grown : stream w fd ≡ stream first.world fd ++ take n cbuf =
          new ∙ ap (λ (l : List ℕ). l ++ take n cbuf) b in
        elim (Bool-cases (n == length cbuf)) [
          | inl e ↦
              let all : n ≡ length cbuf = ==→eq n (length cbuf) e in
              rw e (
                finished (record s { world = w }) _ gone
                  (grown ∙ ap (◌++◌ (stream first.world fd)) (take_all n cbuf (omega (arith, all))))
                  (ap (λ (k : ℕ). user (on_write u success (sent + k)) (record s { world = w }))
                    all))
          | inr e ↦
              rw (e, advance_inside cbuf n le)
                (goes_on n (record s { world = w }) _ (omega (arith, le, ==→ne n (length cbuf) e))
                  gone
                  (ap (λ (l : List ℕ). l ++ drop n cbuf) grown
                    ∙ append_assoc (stream first.world fd) (take n cbuf) (drop n cbuf)
                    ∙ ap (◌++◌ (stream first.world fd)) (take-drop n cbuf))
                  grown refl)
        ]

    -- A write operation that the reactor calls when its descriptor can be written makes the progress
    -- that `Progress` describes: it is taken out of the reactor, and no other with it; whatever part of
    -- the buffer the system takes, no byte is left out or sent twice, what is still to be sent is
    -- registered with the count so far, and the user is told of the end just when all is sent, or of
    -- the system's error.
    pub write_op-Progress :
        (fd : ℤ) (cbuf : ConstBuffer) (sent u : ℕ) (s : Reactor SocketOp World)
        → Progress fd cbuf sent u s (call epoll sockets user (write_op fd cbuf sent u) success s)
    unfolding call
    write_op-Progress fd cbuf sent u s =
        let s' = remove_operation epoll (notify epoll sockets user) writes fd s in
        send-Progress fd cbuf sent u s s' (sockets.send fd cbuf s'.world) refl
          (remove-Without epoll (notify epoll sockets user) writes fd s) (removed_keeps fd fd s)
