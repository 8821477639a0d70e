-- ===== src/UdpSocket/Datagram.antt =====
-- A read and a write of asio/src/ip/details/udp_socket.cc: a datagram comes with the address that an
-- answer goes to, and is sent as a whole.
use lcy.Prelude.{
  ℕ, ◌+◌, ◌≤◌, ◌≡◌, ◌≢◌, refl, ap, ◌∙◌, inl, inr, true, List, [], ◌∷◌, ◌++◌, ◌==◌, length, drop,
  arith, take_all, take-append_le, take-append_eq, Bool-cases, Option-cases,
}
use lcy.Prelude.Int.{ℤ, pos}
use lcy.Prelude.Assoc.{lookup, ℤ_keys}
use lcy.Bytes.{Host, load}
use lcy.Buffer.{ConstBuffer}
use lcy.Endpoint.{Endpoint, af_inet, af_inet6, family_of}
use lcy.Reactor.{
  success, Control, Interest, modify, delete, Epoll, reads, writes, Reactor, has_operation,
  remove_operation,
}
use lcy.TcpSocket.{Syscall, value, errno}
use lcy.Reactor.Remove.{Without, remove-Without}
use lcy.UdpSocket.{
  Datagrams, UdpOp, read_op, write_op, Callback, on_read, on_write, stored, address, notify,
  after_recvfrom, after_sendto, call,
}

-- The bytes of a `sockaddr_in` or a `sockaddr_in6`.
pub data IsAddress (h : Host) (a : List ℕ) : Type 0 where
  an_inet : family_of h a ≡ af_inet → length a ≡ 16 → IsAddress h a
  an_inet6 : family_of h a ≡ af_inet6 → length a ≡ 28 → IsAddress h a

family-append :
    (h : Host) (a rest : List ℕ) → 2 ≤ length a → family_of h (a ++ rest) ≡ family_of h a
family-append h a rest le = ap (load h) (take-append_le 2 a rest le)

stored_whole :
    (e : Endpoint) (a : List ℕ)
    → length a ≤ 28
    → (stored e a).native ≡ a ++ drop (0 + length a) e.native
stored_whole e a le = rw (take_all 28 a le) refl

address-stored : (h : Host) (e : Endpoint) (a : List ℕ) → IsAddress h a → address h (stored e a) ≡ a
address-stored h e a (an_inet family size) =
    let rest = drop (0 + length a) e.native in
    let at : family_of h (a ++ rest) ≡ af_inet =
      family-append h a rest (omega (arith, size)) ∙ family in
    rw (stored_whole e a (omega (arith, size)), at) (take-append_eq 16 a rest size)
address-stored h e a (an_inet6 family size) =
    let rest = drop (0 + length a) e.native in
    let at : family_of h (a ++ rest) ≡ af_inet6 =
      family-append h a rest (omega (arith, size)) ∙ family in
    rw (stored_whole e a (omega (arith, size)), at) (take-append_eq 28 a rest size)

-- The datagrams that the system has taken from a descriptor so far, in order, each with its address: a
-- `sendto` takes all of its bytes as one datagram, or none where it fails; epoll takes none.
pub record Atomic {World : Type 0} (epoll : Epoll World) (sockets : Datagrams World)
    (out : World → ℤ → List (List ℕ × List ℕ)) : Type 0 where
  pub takes :
      (fd : ℤ) (bytes a : List ℕ) (w w' : World) (n : ℕ)
      → sockets.sendto fd bytes a w ≡ (w', value n)
      → (n ≡ length bytes) × (out w' fd ≡ out w fd ++ ((a, bytes) ∷ []))
  pub fails :
      (fd : ℤ) (bytes a : List ℕ) (w w' : World) (e : ℕ)
      → sockets.sendto fd bytes a w ≡ (w', errno e)
      → (e ≢ 0) × (out w' fd ≡ out w fd)
  pub keeps :
      (c : Control) (fd j : ℤ) (i : Interest) (w : World)
      → out (epoll.control c fd i w).0 j ≡ out w j

module _ {World : Type 0} (h : Host) (epoll : Epoll World) (sockets : Datagrams World)
    (user : Callback → Reactor UdpOp World → Reactor UdpOp World) where
  -- A read operation that the reactor calls when a datagram has come from an address of one of the two
  -- families: the user is told its bytes, and in the endpoint that the read was given, whatever it
  -- held, the system sees just the address of the sender from then on, so that an answer to the endpoint
  -- goes there.
  pub read_op-stored :
      (fd : ℤ) (n : ℕ) (e : Endpoint) (u : ℕ) (s : Reactor UdpOp World) (w : World)
      (bytes sender : List ℕ)
      → IsAddress h sender
      → sockets.recvfrom fd n
          (remove_operation epoll (notify h epoll sockets user) reads fd s).world
        ≡ (w, value (bytes, sender))
      → (call h epoll sockets user (read_op fd n e u) success s
          ≡ user
              (on_read u success bytes (stored e sender))
              (record (remove_operation epoll (notify h epoll sockets user) reads fd s) {
                world = w;
              }))
        × (address h (stored e sender) ≡ sender)
  unfolding call
  read_op-stored fd n e u s w bytes sender known got = (
    ap
        (after_recvfrom h epoll sockets user e u
          (remove_operation epoll (notify h epoll sockets user) reads fd s))
        got,
    address-stored h e sender known,
  )

  module _ (out : World → ℤ → List (List ℕ × List ℕ)) where
    -- What a call of a write operation does, from a first state to a last one. The operation is taken out
    -- of the reactor, and no other with it. Then the whole buffer leaves as one datagram for the
    -- endpoint's address, and the user is told of all its bytes; or the system fails, nothing leaves,
    -- and the user is told the error.
    pub data Sends (fd : ℤ) (a : List ℕ) (cbuf : ConstBuffer) (sent u : ℕ)
        (first : Reactor UdpOp World) : Reactor UdpOp World → Type 0 where
      whole :
          (s r : Reactor UdpOp World)
          → Without writes fd first s
          → out s.world fd ≡ out first.world fd ++ ((a, cbuf) ∷ [])
          → r ≡ user (on_write u success (sent + length cbuf)) s
          → Sends fd a cbuf sent u first r
      broken :
          (e : ℕ) (s r : Reactor UdpOp World)
          → e ≢ 0
          → Without writes fd first s
          → out s.world fd ≡ out first.world fd
          → r ≡ user (on_write u (pos e) sent) s
          → Sends fd a cbuf sent u first r

    module _ (laws : Atomic epoll sockets out) where
      removed_keeps :
          (fd j : ℤ) (s : Reactor UdpOp World)
          → out (remove_operation epoll (notify h epoll sockets user) writes fd s).world j
            ≡ out s.world j
      unfolding remove_operation
      removed_keeps fd j s = elim (Option-cases (lookup fd s.fd_opinfo_umap)) [
        | inl e ↦ rw e refl
        | inr (i, e) ↦ elim (Bool-cases (has_operation writes i)) [
          | inr n ↦ rw (e, n) refl
          | inl n ↦ elim (Option-cases i.read_op) [
            | inl m ↦ rw (e, n, m) (laws.keeps delete fd j _ s.world)
            | inr (x, m) ↦ rw (e, n, m) (laws.keeps modify fd j _ s.world)
          ]
        ]
      ]

      sendto-Sends :
          (fd : ℤ) (e : Endpoint) (cbuf : ConstBuffer) (sent u : ℕ) (first s : Reactor UdpOp World)
          (r : World × Syscall ℕ)
          → sockets.sendto fd cbuf (address h e) s.world ≡ r
          → Without writes fd first s
          → out s.world fd ≡ out first.world fd
          → Sends fd
              (address h e)
              cbuf
              sent
              u
              first
              (after_sendto h epoll sockets user fd e cbuf sent u s r)
      sendto-Sends fd e cbuf sent u first s (w, errno n) got gone b =
          let (bad, same) = laws.fails fd cbuf (address h e) s.world w n got in
          broken n (record s { world = w }) _ bad gone (same ∙ b) refl
      sendto-Sends fd e cbuf sent u first s (w, value n) got gone b =
          let (all, new) = laws.takes fd cbuf (address h e) s.world w n got in
          let count : (n == length cbuf) ≡ true = ground (arith, all) in
          rw count (
            whole (record s { world = w }) _ gone
              (new ∙ ap (λ l. l ++ ((address h e, cbuf) ∷ [])) b)
              (ap (λ (k : ℕ). user (on_write u success (sent + k)) (record s { world = w })) all))

      -- A write operation that the reactor calls when its descriptor can be written sends the buffer as
      -- `Sends` describes: it is taken out of the reactor, so that it is not called again; the buffer
      -- leaves as one datagram for the address of its endpoint, or not at all, and the user is told
      -- which.
      pub write_op-Sends :
          (fd : ℤ) (e : Endpoint) (cbuf : ConstBuffer) (sent u : ℕ) (s : Reactor UdpOp World)
          → Sends fd
              (address h e)
              cbuf
              sent
              u
              s
              (call h epoll sockets user (write_op fd e cbuf sent u) success s)
      unfolding call
      write_op-Sends fd e cbuf sent u s =
          let s' = remove_operation epoll (notify h epoll sockets user) writes fd s in
          sendto-Sends fd e cbuf sent u s s' (sockets.sendto fd cbuf (address h e) s'.world) refl
            (remove-Without epoll (notify h epoll sockets user) writes fd s) (removed_keeps fd fd s)
