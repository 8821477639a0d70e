-- ===== src/UdpSocket.antt =====
-- The sockets of asio/src/ip/details/udp_socket.cc on top of the reactor. The system's calls are a
-- parameter; so is what the user's callback does, which may use the reactor again.
pub mod Datagram
mod Tests
use lcy.Prelude.{ℕ, ◌+◌, Bool, List, [], ◌∷◌, ◌==◌, if◌then◌else◌, length, take}
use lcy.Prelude.Int.{ℤ, pos, negsuc}
use lcy.Prelude.Assoc.{eqz}
use lcy.Bytes.{Host}
use lcy.Buffer.{ConstBuffer, advance}
use lcy.Endpoint.{Endpoint, overlay, sock_length}
use lcy.Reactor.{
  ErrCode, success, Epoll, Side, reads, writes, Reactor, register_operation, remove_operation,
  cancel_all_operations, cancel_operation,
}
use lcy.TcpSocket.{Syscall, value, errno}

-- `recvfrom` with the room for bytes, which gives a datagram and the address of its sender, `sendto` of
-- bytes to an address, `socket` of a family, `bind`, `setsockopt` with SO_REUSEADDR, `close`, and
-- `shutdown` of a side.
pub record Datagrams (World : Type 0) : Type 0 where
  pub recvfrom : ℤ → ℕ → World → World × Syscall (List ℕ × List ℕ)
  pub sendto : ℤ → List ℕ → List ℕ → World → World × Syscall ℕ
  pub socket : ℕ → World → World × Syscall ℤ
  pub bind : ℤ → List ℕ → World → World × Syscall (Unit {0})
  pub reuse_addr : ℤ → World → World × Syscall (Unit {0})
  pub close : ℤ → World → World × Syscall (Unit {0})
  pub shut : Side → ℤ → World → World × Syscall (Unit {0})

-- The operations that are bound for the reactor; the last number is the user's callback. A read refers
-- to an endpoint of the user, of which it keeps what is there.
pub data UdpOp : Type 0 where
  read_op : ℤ → ℕ → Endpoint → ℕ → UdpOp
  write_op : ℤ → Endpoint → ConstBuffer → ℕ → ℕ → UdpOp

-- What a user's callback is called with; a read has stored bytes, and an address in the endpoint.
pub data Callback : Type 0 where
  on_read : ℕ → ErrCode → List ℕ → Endpoint → Callback
  on_write : ℕ → ErrCode → ℕ → Callback

-- `recvfrom` is given room for a `sockaddr_in6`, 28 bytes, in the endpoint.
abbrev pub stored : Endpoint → List ℕ → Endpoint
stored e sender = record { native = overlay 0 (take 28 sender) e.native }

-- What a call of the system that returns 0 or an error comes to.
abbrev pub code_of : Syscall (Unit {0}) → ErrCode
code_of (value x) = success
code_of (errno e) = pos e

-- What the system sees of an endpoint.
abbrev pub address : Host → Endpoint → List ℕ
address h e = take (sock_length h e) e.native

module _ {World : Type 0} (h : Host) (epoll : Epoll World) (sockets : Datagrams World)
    (user : Callback → Reactor UdpOp World → Reactor UdpOp World) where
  -- The branch of each wrapper for an error, which only tells the user.
  unfoldable pub notify : UdpOp → ErrCode → Reactor UdpOp World → Reactor UdpOp World
  notify (read_op fd n e u) ec s = user (on_read u ec [] e) s
  notify (write_op fd e cbuf sent u) ec s = user (on_write u ec sent) s

  abbrev pub after_recvfrom :
      Endpoint → ℕ → Reactor UdpOp World → World × Syscall (List ℕ × List ℕ) → Reactor UdpOp World
  after_recvfrom e u s (w, errno n) = user (on_read u (pos n) [] e) (record s { world = w })
  after_recvfrom e u s (w, value (bytes, sender)) =
      user (on_read u success bytes (stored e sender)) (record s { world = w })

  -- `read_op_wrap` without an error
  abbrev pub read_op_wrap : ℤ → ℕ → Endpoint → ℕ → Reactor UdpOp World → Reactor UdpOp World
  read_op_wrap fd n e u s =
      let s' = remove_operation epoll notify reads fd s in
      after_recvfrom e u s' (sockets.recvfrom fd n s'.world)

  -- The reactor calls an operation that it refuses only with an error, for which `notify` is what
  -- the wrapper does.
  abbrev pub after_sendto :
      ℤ
      → Endpoint
      → ConstBuffer
      → ℕ
      → ℕ
      → Reactor UdpOp World
      → World × Syscall ℕ
      → Reactor UdpOp World
  after_sendto fd e cbuf sent u s (w, errno n) =
      user (on_write u (pos n) sent) (record s { world = w })
  after_sendto fd e cbuf sent u s (w, value n) =
      if n == length cbuf
      then user (on_write u success (sent + n)) (record s { world = w })
      else register_operation epoll notify writes fd (write_op fd e (advance cbuf n) (sent + n) u)
          (record s { world = w })

  -- `write_op_wrap` without an error
  abbrev pub write_op_wrap :
      ℤ → Endpoint → ConstBuffer → ℕ → ℕ → Reactor UdpOp World → Reactor UdpOp World
  write_op_wrap fd e cbuf sent u s =
      let s' = remove_operation epoll notify writes fd s in
      after_sendto fd e cbuf sent u s' (sockets.sendto fd cbuf (address h e) s'.world)

  abbrev pub wrap : UdpOp → Reactor UdpOp World → Reactor UdpOp World
  wrap (read_op fd n e u) s = read_op_wrap fd n e u s
  wrap (write_op fd e cbuf sent u) s = write_op_wrap fd e cbuf sent u s

  -- What runs when the reactor calls an operation.
  unfoldable pub call : UdpOp → ErrCode → Reactor UdpOp World → Reactor UdpOp World
  call op ec s = if eqz ec success then wrap op s else notify op ec s

  abbrev pub async_read : ℤ → Endpoint → ℕ → ℕ → Reactor UdpOp World → Reactor UdpOp World
  async_read fd e n u s = register_operation epoll call reads fd (read_op fd n e u) s

  abbrev pub async_write :
      ℤ → Endpoint → ConstBuffer → ℕ → Reactor UdpOp World → Reactor UdpOp World
  async_write fd e cbuf u s = register_operation epoll call writes fd (write_op fd e cbuf 0 u) s

  -- A socket is its descriptor, -1 where it is closed. `cancel`
  abbrev pub cancel : ℤ → Reactor UdpOp World → Reactor UdpOp World
  cancel fd s = cancel_all_operations epoll call fd s

  abbrev pub closed :
      ℤ → Reactor UdpOp World → World × Syscall (Unit {0}) → ErrCode × ℤ × Reactor UdpOp World
  closed fd s (w, value x) = (success, negsuc 0, record s { world = w })
  closed fd s (w, errno n) = (pos n, fd, record s { world = w })

  -- `shutdown`: the code it returns and the descriptor it leaves
  unfoldable pub shutdown : ℤ → Reactor UdpOp World → ErrCode × ℤ × Reactor UdpOp World
  shutdown fd s =
      let s' = cancel fd s in
      if eqz fd (negsuc 0)
      then (success, negsuc 0, s')
      else closed fd s' (sockets.close fd s'.world)

  abbrev pub opened : Reactor UdpOp World → World × Syscall ℤ → ErrCode × ℤ × Reactor UdpOp World
  opened s (w, value fd) = (success, fd, record s { world = w })
  opened s (w, errno n) = (pos n, negsuc 0, record s { world = w })

  -- `open` of a family, which closes what is open
  unfoldable pub open_socket : ℕ → ℤ → Reactor UdpOp World → ErrCode × ℤ × Reactor UdpOp World
  unfolding shutdown
  open_socket family fd s =
      let s' = if eqz fd (negsuc 0) then s else (shutdown fd s).2 in
      opened s' (sockets.socket family s'.world)

  abbrev with_code :
      Reactor UdpOp World → World × Syscall (Unit {0}) → ErrCode × Reactor UdpOp World
  with_code s (w, r) = (code_of r, record s { world = w })

  abbrev pub bind_to : Endpoint → ℤ → Reactor UdpOp World → ErrCode × Reactor UdpOp World
  bind_to e fd s = with_code s (sockets.bind fd (address h e) s.world)

  abbrev pub set_reuse_addr : ℤ → Reactor UdpOp World → ErrCode × Reactor UdpOp World
  set_reuse_addr fd s = with_code s (sockets.reuse_addr fd s.world)

  -- `shutdownRead` and `shutdownWrite`
  abbrev pub shutdown_side : Side → ℤ → Reactor UdpOp World → ErrCode × Reactor UdpOp World
  shutdown_side side fd s =
      let s' = cancel_operation epoll call side fd s in with_code s' (sockets.shut side fd s'.world)
