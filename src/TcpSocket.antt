-- ===== src/TcpSocket.antt =====
-- The sockets of asio/src/ip/details/tcp_socket.cc on top of the reactor. The system's calls are a
-- parameter; so is what the user's callback does, which may use the reactor again.
pub mod Hangups
pub mod Write
mod Tests
use lcy.Prelude.{
  ℕ, zero, suc, ◌+◌, Bool, true, false, Option, none, some, List, [], ◌∷◌, ◌==◌, if◌then◌else◌,
  length,
}
use lcy.Prelude.Int.{ℤ, pos, negsuc}
use lcy.Prelude.Assoc.{eqz}
use lcy.Buffer.{ConstBuffer, advance}
use lcy.Reactor.{
  ErrCode, success, Epoll, Side, reads, writes, Reactor, register_operation, remove_operation,
  cancel_all_operations, cancel_operation,
}

-- What a call of the system returns: a value, or an `errno`.
pub data Syscall (A : Type 0) : Type 0 where
  value : A → Syscall A
  errno : ℕ → Syscall A

-- `recv` with the room for bytes, `send`, `accept`, the error that `getsockopt` finds for a
-- `connect`, `connect` to an address, `close`, and `socket` of a family.
pub record Sockets (World : Type 0) : Type 0 where
  pub recv : ℤ → ℕ → World → World × Syscall (List ℕ)
  pub send : ℤ → List ℕ → World → World × Syscall ℕ
  pub accept : ℤ → World → World × Syscall ℤ
  pub so_error : ℤ → World → ℕ
  pub connect : ℤ → List ℕ → World → World × Syscall (Unit {0})
  pub close : ℤ → World → World × Syscall (Unit {0})
  pub socket : ℕ → World → World × Syscall ℤ

-- The operations that are bound for the reactor; the last number is the user's callback.
pub data SocketOp : Type 0 where
  read_op : ℤ → ℕ → ℕ → SocketOp
  write_op : ℤ → ConstBuffer → ℕ → ℕ → SocketOp
  accept_op : ℤ → ℕ → SocketOp
  connect_op : ℤ → ℕ → SocketOp

-- What a user's callback is called with; a read has stored bytes, an accept a descriptor.
pub data Callback : Type 0 where
  on_read : ℕ → ErrCode → List ℕ → Callback
  on_write : ℕ → ErrCode → ℕ → Callback
  on_accept : ℕ → ErrCode → Option ℤ → Callback
  on_connect : ℕ → ErrCode → Callback

module _ {World : Type 0} (epoll : Epoll World) (sockets : Sockets World)
    (user : Callback → Reactor SocketOp World → Reactor SocketOp World) where
  -- The branch of each wrapper for an error, which only tells the user.
  unfoldable pub notify : SocketOp → ErrCode → Reactor SocketOp World → Reactor SocketOp World
  notify (read_op fd n u) ec s = user (on_read u ec []) s
  notify (write_op fd cbuf sent u) ec s = user (on_write u ec sent) s
  notify (accept_op fd u) ec s = user (on_accept u ec none) s
  notify (connect_op fd u) ec s = user (on_connect u ec) s

  abbrev pub after_recv :
      ℕ → Reactor SocketOp World → World × Syscall (List ℕ) → Reactor SocketOp World
  after_recv u s (w, errno e) = user (on_read u (pos e) []) (record s { world = w })
  after_recv u s (w, value bytes) = user (on_read u success bytes) (record s { world = w })

  -- `read_op_wrap` without an error
  abbrev pub read_op_wrap : ℤ → ℕ → ℕ → Reactor SocketOp World → Reactor SocketOp World
  read_op_wrap fd n u s =
      let s' = remove_operation epoll notify reads fd s in
      after_recv u s' (sockets.recv fd n s'.world)

  -- The reactor calls an operation that it refuses only with an error, for which `notify` is what
  -- the wrapper does.
  abbrev pub after_send :
      ℤ → ConstBuffer → ℕ → ℕ → Reactor SocketOp World → World × Syscall ℕ → Reactor SocketOp World
  after_send fd cbuf sent u s (w, errno e) = user (on_write u (pos e) sent) (record s { world = w })
  after_send fd cbuf sent u s (w, value n) =
      if n == length cbuf
      then user (on_write u success (sent + n)) (record s { world = w })
      else register_operation epoll notify writes fd (write_op fd (advance cbuf n) (sent + n) u)
          (record s { world = w })

  -- `write_op_wrap` without an error
  abbrev pub write_op_wrap :
      ℤ → ConstBuffer → ℕ → ℕ → Reactor SocketOp World → Reactor SocketOp World
  write_op_wrap fd cbuf sent u s =
      let s' = remove_operation epoll notify writes fd s in
      after_send fd cbuf sent u s' (sockets.send fd cbuf s'.world)

  abbrev pub after_accept : ℕ → Reactor SocketOp World → World × Syscall ℤ → Reactor SocketOp World
  after_accept u s (w, errno e) =
      user (on_accept u (pos e) (some (negsuc 0))) (record s { world = w })
  after_accept u s (w, value fd) = user (on_accept u success (some fd)) (record s { world = w })

  -- `accept_op_wrap` without an error; the descriptor, -1 where it fails, goes to the new socket.
  abbrev pub accept_op_wrap : ℤ → ℕ → Reactor SocketOp World → Reactor SocketOp World
  accept_op_wrap fd u s =
      let s' = remove_operation epoll notify reads fd s in
      after_accept u s' (sockets.accept fd s'.world)

  -- `connect_op_wrap` without an error
  abbrev pub connect_op_wrap : ℤ → ℕ → Reactor SocketOp World → Reactor SocketOp World
  connect_op_wrap fd u s =
      let s' = remove_operation epoll notify writes fd s in
      user (on_connect u (pos (sockets.so_error fd s'.world))) s'

  abbrev pub wrap : SocketOp → Reactor SocketOp World → Reactor SocketOp World
  wrap (read_op fd n u) s = read_op_wrap fd n u s
  wrap (write_op fd cbuf sent u) s = write_op_wrap fd cbuf sent u s
  wrap (accept_op fd u) s = accept_op_wrap fd u s
  wrap (connect_op fd u) s = connect_op_wrap fd u s

  -- What runs when the reactor calls an operation.
  unfoldable pub call : SocketOp → ErrCode → Reactor SocketOp World → Reactor SocketOp World
  call op ec s = if eqz ec success then wrap op s else notify op ec s

  abbrev pub async_read : ℤ → ℕ → ℕ → Reactor SocketOp World → Reactor SocketOp World
  async_read fd n u s = register_operation epoll call reads fd (read_op fd n u) s

  abbrev pub async_write : ℤ → ConstBuffer → ℕ → Reactor SocketOp World → Reactor SocketOp World
  async_write fd cbuf u s = register_operation epoll call writes fd (write_op fd cbuf 0 u) s

  abbrev pub async_accept : ℤ → ℕ → Reactor SocketOp World → Reactor SocketOp World
  async_accept fd u s = register_operation epoll call reads fd (accept_op fd u) s

  -- EINPROGRESS is 115.
  abbrev pub after_connect :
      ℤ → ℕ → Reactor SocketOp World → World × Syscall (Unit {0}) → Reactor SocketOp World
  after_connect fd u s (w, value x) = user (on_connect u success) (record s { world = w })
  after_connect fd u s (w, errno e) =
      if e == 115
      then register_operation epoll call writes fd (connect_op fd u) (record s { world = w })
      else user (on_connect u (pos e)) (record s { world = w })

  abbrev pub async_connect : ℤ → List ℕ → ℕ → Reactor SocketOp World → Reactor SocketOp World
  async_connect fd address u s = after_connect fd u s (sockets.connect fd address s.world)

  -- A socket is its descriptor, -1 where it is closed. `cancel`
  abbrev pub cancel : ℤ → Reactor SocketOp World → Reactor SocketOp World
  cancel fd s = cancel_all_operations epoll call fd s

  abbrev pub closed :
      ℤ → Reactor SocketOp World → World × Syscall (Unit {0}) → ErrCode × ℤ × Reactor SocketOp World
  closed fd s (w, value x) = (success, negsuc 0, record s { world = w })
  closed fd s (w, errno e) = (pos e, fd, record s { world = w })

  -- `shutdown`: the code it returns and the descriptor it leaves
  abbrev pub shutdown : ℤ → Reactor SocketOp World → ErrCode × ℤ × Reactor SocketOp World
  shutdown fd s =
      let s' = cancel fd s in
      if eqz fd (negsuc 0)
      then (success, negsuc 0, s')
      else closed fd s' (sockets.close fd s'.world)

  abbrev pub opened :
      Reactor SocketOp World → World × Syscall ℤ → ErrCode × ℤ × Reactor SocketOp World
  opened s (w, value fd) = (success, fd, record s { world = w })
  opened s (w, errno e) = (pos e, negsuc 0, record s { world = w })

  -- `open` of a family, which closes what is open
  abbrev pub open_socket : ℕ → ℤ → Reactor SocketOp World → ErrCode × ℤ × Reactor SocketOp World
  open_socket family fd s =
      let s' = if eqz fd (negsuc 0) then s else (shutdown fd s).2 in
      opened s' (sockets.socket family s'.world)

  -- `shutdownRead` and `shutdownWrite`, up to the call of the system
  abbrev pub shutdown_side : Side → ℤ → Reactor SocketOp World → Reactor SocketOp World
  shutdown_side side fd s = cancel_operation epoll call side fd s
