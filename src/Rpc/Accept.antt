-- ===== src/Rpc/Accept.antt =====
-- The server of rpc/src/details/server.cc: it accepts connections one after the other, and deals
-- them to the threads of its pool.
pub mod Turns
use lcy.Prelude.{
  ℕ, zero, suc, Bool, true, false, Option, none, some, List, [], ◌∷◌, ◌++◌, if◌then◌else◌,
}
use lcy.Prelude.Int.{ℤ}
use lcy.Prelude.Assoc.{eqz}
use lcy.Acceptor.{Calls, setup}
use lcy.Reactor.{ErrCode, success}
use lcy.TcpSocket.{Syscall, value, errno}
use lcy.ThreadPool.{ThreadPool, Next, thrown, fault, given, thread_pool, next_context}

-- The pool, whether a user has set `connect_op_`, the operation that waits for a connection (by the
-- thread its connection is for), what `connect_op_` was called with, and the connections that were
-- told to receive, each with the thread whose event loop was given that task.
pub record Server : Type 0 where
  pub io_thread_pool : ThreadPool
  pub connect_op : Bool
  pub accepting : Option ℕ
  pub connected : List ℤ
  pub receiving : List (ℕ × ℤ)

-- The constructor, and `setConnectOp` after it where the flag is set.
abbrev pub new_server : ℕ → Bool → Server
new_server n op = record {
  io_thread_pool = thread_pool n;
  connect_op = op;
  accepting = none;
  connected = [];
  receiving = [];
}

-- `async_accept`, with the code of the reactor's registration of the listening descriptor. Where that
-- fails, as it does for the -1 that a failed `open` leaves, or where an operation waits already, the
-- callback is called with an error, on which it does nothing.
abbrev async_accept : ErrCode → ℕ → Server → Option ℕ → Server
async_accept code i s none = if eqz code success then record s { accepting = some i } else s
async_accept code i s (some j) = s

-- `none`: `nextContext` throws or faults.
abbrev accept_for : ErrCode → Server → Next → Option Server
accept_for code s thrown = none
accept_for code s fault = none
accept_for code s (given i p) =
    some (async_accept code i (record s { io_thread_pool = p }) s.accepting)

-- `start_accept`
unfoldable pub start_accept : ErrCode → Server → Option Server
start_accept code s = accept_for code s (next_context s.io_thread_pool)

-- What the callback does before it accepts again: `connect_op_`, and the task for the thread.
abbrev pub welcome : ℕ → ℤ → Server → Server
welcome i fd s = record s {
  connected = if s.connect_op then s.connected ++ (fd ∷ []) else s.connected;
  receiving = s.receiving ++ ((i, fd) ∷ []);
}

-- The callback of `start_accept`, with the code of the registration that follows
abbrev pub on_accept : ℕ → Syscall ℤ → ErrCode → Server → Option Server
on_accept i (errno e) next s = some s
on_accept i (value fd) next s = start_accept next (welcome i fd s)

abbrev accept_op : Syscall ℤ → ErrCode → Server → Option ℕ → Option Server
accept_op r next s none = some s
accept_op r next s (some i) = on_accept i r next (record s { accepting = none })

-- What the system says when the listening socket is readable: the result of `accept`, and the code of
-- the next registration.
abbrev pub Outcome : Type 0
Outcome = Syscall ℤ × ErrCode

-- The listening socket is readable: the operation that waits is removed, and called with what the
-- system's `accept` returns.
unfoldable pub readable : Outcome → Server → Option Server
readable (r, next) s = accept_op r next s s.accepting

unfoldable pub then_server : Option Server → (Server → Option Server) → Option Server
then_server none f = none
then_server (some s) f = f s

-- One readable event after the other.
unfoldable pub accept_all : List Outcome → Server → Option Server
accept_all [] s = some s
accept_all (r ∷ rs) s = then_server (readable r s) (λ s'. accept_all rs s')

-- `start`, which drops the result of `setup`; with the code of the first registration
unfoldable pub start :
    {World Address : Type 0}
    → Calls World Address
    → Address
    → World
    → ErrCode
    → Server
    → World × Option Server
start calls address w code s = (
  (setup calls address w).0,
  start_accept code (record s { io_thread_pool = lcy.ThreadPool.start s.io_thread_pool }),
)

abbrev stopped_server : Server → Option ThreadPool → Option Server
stopped_server s none = none
stopped_server s (some p) = some (record s { io_thread_pool = p })

-- `stop`, and the destructor: the operation that waits is called with an error, and does nothing.
unfoldable pub stop : Server → Option Server
stop s = stopped_server (record s { accepting = none }) (lcy.ThreadPool.stop s.io_thread_pool)
