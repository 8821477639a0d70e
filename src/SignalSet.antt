-- ===== src/SignalSet.antt =====
-- asio/src/signal_set.cc: a signal that is blocked and read from a descriptor, on top of the reactor. The
-- system's calls are a parameter; so is what the user's callback does, which may use the reactor again.
pub mod Mask
mod Tests
use lcy.Prelude.{ℕ, Bool, if◌then◌else◌}
use lcy.Prelude.Int.{ℤ, pos, negsuc}
use lcy.Prelude.Assoc.{eqz}
use lcy.Reactor.{
  ErrCode, success, Epoll, reads, Reactor, register_operation, remove_operation,
  cancel_all_operations, cancel_operation,
}

-- `signalfd` of one signal, `pthread_sigmask` to block and to unblock one, `read` of a signal's number,
-- and `close`.
pub record Signals (World : Type 0) : Type 0 where
  pub update : ℤ → ℕ → World → World
  pub block : ℕ → World → World
  pub unblock : ℕ → World → World
  pub read : ℤ → World → World × ℕ
  pub close : ℤ → World → World

-- The operation that is bound for the reactor: the descriptor and the user's callback.
pub data SignalOp : Type 0 where
  signal_op : ℤ → ℕ → SignalOp

-- What a user's callback is called with: its error and the number of a signal, -1 where there is none.
pub data Callback : Type 0 where
  on_signal : ℕ → ErrCode → ℤ → Callback

pub record SignalSet : Type 0 where
  pub signum : ℕ
  pub signal_fd : ℤ

module _ {World : Type 0} (epoll : Epoll World) (signals : Signals World)
    (user : Callback → Reactor SignalOp World → Reactor SignalOp World) where
  -- `signal_op_wrap` on an error
  unfoldable pub notify : SignalOp → ErrCode → Reactor SignalOp World → Reactor SignalOp World
  notify (signal_op fd u) ec s = user (on_signal u ec (negsuc 0)) s

  -- The reactor calls nothing when it removes an operation.
  abbrev pub signal_op_wrap : ℤ → ℕ → Reactor SignalOp World → Reactor SignalOp World
  signal_op_wrap fd u s =
      let s' = remove_operation epoll notify reads fd s in
      let (w, signo) = signals.read fd s'.world in
      user (on_signal u success (pos signo)) (record s' { world = w })

  -- What runs when the reactor calls an operation.
  unfoldable pub call : SignalOp → ErrCode → Reactor SignalOp World → Reactor SignalOp World
  call (signal_op fd u) ec s =
      if eqz ec success then signal_op_wrap fd u s else notify (signal_op fd u) ec s

  -- `async_wait`
  unfoldable pub async_wait : ℕ → SignalSet → Reactor SignalOp World → Reactor SignalOp World
  async_wait u x s =
      let s' = register_operation epoll call reads x.signal_fd (signal_op x.signal_fd u) s in
      record s' { world = signals.block x.signum (signals.update x.signal_fd x.signum s'.world) }

  -- `cancel`
  unfoldable pub cancel : SignalSet → Reactor SignalOp World → Reactor SignalOp World
  cancel x s =
      let s' = cancel_operation epoll call reads x.signal_fd s in
      record s' { world = signals.unblock x.signum s'.world }

  abbrev close_fd : ℤ → World → World
  close_fd fd w = if eqz fd (negsuc 0) then w else signals.close fd w

  -- `~SignalSet`
  unfoldable pub destroy : SignalSet → Reactor SignalOp World → Reactor SignalOp World
  destroy x s =
      let s' = cancel_all_operations epoll call x.signal_fd s in
      record s' { world = signals.unblock x.signum (close_fd x.signal_fd s'.world) }
