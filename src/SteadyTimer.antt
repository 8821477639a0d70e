-- ===== src/SteadyTimer.antt =====
-- The timer of asio/src/steady_timer.cc, on top of the timer service. Times are milliseconds; the
-- timeout is not negative.
pub mod Due
mod Tests
use lcy.Prelude.{ℕ, ◌+◌, ◌-◌, ◌*◌, ◌/◌, ◌%◌, Option, none, some, List, [], ◌∷◌, ◌>>=◌}
use lcy.Prelude.Int.{ℤ, pos, negsuc}
use lcy.TimerService.{
  ErrCode, success, eopcanceled, eopexists, Timespec, TimerService, Calls, register_timer,
  cancel_timer,
}

pub record SteadyTimer : Type 0 where
  pub timeout : ℕ
  pub timer_id : ℤ

-- The constructor: -1 is no timer's id.
abbrev pub steady_timer : ℕ → SteadyTimer
steady_timer timeout = record { timeout = timeout; timer_id = negsuc 0 }

-- What the user's operation is called with: the error and the time since the start; `now` is read
-- when it is called.
unfoldable pub timer_op_wrap : ℕ → ErrCode → ℕ → ErrCode × ℕ
timer_op_wrap start success now = (success, now - start)
timer_op_wrap start eopcanceled now = (eopcanceled, 0)
timer_op_wrap start eopexists now = (eopexists, 0)

abbrev pub to_timespec : ℕ → Timespec
to_timespec timeout = record { tv_sec = timeout / 1000; tv_nsec = timeout % 1000 * 1000000 }

-- `async_wait`, where `op` stands for the user's operation with the start bound in.
unfoldable pub async_wait :
    ℕ → ℕ → ℕ → SteadyTimer → TimerService → SteadyTimer × TimerService × Calls
async_wait now now' op t s =
    let (timer_id, s', calls) = register_timer now now' t.timer_id op (to_timespec t.timeout) s in
    (record t { timer_id = timer_id }, s', calls)

-- `cancel`, and the destructor
unfoldable pub cancel : ℕ → SteadyTimer → TimerService → Option (SteadyTimer × TimerService × Calls)
cancel now t s = do
  (s', calls) ← cancel_timer now t.timer_id s
  some (record t { timer_id = negsuc 0 }, s', calls)
