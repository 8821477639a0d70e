-- ===== src/SteadyTimer/Due.antt =====
-- A timer of asio/src/steady_timer.cc is called when its timeout is over, and not before.
use lcy.Prelude.{ℕ, ◌+◌, ◌≤◌, ◌<◌, ◌≡◌, ◌++◌, All}
use lcy.TimerService.{success, Timer, Timers, TimerService}
use lcy.SteadyTimer.{SteadyTimer, timer_op_wrap}

-- The timer at an address has this time.
abbrev At : ℕ → ℕ → Timer → Type 0
At address time u = u.address ≡ address → u.absolute_time ≡ time

-- What the expiry at the time `at` does with the timer at an address that was started at `start`
-- with a timeout: where it calls the timer, the time it reports is at least the timeout, and
-- where it does not, the timeout is not over.
pub record OnTime (address start now timeout : ℕ) (s s' : TimerService) (at : ℕ) : Type 0 where
  pub expired : Timers
  pub split : s.timer_mset ≡ expired ++ s'.timer_mset
  pub called :
      All
        (λ u.
          u.address ≡ address
          → (clock : ℕ) → at ≤ clock
          → timeout ≤ (timer_op_wrap start success clock).1)
        expired
  pub waits : All (λ u. u.address ≡ address → at < now + timeout) s'.timer_mset
