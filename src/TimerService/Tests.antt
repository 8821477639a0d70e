-- ===== src/TimerService/Tests.antt =====
-- Runs of the timer service, and the theorems at concrete inputs.
use lcy.Prelude.{ℕ, ◌*◌, ◌≡◌, refl, false, some, List, [], ◌∷◌, arith}
use lcy.Prelude.Int.{pos, negsuc}
use lcy.TimerService.{
  ErrCode, Timespec, it_value, Calls, TimerService, fresh, insert, is_begin, timer_at, erase,
  next_iter, find_id, put_id, erase_id, due, expire_loop, do_all, register_timer, cancel_timer,
  expire_timer_execute,
}
use lcy.TimerService.Inv.{id_at, Valid, register_timer-Valid}
use lcy.TimerService.Cancel.{Cancels, cancel_timer-Cancels}
use lcy.TimerService.Run.{Event, Event, registers, cancels, expires, step, run, Runs, run-Runs}
use lcy.TimerService.Deadline.{clock, Sets, step-Sets}

abbrev millis : ℕ → Timespec
millis n = record { tv_sec = 0; tv_nsec = n * 1000000 }

-- Two timers, the second due first; it expires, and the first is cancelled.
abbrev session : List Event
session =
    registers 100 100 (negsuc 0) 7 (millis 50)
    ∷ registers 101 101 (negsuc 0) 8 (millis 20)
    ∷ registers 102 102 (pos 1) 9 (millis 5)
    ∷ expires 130 130 false
    ∷ cancels 131 (pos 0)
    ∷ []

whole_session :
    run session fresh
    ≡ some (
      record {
        timerfd = record { tv_sec = 0; tv_nsec = 0 };
        id_allocator = 2;
        timer_mset = [];
        id_timer_umap = [];
        heap = 2;
      },
      (9, ErrCode.eopexists) ∷ (8, ErrCode.success) ∷ (7, ErrCode.eopcanceled) ∷ [],
    )
unfolding run step register_timer cancel_timer expire_timer_execute insert is_begin timer_at erase
    next_iter find_id put_id erase_id due expire_loop do_all it_value
whole_session = refl

fresh-Valid : Valid fresh
unfolding find_id id_at it_value due
fresh-Valid = record {
  sorted = tt;
  apart = tt;
  addresses = tt;
  ids = tt;
  indexed = λ i. refl;
  armed = (0, refl);
}

abbrev one_timer : TimerService
one_timer = (register_timer 100 100 (negsuc 0) 7 (millis 50) fresh).1

one_timer-Valid : Valid one_timer
one_timer-Valid =
    register_timer-Valid 100 100 7 (millis 50) fresh fresh-Valid (negsuc 0) (omega arith)

cancel_timer-Cancels_example :
    (s' : TimerService) × (calls : Calls) × (cancel_timer 120 (pos 0) one_timer ≡ some (s', calls))
    × Cancels (pos 0) one_timer s' calls
cancel_timer-Cancels_example = cancel_timer-Cancels 120 (pos 0) one_timer one_timer-Valid

run-Runs_example :
    (s' : TimerService) × (calls : Calls) × (run session fresh ≡ some (s', calls))
    × Runs session fresh s' calls
run-Runs_example = run-Runs session fresh fresh-Valid (omega arith)

step-Sets_example :
    (s' : TimerService) × (calls : Calls) × (step (cancels 130 (pos 0)) one_timer
      ≡ some (s', calls))
    × Sets (clock (cancels 130 (pos 0))) one_timer s'
step-Sets_example = step-Sets (cancels 130 (pos 0)) one_timer one_timer-Valid
