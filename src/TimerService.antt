-- ===== src/TimerService.antt =====
-- The timers of asio/src/details/timer_service.cc: a multiset ordered by due time, an index from
-- ids to its nodes, and the one timerfd that wakes the reactor. A node of the multiset is known by
-- the address that `new` gave it; times are milliseconds of the monotonic clock, read from outside
-- (`now`), and an operation is only recorded when it is called, with its error code.
pub mod Inv
pub mod Cancel
pub mod Expire
pub mod Run
pub mod Deadline
mod Tests
use lcy.Prelude.{
  ℕ, ◌+◌, ◌-◌, ◌*◌, ◌/◌, ◌%◌, ◌^◌, Bool, true, false, Option, none, some, List, [], ◌∷◌, ltb, leb,
  ◌==◌, if◌then◌else◌,
}
use lcy.Prelude.Int.{ℤ, pos, negsuc}

-- What a `timer_op_type` is called with
pub data ErrCode : Type 0 where
  success eopcanceled eopexists : ErrCode

pub record Timespec : Type 0 where
  pub tv_sec : ℕ
  pub tv_nsec : ℕ

abbrev pub change_to_ms : Timespec → ℕ
change_to_ms t = t.tv_sec * 1000 + t.tv_nsec / 1000000

-- What `timerfd_settime` is given: zero disarms.
unfoldable pub it_value : ℕ → ℕ → Timespec
it_value now absolute_time =
    if absolute_time == 0
    then record { tv_sec = 0; tv_nsec = 0 }
    else if leb absolute_time now
    then record { tv_sec = 0; tv_nsec = 1 }
    else record {
      tv_sec = (absolute_time - now) / 1000;
      tv_nsec = (absolute_time - now) % 1000 * 1000000;
    }

-- An operation is given by its number among those registered.
pub record Timer : Type 0 where
  pub timer_id : ℕ
  pub absolute_time : ℕ
  pub timer_op : ℕ
  pub address : ℕ

abbrev pub Timers : Type 0
Timers = List Timer

abbrev pub Index : Type 0
Index = List (ℕ × ℕ)

pub record TimerService : Type 0 where
  pub timerfd : Timespec
  pub id_allocator : ℕ
  pub timer_mset : Timers
  pub id_timer_umap : Index
  -- The next address that `new` returns.
  pub heap : ℕ

abbrev pub fresh : TimerService
fresh = record {
  timerfd = record { tv_sec = 0; tv_nsec = 0 };
  id_allocator = 0;
  timer_mset = [];
  id_timer_umap = [];
  heap = 0;
}

-- `timer_mset_.insert`: behind the timers that are due no later, as `TimerComparator` orders them
unfoldable pub insert : Timer → Timers → Timers
insert t [] = t ∷ []
insert t (u ∷ ts) =
    let rest = insert t ts in if ltb t.absolute_time u.absolute_time then t ∷ u ∷ ts else u ∷ rest

-- `iter == timer_mset_.begin()`
unfoldable pub is_begin : ℕ → Timers → Bool
is_begin a [] = false
is_begin a (t ∷ ts) = t.address == a

-- `*iter`
unfoldable pub timer_at : ℕ → Timers → Option Timer
timer_at a [] = none
timer_at a (t ∷ ts) = let rest = timer_at a ts in if t.address == a then some t else rest

-- `timer_mset_.erase(iter)`
unfoldable pub erase : ℕ → Timers → Timers
erase a [] = []
erase a (t ∷ ts) = let rest = erase a ts in if t.address == a then ts else t ∷ rest

-- The timers from the one on that `erase` returns
unfoldable pub next_iter : ℕ → Timers → Timers
next_iter a [] = []
next_iter a (t ∷ ts) = let rest = next_iter a ts in if t.address == a then ts else rest

-- `id_timer_umap_`: an id that is asked for may be negative, one in the map is not.
unfoldable pub find_id : ℕ → Index → Option ℕ
find_id i [] = none
find_id i ((j, a) ∷ m) = let rest = find_id i m in if j == i then some a else rest

abbrev pub find : ℤ → Index → Option ℕ
find (pos i) m = find_id i m
find (negsuc i) m = none

unfoldable pub put_id : ℕ → ℕ → Index → Index
put_id i a [] = (i, a) ∷ []
put_id i a ((j, b) ∷ m) = let rest = put_id i a m in if j == i then (i, a) ∷ m else (j, b) ∷ rest

unfoldable pub erase_id : ℕ → Index → Index
erase_id i [] = []
erase_id i ((j, b) ∷ m) = let rest = erase_id i m in if j == i then rest else (j, b) ∷ rest

-- The time to which the timerfd is set before the timers that begin here
unfoldable pub due : Timers → ℕ
due [] = 0
due (t ∷ ts) = t.absolute_time

-- The calls of operations, in their order.
abbrev pub Calls : Type 0
Calls = List (ℕ × ErrCode)

-- `++id_allocator_ < 0`: past the greatest 64-bit number the count starts again.
abbrev pub next_id : ℕ → ℕ
next_id i = if i + 1 == 2 ^ 63 then 0 else i + 1

abbrev pub new_timer : ℕ → ℕ → Timespec → TimerService → Timer
new_timer now op timeout s = record {
  timer_id = s.id_allocator;
  absolute_time = now + change_to_ms timeout;
  timer_op = op;
  address = s.heap;
}

-- `registerTimer` behind its first test
abbrev pub register_new : ℕ → ℕ → ℕ → Timespec → TimerService → TimerService
register_new now now' op timeout s =
    let timer = new_timer now op timeout s in
    let timers = insert timer s.timer_mset in
    record {
      timerfd = if is_begin s.heap timers then it_value now' timer.absolute_time else s.timerfd;
      id_allocator = next_id s.id_allocator;
      timer_mset = timers;
      id_timer_umap = put_id s.id_allocator s.heap s.id_timer_umap;
      heap = s.heap + 1;
    }

abbrev register_found :
    Option ℕ → ℕ → ℕ → ℤ → ℕ → Timespec → TimerService → ℤ × TimerService × Calls
register_found (some a) now now' timer_id op timeout s = (timer_id, s, (op, ErrCode.eopexists) ∷ [])
register_found none now now' timer_id op timeout s =
    (pos s.id_allocator, register_new now now' op timeout s, [])

-- `registerTimer`, with the id that it leaves to its caller; the clock is read for the timer
-- (`now`) and again for the timerfd (`now'`).
unfoldable pub register_timer : ℕ → ℕ → ℤ → ℕ → Timespec → TimerService → ℤ × TimerService × Calls
register_timer now now' timer_id op timeout s =
    register_found (find timer_id s.id_timer_umap) now now' timer_id op timeout s

-- `cancelTimer` with the id and the address that the index has for it
abbrev pub cancel_at : ℕ → ℕ → ℕ → TimerService → TimerService
cancel_at now i a s = record s {
  timerfd =
      if is_begin a s.timer_mset then it_value now (due (next_iter a s.timer_mset)) else s.timerfd;
  timer_mset = erase a s.timer_mset;
  id_timer_umap = erase_id i s.id_timer_umap;
}

abbrev cancel_node : Option Timer → ℕ → ℕ → ℕ → TimerService → Option (TimerService × Calls)
cancel_node none now i a s = none
cancel_node (some t) now i a s = some (cancel_at now i a s, (t.timer_op, ErrCode.eopcanceled) ∷ [])

abbrev cancel_found : Option ℕ → ℕ → ℕ → TimerService → Option (TimerService × Calls)
cancel_found none now i s = some (s, [])
cancel_found (some a) now i s = cancel_node (timer_at a s.timer_mset) now i a s

-- `cancelTimer`; `none` is a fault: an iterator of the index that points to no node.
unfoldable pub cancel_timer : ℕ → ℤ → TimerService → Option (TimerService × Calls)
cancel_timer now (negsuc i) s = some (s, [])
cancel_timer now (pos i) s = cancel_found (find (pos i) s.id_timer_umap) now i s

-- The loop of `expireTimerExecute`: the expired timers, those from `iter` on, and the index.
unfoldable pub expire_loop : ℕ → Timers → Index → Timers × Timers × Index
expire_loop now [] m = ([], [], m)
expire_loop now (t ∷ ts) m =
    let (expired, rest, m') = expire_loop now ts (erase_id t.timer_id m) in
    if ltb now t.absolute_time then ([], t ∷ ts, m) else (t ∷ expired, rest, m')

-- The last loop of `expireTimerExecute`
unfoldable pub do_all : Timers → Calls
do_all [] = []
do_all (t ∷ ts) = (t.timer_op, ErrCode.success) ∷ do_all ts

abbrev pub expired_state : ℕ → TimerService → Timers × Timers × Index → TimerService
expired_state now' s (expired, rest, m) = record s {
  timerfd = it_value now' (due rest);
  timer_mset = rest;
  id_timer_umap = m;
}

-- `expireTimerExecute`, by the reactor with an error or with none
unfoldable pub expire_timer_execute : ℕ → ℕ → Bool → TimerService → TimerService × Calls
expire_timer_execute now now' true s = (s, [])
expire_timer_execute now now' false s =
    let r = expire_loop now s.timer_mset s.id_timer_umap in (expired_state now' s r, do_all r.0)
