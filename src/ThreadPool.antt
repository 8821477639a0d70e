-- ===== src/ThreadPool.antt =====
-- The pool of asio/src/thread_pool.cc: threads that each run an event loop, and the choice of the
-- next loop. The loop of `nextContext` that retries its compare-and-exchange reads the counter again
-- at each try, so that its calls take effect one after the other.
pub mod RoundRobin
mod Tests
use lcy.Prelude.{
  ℕ, zero, suc, ◌+◌, ◌%◌, Bool, true, false, Option, none, some, List, [], ◌∷◌, ◌==◌, if◌then◌else◌,
  length,
}

-- A thread has an event loop (`ioc_` is not null) from its start to its end.
abbrev pub Thread : Type 0
Thread = Bool

pub record ThreadPool : Type 0 where
  pub is_start : Bool
  pub next : ℕ
  pub threads : List Thread

unfoldable pub new_threads : ℕ → List Thread
new_threads zero = []
new_threads (suc n) = false ∷ new_threads n

-- The constructor; its test for a number below zero, of a `size_t`, is never met.
abbrev pub thread_pool : ℕ → ThreadPool
thread_pool n = record { is_start = false; next = 0; threads = new_threads n }

unfoldable pub start_all : List Thread → List Thread
start_all [] = []
start_all (t ∷ ts) = true ∷ start_all ts

-- `none` is a fault: a thread with no event loop is told to quit.
abbrev stopped : Option (List Thread) → Option (List Thread)
stopped none = none
stopped (some ts) = some (false ∷ ts)

unfoldable pub stop_all : List Thread → Option (List Thread)
stop_all [] = some []
stop_all (true ∷ ts) = stopped (stop_all ts)
stop_all (false ∷ ts) = none

-- `start`
unfoldable pub start : ThreadPool → ThreadPool
start p = if p.is_start then p else record p { is_start = true; threads = start_all p.threads }

abbrev stopped_pool : ThreadPool → Option (List Thread) → Option ThreadPool
stopped_pool p none = none
stopped_pool p (some ts) = some (record p { is_start = false; threads = ts })

-- `stop`, and the destructor
unfoldable pub stop : ThreadPool → Option ThreadPool
stop p = if p.is_start then stopped_pool p (stop_all p.threads) else some p

unfoldable pub thread_at : ℕ → List Thread → Option Thread
thread_at i [] = none
thread_at zero (t ∷ ts) = some t
thread_at (suc i) (t ∷ ts) = thread_at i ts

-- What `nextContext` does: it throws, or faults (a division by zero, an index outside, a null
-- pointer), or gives the event loop of the thread at an index.
pub data Next : Type 0 where
  thrown : Next
  fault : Next
  given : ℕ → ThreadPool → Next

abbrev context_of : ℕ → ThreadPool → Option Thread → Next
context_of i p none = fault
context_of i p (some false) = fault
context_of i p (some true) = given i p

-- `nextContext`
unfoldable pub next_context : ThreadPool → Next
next_context p =
    if p.is_start
    then if length p.threads == 0
      then fault
      else context_of p.next (record p { next = (p.next + 1) % length p.threads })
          (thread_at p.next p.threads)
    else thrown

-- The index that a call of `nextContext` gives after as many calls before it.
abbrev index_after : (ThreadPool → Option ℕ) → ℕ → Next → Option ℕ
index_after later k thrown = none
index_after later k fault = none
index_after later zero (given i p) = some i
index_after later (suc k) (given i p) = later p

unfoldable pub context_after : ℕ → ThreadPool → Option ℕ
context_after zero p = index_after (λ q. none) zero (next_context p)
context_after (suc k) p = index_after (λ q. context_after k q) (suc k) (next_context p)
