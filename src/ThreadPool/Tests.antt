-- ===== src/ThreadPool/Tests.antt =====
-- The theorems at a concrete pool.
use lcy.Prelude.{◌+◌, ◌%◌, ◌≡◌, refl, some, length, arith}
use lcy.ThreadPool.{ThreadPool, thread_pool, start, context_after}
use lcy.ThreadPool.RoundRobin.{Ready, new-Ready, start-Ready, context_after_turns}

abbrev three : ThreadPool
three = start (thread_pool 3)

three-Ready : Ready three
three-Ready = start-Ready (thread_pool 3) (new-Ready 3 (omega arith))

context_after_turns_example : context_after 7 three ≡ some ((three.next + 7) % length three.threads)
unfolding start
context_after_turns_example = context_after_turns 7 three three-Ready refl
