-- ===== src/BridgeService/Tests.antt =====
-- The theorems at concrete states.
use lcy.Prelude.{ℕ, refl, inl, arith}
use lcy.BridgeService.{
  Bridge, fresh, push, write_eventfd, Reach, here, next, pushes, executes, take_over,
}
use lcy.BridgeService.Order.{Ordered, Reach-Ordered}

abbrev two_pushed : Bridge ℕ
two_pushed = push 8 (push 7 fresh)

abbrev empty : Bridge ℕ
empty = fresh

reached : Reach empty (take_over two_pushed)
unfolding push write_eventfd
reached = next (next (next here (pushes 7)) (pushes 8)) (executes (omega arith) refl)

empty-Ordered : Ordered empty
empty-Ordered = record { order = refl; wakes = inl refl }

Reach-Ordered_example : Ordered (take_over two_pushed)
Reach-Ordered_example = Reach-Ordered empty-Ordered reached
