-- ===== src/Reactor/Tests.antt =====
-- The theorems at concrete reactors.
use lcy.Prelude.{
  true, false, subst, ℕ, zero, suc, ◌≡◌, refl, inl, inr, some, [], ◌∷◌, if◌then◌else◌, ◌==◌,
  Bool-cases,
}
use lcy.Prelude.Int.{pos}
use lcy.Prelude.Assoc.{eqz, eqz→eq, lookup, ℤ_keys}
use lcy.Reactor.{
  ErrCode, eopcanceled, reads, writes, OperationInfo, Reactor, reactor, has_operation, info_of,
  put_info, arm, armed, register_operation, cancel_info, cancel_all_operations, loop_wait, loop,
  handle_events, handle_event, do_operation, Epoll, ready, returned, success,
}
use lcy.Reactor.Sample.{Watched, sample, sample-Documented, sample-Reliable}
use lcy.Reactor.Watch.{wanted, Valid}
use lcy.Reactor.Loop.{Ends, loop_wait-Ends}
use lcy.Reactor.Stale.{Fails, cancel_all-Fails}

-- Operations are numbers. Most do nothing; operation 1 registers operation 3 for descriptor 5.
abbrev quiet : ℕ → ErrCode → Reactor ℕ Watched → Reactor ℕ Watched
quiet op ec s = s

abbrev start : Reactor ℕ Watched
start = reactor []

abbrev again : ℕ → ErrCode → Reactor ℕ Watched → Reactor ℕ Watched
again op ec s = if op == 1 then register_operation sample quiet reads (pos 5) 3 s else s

armed-again :
    (i : OperationInfo ℕ) (s : Reactor ℕ Watched) (x : Watched × ℕ)
    → armed sample quiet reads (pos 5) 3 i s x ≡ armed sample again reads (pos 5) 3 i s x
armed-again i s (w, zero) = refl
armed-again i s (w, suc n) = refl

register-again :
    (s : Reactor ℕ Watched)
    → again 1 eopcanceled s ≡ register_operation sample again reads (pos 5) 3 s
unfolding register_operation
register-again s = elim (Bool-cases (has_operation reads (info_of (pos 5) s))) [
  | inl e ↦ rw e refl
  | inr e ↦ rw e (
      armed-again (info_of (pos 5) s) (put_info (pos 5) (info_of (pos 5) s) s)
        (arm sample again reads (pos 5) (info_of (pos 5) s) s.world))
]

-- Descriptor 5 with the operations 1 and 2.
abbrev busy : Reactor ℕ Watched
busy = record start {
  fd_opinfo_umap = (pos 5, record { read_op = some 1; write_op = some 2 }) ∷ [];
  world = (pos 5, record { events = 7; udata = pos 5 }) ∷ [];
}

busy-Valid : Valid sample busy
unfolding lookup
busy-Valid fd = elim (Bool-cases (eqz (pos 5) fd)) [
  | inl e ↦ subst (λ k. lookup k busy.world ≡ wanted k (info_of k busy)) (eqz→eq (pos 5) fd e) refl
  | inr e ↦ rw e refl
]

cancel_all-Fails_example :
    (u : Reactor ℕ Watched) × Fails sample again 3 u
    × (cancel_all_operations sample again (pos 5) busy ≡ cancel_info sample again writes (pos 5) u)
unfolding lookup
cancel_all-Fails_example =
    cancel_all-Fails sample again sample-Documented sample-Reliable (pos 5) 1 2 3 busy busy-Valid
      refl register-again

-- An epoll that reports EPOLLIN for descriptor 5 again and again, and operations that quit.
abbrev insists : Epoll Watched
insists = record sample { wait = λ n w. (w, ready (record { events = 1; udata = pos 5 } ∷ [])) }

abbrev quitting : ℕ → ErrCode → Reactor ℕ Watched → Reactor ℕ Watched
quitting op ec s = lcy.Reactor.quit s

loop_wait-Ends_example :
    Ends insists quitting 3 (record busy { quit = false }) (loop_wait insists quitting 3 busy)
loop_wait-Ends_example = loop_wait-Ends insists quitting 3 busy

-- It is over after one round.
loop_quits :
    loop_wait insists quitting 3 busy
    ≡ returned success (record busy { quit = true; event_array = 128 })
unfolding loop_wait loop handle_events handle_event do_operation lookup
loop_quits = refl
