-- ===== src/SignalSet/Tests.antt =====
-- A concrete system, and the theorem at a concrete reactor.
use lcy.Prelude.{
  inl, ℕ, ◌≡◌, refl, Bool, true, false, some, List, [], ◌∷◌, ◌==◌, if◌then◌else◌, arith,
}
use lcy.Prelude.Int.{ℤ, pos}
use lcy.Prelude.Assoc.{lookup, put, erase, ℤ_keys}
use lcy.Reactor.{
  Interest, ready, Epoll, reads, Reactor, reactor, register_operation, cancel_operation,
}
use lcy.Reactor.Sample.{sample}
use lcy.SignalSet.{Signals, SignalOp, signal_op, Callback, on_signal, SignalSet, call, cancel}
use lcy.SignalSet.Mask.{
  Masks, Happening, waits, cancels, comes, happen_all, waiting, Guarded, happen_all-Guarded,
}

-- What epoll watches, and which signals are blocked.
record Machine : Type 0 where
  watched : List (ℤ × Interest)
  blocked : ℕ → Bool

abbrev machine_epoll : Epoll Machine
machine_epoll = record {
  control = λ c fd i w. (
    record w { watched = (sample.control c fd i w.watched).0 },
    (sample.control c fd i w.watched).1,
  );
  wait = λ n w. (w, ready []);
  interest = λ w fd. lookup fd w.watched;
}

abbrev set_mask : Bool → ℕ → Machine → Machine
set_mask b n w = record w { blocked = λ j. if n == j then b else w.blocked j }

abbrev machine_signals : Signals Machine
machine_signals = record {
  update = λ fd n w. w;
  block = set_mask true;
  unblock = set_mask false;
  read = λ fd w. (w, 2);
  close = λ fd w. w;
}

same_number : (n : ℕ) → (n == n) ≡ true
same_number n = ground arith

machine-Masks : Masks machine_epoll machine_signals (λ w. w.blocked)
machine-Masks = record {
  blocks = λ n w. rw (same_number n) refl;
  unblocks = λ n w. rw (same_number n) refl;
  read_keeps = λ fd n w. refl;
  control_keeps = λ c fd i n w. refl;
}

abbrev quiet : Callback → Reactor SignalOp Machine → Reactor SignalOp Machine
quiet c s = s

abbrev start : Reactor SignalOp Machine
start = reactor (record { watched = []; blocked = λ n. false })

-- SIGINT
abbrev interrupt : SignalSet
interrupt = record { signum = 2; signal_fd = pos 7 }

start-Guarded : Guarded machine_epoll machine_signals quiet (λ w. w.blocked) interrupt start
unfolding lookup
start-Guarded = inl refl

happen_all-Guarded_example :
    Guarded machine_epoll machine_signals quiet
      (λ w. w.blocked)
      interrupt
      (happen_all machine_epoll machine_signals quiet
        (λ w. w.blocked)
        interrupt
        (waits 0 ∷ comes ∷ waits 0 ∷ cancels ∷ waits 0 ∷ [])
        start)
happen_all-Guarded_example =
    happen_all-Guarded machine_epoll machine_signals quiet (λ w. w.blocked) interrupt machine-Masks
      (λ c s g. g) (λ u s. refl) (waits 0 ∷ comes ∷ waits 0 ∷ cancels ∷ waits 0 ∷ []) start
      start-Guarded

-- A callback that waits again when its wait is cancelled: the set waits, and its signal is not blocked.
again : Callback → Reactor SignalOp Machine → Reactor SignalOp Machine
again (on_signal u ec i) s =
    register_operation machine_epoll (λ op e r. r) reads (pos 7) (signal_op (pos 7) u)
      (record s { world = set_mask true 2 s.world })

abbrev rearmed : Reactor SignalOp Machine
rearmed =
    cancel machine_epoll machine_signals again interrupt (
      happen_all machine_epoll machine_signals again (λ w. w.blocked) interrupt (waits 0 ∷ [])
        start)

rearmed_waits :
    (waiting machine_epoll machine_signals again (λ w. w.blocked) interrupt rearmed
      ≡ some (signal_op (pos 7) 0))
    × (rearmed.world.blocked 2 ≡ false)
unfolding happen_all cancel call lookup put erase again cancel_operation lcy.SignalSet.Mask.happen
    register_operation lcy.SignalSet.notify
rearmed_waits = (refl, refl)
