-- ===== src/TimerService/Run.antt =====
-- Sequences of calls of the timer service of asio/src/details/timer_service.cc: every operation
-- that is registered is called once, or still waits.
use lcy.Prelude.{
  ℕ, ◌+◌, ◌≤◌, ◌<◌, ◌^◌, ◌≡◌, refl, inl, inr, Bool, true, false, Option, some, List, [], ◌∷◌, ◌++◌,
  ltb, ◌>>=◌, length, arith, Bool-cases, Option-cases,
}
use lcy.Prelude.Int.{ℤ}
use lcy.TimerService.{
  ErrCode, Timespec, Timer, Timers, Calls, TimerService, insert, find, new_timer, register_new,
  register_timer, cancel_timer, expire_timer_execute,
}
use lcy.TimerService.Inv.{Valid, register_new-Valid}
use lcy.TimerService.Cancel.{one, waiting, called, cancel_timer-Cancels}
use lcy.TimerService.Expire.{expire_timer_execute-Expires}

-- A call of a member, with the times that the clock gives.
pub data Event : Type 0 where
  registers : ℕ → ℕ → ℤ → ℕ → Timespec → Event
  cancels : ℕ → ℤ → Event
  expires : ℕ → ℕ → Bool → Event

unfoldable pub step : Event → TimerService → Option (TimerService × Calls)
step (registers now now' i op timeout) s =
    let (i', s', calls) = register_timer now now' i op timeout s in some (s', calls)
step (cancels now i) s = cancel_timer now i s
step (expires now now' ec) s = some (expire_timer_execute now now' ec s)

-- The state behind the calls, and what was called, in order.
unfoldable pub run : List Event → TimerService → Option (TimerService × Calls)
run [] s = some (s, [])
run (e ∷ es) s = do (s', calls) ← step e s; (s'', calls') ← run es s'; some (s'', calls ++ calls')

-- How often an operation is registered.
unfoldable pub registered : ℕ → List Event → ℕ
registered n [] = 0
registered n (registers now now' i op timeout ∷ es) = one n op + registered n es
registered n (cancels now i ∷ es) = registered n es
registered n (expires now now' ec ∷ es) = registered n es

called-append : (n : ℕ) (a b : Calls) → called n (a ++ b) ≡ called n a + called n b
unfolding called
called-append n [] b = omega arith
called-append n ((op, e) ∷ a) b = omega (arith, called-append n a b)

waiting-insert :
    (n : ℕ) (t : Timer) (ts : Timers) → waiting n (insert t ts) ≡ one n t.timer_op + waiting n ts
unfolding waiting insert
waiting-insert n t [] = refl
waiting-insert n t (u ∷ ts) = elim (Bool-cases (ltb t.absolute_time u.absolute_time)) [
  | inl e ↦ rw e refl
  | inr e ↦ rw e (omega (arith, waiting-insert n t ts))
]

-- What a step does: it keeps the state valid, gives at most one id, and what it adds to the
-- operations it calls or leaves waiting.
record Steps (e : Event) (s s' : TimerService) (calls : Calls) : Type 0 where
  valid : Valid s'
  ids : s'.id_allocator ≤ s.id_allocator + 1
  counts :
      (n : ℕ)
      → registered n (e ∷ []) + waiting n s.timer_mset ≡ called n calls + waiting n s'.timer_mset

abbrev Stepped : Event → TimerService → Type 0
Stepped e s =
    (s' : TimerService) × (calls : Calls) × (step e s ≡ some (s', calls)) × Steps e s s' calls

register-Steps :
    (now now' : ℕ) (i : ℤ) (op : ℕ) (timeout : Timespec) (s : TimerService)
    → Valid s
    → s.id_allocator + 1 < 2 ^ 63
    → Stepped (registers now now' i op timeout) s
unfolding step register_timer registered called
register-Steps now now' i op timeout s ok room = elim (Option-cases (find i s.id_timer_umap)) [
  | inl e ↦ (
    register_new now now' op timeout s,
    [],
    rw e refl,
    record {
      valid = register_new-Valid now now' op timeout s ok room;
      ids = ground (arith, room);
      counts = λ n. omega (arith, waiting-insert n (new_timer now op timeout s) s.timer_mset);
    },
  )
  | inr (a, e) ↦ (
    s,
    (op, ErrCode.eopexists) ∷ [],
    rw e refl,
    record { valid = ok; ids = omega arith; counts = λ n. omega arith },
  )
]

steps : (e : Event) (s : TimerService) → Valid s → s.id_allocator + 1 < 2 ^ 63 → Stepped e s
unfolding step registered
steps (registers now now' i op timeout) s ok room = register-Steps now now' i op timeout s ok room
steps (cancels now i) s ok room =
    let (s', calls, e, c) = cancel_timer-Cancels now i s ok in
    (
      s',
      calls,
      e,
      record {
        valid = c.valid;
        ids = omega (arith, c.allocator);
        counts = λ n. omega (arith, c.counts n);
      },
    )
steps (expires now now' true) s ok room =
    unfold expire_timer_execute called in
    (s, [], refl, record { valid = ok; ids = omega arith; counts = λ n. omega arith })
steps (expires now now' false) s ok room =
    let x = expire_timer_execute-Expires now now' s ok in
    (
      (expire_timer_execute now now' false s).0,
      (expire_timer_execute now now' false s).1,
      refl,
      record {
        valid = x.valid;
        ids = unfold expire_timer_execute in omega arith;
        counts = λ n. omega (arith, x.counts n);
      },
    )

-- What a run does to a valid state.
pub record Runs (es : List Event) (s s' : TimerService) (calls : Calls) : Type 0 where
  pub valid : Valid s'
  pub counts :
      (n : ℕ) → registered n es + waiting n s.timer_mset ≡ called n calls + waiting n s'.timer_mset

registered-cons :
    (n : ℕ) (e : Event) (es : List Event)
    → registered n (e ∷ es) ≡ registered n (e ∷ []) + registered n es
unfolding registered
registered-cons n (registers now now' i op timeout) es = omega arith
registered-cons n (cancels now i) es = omega arith
registered-cons n (expires now now' ec) es = omega arith

-- From a valid state, any sequence of registrations, cancellations and expiries, shorter than the
-- ids that are left in the 64-bit range, runs without a fault to a valid state; and each operation
-- has been called, with whatever error, as often as it waited or was registered, less as often as
-- it still waits: none is lost and none is called twice.
pub run-Runs :
    (es : List Event) (s : TimerService)
    → Valid s
    → s.id_allocator + length es < 2 ^ 63
    → (s' : TimerService) × (calls : Calls) × (run es s ≡ some (s', calls)) × Runs es s s' calls
unfolding run
run-Runs [] s ok room =
    (s, [], refl, record { valid = ok; counts = λ n. unfold registered called in refl })
run-Runs (e ∷ es) s ok room =
    let (s', calls, p, x) = steps e s ok (omega (arith, room)) in
    let (s'', calls', q, y) = run-Runs es s' x.valid (omega (arith, room, x.ids)) in
    (
      s'',
      calls ++ calls',
      rw (p, q) refl,
      record {
        valid = y.valid;
        counts = λ n.
            omega
              (arith, registered-cons n e es, called-append n calls calls', x.counts n, y.counts n);
      },
    )
