-- ===== src/TimerService/Deadline.antt =====
-- The time to which the timerfd of asio/src/details/timer_service.cc is set.
use lcy.Prelude.{
  ℕ, ◌+◌, ◌<◌, ◌≡◌, ◌⊎◌, refl, sym, inl, inr, true, false, some, [], ◌∷◌, ◌==◌, leb, max, arith,
  Bool-cases, Option-cases, leb→le, leb→gt, ==→eq, ==→ne, subst,
}
use lcy.Prelude.Int.{pos, negsuc}
use lcy.TimerService.{
  ErrCode, Timespec, Calls, change_to_ms, it_value, due, find, find_id, is_begin, TimerService,
  new_timer, register_new, register_timer, cancel_at, cancel_timer, expire_timer_execute,
}
use lcy.TimerService.Inv.{Valid, due-insert}
use lcy.TimerService.Cancel.{at_id, due-erase_begin, due-erase_later}
use lcy.TimerService.Run.{Event, registers, cancels, expires, step}

-- A delay that arms the timerfd, in the form that the system asks for, and that ends at the
-- given time, or at once when that time is over.
pub record Arms (now absolute_time : ℕ) (t : Timespec) : Type 0 where
  pub armed : 0 < t.tv_sec + t.tv_nsec
  pub nanoseconds : t.tv_nsec < 1000000000
  pub ends : now + change_to_ms t ≡ max now absolute_time

it_value-Arms :
    (now absolute_time : ℕ)
    → 0 < absolute_time
    → Arms now absolute_time (it_value now absolute_time)
unfolding it_value
it_value-Arms now absolute_time h =
    let positive : (absolute_time == 0) ≡ false = ground (arith, h) in
    elim (Bool-cases (leb absolute_time now)) [
      | inl e ↦
          rw (positive, e)
            (record {
              armed = omega arith;
              nanoseconds = omega arith;
              ends = omega (arith, leb→le absolute_time now e);
            })
      | inr e ↦
          rw (positive, e)
            (record {
              armed = omega (arith, leb→gt absolute_time now e);
              nanoseconds = omega arith;
              ends = omega (arith, leb→gt absolute_time now e);
            })
    ]

-- The timerfd for a first time: disarmed for zero, which stands for no timer.
abbrev pub Shows : ℕ → ℕ → Timespec → Type 0
Shows now first fd = ((first ≡ 0) × (fd ≡ record { tv_sec = 0; tv_nsec = 0 })) ⊎ Arms now first fd

it_value-Shows : (now first : ℕ) → Shows now first (it_value now first)
unfolding it_value
it_value-Shows now first = elim (Bool-cases (first == 0)) [
  | inl e ↦ inl (==→eq first 0 e, rw e refl)
  | inr e ↦ inr (it_value-Arms now first (omega (arith, ==→ne first 0 e)))
]

-- When a call sets the timerfd, by the clock that it reads for that.
unfoldable pub clock : Event → ℕ
clock (registers now now' i op timeout) = now'
clock (cancels now i) = now
clock (expires now now' ec) = now'

-- What a call does with the timerfd: it is set for the first timer there is then, or it is left alone,
-- and then the first time has not changed.
pub data Sets (now : ℕ) (s s' : TimerService) : Type 0 where
  first_set : Shows now (due s'.timer_mset) s'.timerfd → Sets now s s'
  left_alone : s'.timerfd ≡ s.timerfd → due s'.timer_mset ≡ due s.timer_mset → Sets now s s'

set_by :
    (now : ℕ) (s s' : TimerService) → s'.timerfd ≡ it_value now (due s'.timer_mset) → Sets now s s'
set_by now s s' e =
    first_set
      (subst (Shows now (due s'.timer_mset)) (sym e) (it_value-Shows now (due s'.timer_mset)))

register_new-Sets :
    (now now' op : ℕ) (timeout : Timespec) (s : TimerService)
    → Valid s
    → Sets now' s (register_new now now' op timeout s)
register_new-Sets now now' op timeout s ok =
    elim (due-insert (new_timer now op timeout s) s.timer_mset ok.addresses) [
      | inl (b, d) ↦ set_by now' s (register_new now now' op timeout s) (rw (b, d) refl)
      | inr (b, d) ↦ left_alone (rw b refl) d
    ]

cancel_at-Sets : (now i a : ℕ) (s : TimerService) → Sets now s (cancel_at now i a s)
cancel_at-Sets now i a s = elim (Bool-cases (is_begin a s.timer_mset)) [
  | inl b ↦ set_by now s (cancel_at now i a s) (rw (b, due-erase_begin a s.timer_mset b) refl)
  | inr b ↦ left_alone (rw b refl) (due-erase_later a s.timer_mset b)
]

-- From a valid state each call, a registration, a cancellation or an expiry, with whatever arguments,
-- goes without a fault, and either sets the timerfd or leaves it alone. If it sets it, then for the
-- first timer that there is then, by the clock that this call reads: armed, in the form the system asks
-- for, with a delay that from this reading ends when the first timer is due, or at once when it was due
-- already; or disarmed where there is no first time. If it leaves it alone, the first time is the same
-- as before.
pub step-Sets :
    (e : Event) (s : TimerService)
    → Valid s
    → (s' : TimerService) × (calls : Calls) × (step e s ≡ some (s', calls)) × Sets (clock e) s s'
unfolding step clock register_timer cancel_timer expire_timer_execute
step-Sets (registers now now' i op timeout) s ok = elim (Option-cases (find i s.id_timer_umap)) [
  | inl e ↦ (
    register_new now now' op timeout s,
    [],
    rw e refl,
    register_new-Sets now now' op timeout s ok,
  )
  | inr (a, e) ↦ (s, (op, ErrCode.eopexists) ∷ [], rw e refl, left_alone refl refl)
]
step-Sets (cancels now (negsuc i)) s ok = (s, [], refl, left_alone refl refl)
step-Sets (cancels now (pos i)) s ok = elim (Option-cases (find_id i s.id_timer_umap)) [
  | inl e ↦ (s, [], rw e refl, left_alone refl refl)
  | inr (a, e) ↦
      let r = at_id now i a s ok e in
      (
        cancel_at now i a s,
        (r.timer.timer_op, ErrCode.eopcanceled) ∷ [],
        rw (e, r.is_at) refl,
        cancel_at-Sets now i a s,
      )
]
step-Sets (expires now now' true) s ok = (s, [], refl, left_alone refl refl)
step-Sets (expires now now' false) s ok = (
  (expire_timer_execute now now' false s).0,
  (expire_timer_execute now now' false s).1,
  refl,
  set_by now' s (expire_timer_execute now now' false s).0 refl,
)
