-- ===== src/ThreadPool/RoundRobin.antt =====
-- The threads of asio/src/thread_pool.cc are chosen in turn, and each has an event loop.
use lcy.Prelude.{
  ℕ, zero, suc, ◌+◌, ◌%◌, ◌<◌, ◌≡◌, refl, sym, ap, ◌∙◌, subst, inl, inr, Bool, true, false, some,
  List, [], ◌∷◌, ◌==◌, if◌then◌else◌, length, All, arith, Bool-cases,
}
use native.Mathlib.Nat.{mod-add-mod}
use lcy.ThreadPool.{
  Thread, ThreadPool, new_threads, thread_pool, start_all, stop_all, start, stop, thread_at, given,
  next_context, context_after,
}

-- The counter points to a thread, and just the threads of a started pool run.
pub record Ready (p : ThreadPool) : Type 0 where
  pub inside : p.next < length p.threads
  pub runs : All (λ t. t ≡ p.is_start) p.threads

length-new : (n : ℕ) → length (new_threads n) ≡ n
unfolding new_threads
length-new zero = refl
length-new (suc n) = ap suc (length-new n)

new-stopped : (n : ℕ) → All (λ t. t ≡ false) (new_threads n)
unfolding new_threads
new-stopped zero = tt
new-stopped (suc n) = (refl, new-stopped n)

pub new-Ready : (n : ℕ) → 0 < n → Ready (thread_pool n)
new-Ready n h = record { inside = omega (arith, length-new n); runs = new-stopped n }

length-start : (ts : List Thread) → length (start_all ts) ≡ length ts
unfolding start_all
length-start [] = refl
length-start (t ∷ ts) = ap suc (length-start ts)

start-runs : (ts : List Thread) → All (λ t. t ≡ true) (start_all ts)
unfolding start_all
start-runs [] = tt
start-runs (t ∷ ts) = (refl, start-runs ts)

pub start-Ready : (p : ThreadPool) → Ready p → Ready (start p)
unfolding start
start-Ready p r = elim (Bool-cases p.is_start) [
  | inl e ↦ subst Ready (sym (started e)) r
  | inr e ↦ subst Ready (sym (stopped e)) (record {
    inside = omega (arith, length-start p.threads, r.inside);
    runs = start-runs p.threads;
  })
]
  where
    started : p.is_start ≡ true → start p ≡ p
    started e =
        ap
          (λ (b : Bool).
            if b then p else record p { is_start = true; threads = start_all p.threads })
          e

    stopped :
        p.is_start ≡ false → start p ≡ record p { is_start = true; threads = start_all p.threads }
    stopped e =
        ap
          (λ (b : Bool).
            if b then p else record p { is_start = true; threads = start_all p.threads })
          e

-- A new pool that is started.
pub start-thread_pool :
    (n : ℕ)
    → ((start (thread_pool n)).is_start ≡ true)
      × (length (start (thread_pool n)).threads ≡ n)
      × ((start (thread_pool n)).next ≡ 0)
unfolding start
start-thread_pool n = (refl, length-start (new_threads n) ∙ length-new n, refl)

-- What a stop leaves of threads that run.
stop-all :
    (ts : List Thread)
    → All (λ t. t ≡ true) ts
    → (us : List Thread) × (stop_all ts ≡ some us)
      × (length us ≡ length ts)
      × All (λ t. t ≡ false) us
unfolding stop_all
stop-all [] h = ([], refl, refl, tt)
stop-all (true ∷ ts) (ht, h) =
    let (us, e, l, f) = stop-all ts h in (false ∷ us, rw e refl, ap suc l, (refl, f))
stop-all (false ∷ ts) (ht, h) = cc

pub stop-Ready : (p : ThreadPool) → Ready p → (q : ThreadPool) × (stop p ≡ some q) × Ready q
unfolding stop
stop-Ready p r = elim (Bool-cases p.is_start) [
  | inr e ↦ (p, step e, r)
  | inl e ↦
      let (us, s, l, f) = stop-all p.threads (subst (λ b. All (λ t. t ≡ b) p.threads) e r.runs) in
      (
        record p { is_start = false; threads = us },
        halt e us s,
        record { inside = omega (arith, l, r.inside); runs = f },
      )
]
  where
    step : p.is_start ≡ false → stop p ≡ some p
    step e = simp e refl

    halt :
        (e : p.is_start ≡ true) (us : List Thread)
        → stop_all p.threads ≡ some us
        → stop p ≡ some (record p { is_start = false; threads = us })
    halt e us s = simp (e, s) refl

thread_at-running :
    (ts : List Thread) (i : ℕ) → i < length ts → All (λ t. t ≡ true) ts → thread_at i ts ≡ some true
unfolding thread_at
thread_at-running [] i h r = absurd (omega arith)
thread_at-running (t ∷ ts) zero h (rt, r) = ap some rt
thread_at-running (t ∷ ts) (suc i) h (rt, r) = thread_at-running ts i (omega arith) r

-- In a started pool in order, `nextContext` gives the event loop of the thread at the counter, and
-- moves the counter on, round the threads: it neither throws nor faults.
pub next_context_turn :
    (p : ThreadPool)
    → Ready p
    → p.is_start ≡ true
    → (next_context p ≡ given p.next (record p { next = (p.next + 1) % length p.threads }))
      × Ready (record p { next = (p.next + 1) % length p.threads })
unfolding next_context
next_context_turn p r e =
    let some_threads : (length p.threads == 0) ≡ false = ground (arith, r.inside) in
    (
      simp
          (
            e,
            some_threads,
            thread_at-running p.threads p.next r.inside
                (subst (λ b. All (λ t. t ≡ b) p.threads) e r.runs),
          )
          refl,
      record { inside = grind (arith, r.inside); runs = r.runs },
    )

-- In a started pool in order, calls of `nextContext` go round the threads: the call that comes after
-- `k` others gives the thread that is `k` places on from the counter, counted round, whatever `k` is.
pub context_after_turns :
    (k : ℕ) (p : ThreadPool)
    → Ready p
    → p.is_start ≡ true
    → context_after k p ≡ some ((p.next + k) % length p.threads)
unfolding context_after
context_after_turns zero p r e =
    simp ((next_context_turn p r e).0) (ap some (small p.next (length p.threads) r.inside))
  where
    small : (a m : ℕ) → a < m → a ≡ (a + 0) % m
    small a m h = grind arith
context_after_turns (suc k) p r e =
    let (t, r') = next_context_turn p r e in
    simp t (
      context_after_turns k (record p { next = (p.next + 1) % length p.threads }) r' e
      ∙ ap some (
          mod-add-mod (p.next + 1) (length p.threads) k
          ∙ ap (λ (n : ℕ). n % length p.threads) (omega arith)))
