-- ===== src/TimerService/Cancel.antt =====
-- `cancelTimer` of asio/src/details/timer_service.cc from a valid state.
use lcy.Prelude.{
  ℕ, ◌+◌, ◌≤◌, ◌<◌, ◌≡◌, ◌≢◌, refl, sym, ap, ◌∙◌, inl, inr, true, false, Option, none, some, [],
  ◌∷◌, ◌==◌, if◌then◌else◌, All, arith, Bool-cases, Option-cases, ==→eq,
}
use lcy.Prelude.Int.{ℤ, pos, negsuc}
use lcy.TimerService.{
  ErrCode, Timer, Timers, Calls, TimerService, timer_at, erase, is_begin, next_iter, find_id,
  erase_id, find, due, cancel_at, cancel_timer,
}
use lcy.TimerService.Inv.{Sorted, IsApart, Apart, id_at, Armed, Valid, find_id-erase_id}

-- How often an operation waits, and how often it is called.
unfoldable pub one : ℕ → ℕ → ℕ
one n m = if m == n then 1 else 0

unfoldable pub waiting : ℕ → Timers → ℕ
waiting n [] = 0
waiting n (t ∷ ts) = one n t.timer_op + waiting n ts

unfoldable pub called : ℕ → Calls → ℕ
called n [] = 0
called n ((op, e) ∷ cs) = one n op + called n cs

All-erase {ℓ} : (P : Timer → Type ℓ) (a : ℕ) (ts : Timers) → All P ts → All P (erase a ts)
unfolding erase
All-erase P a [] h = tt
All-erase P a (t ∷ ts) (ht, h) = elim (Bool-cases (t.address == a)) [
  | inl e ↦ rw e h
  | inr e ↦ rw e (ht, All-erase P a ts h)
]

Sorted-erase : (a : ℕ) (ts : Timers) → Sorted ts → Sorted (erase a ts)
unfolding erase
Sorted-erase a [] h = tt
Sorted-erase a (t ∷ ts) (ht, h) = elim (Bool-cases (t.address == a)) [
  | inl e ↦ rw e h
  | inr e ↦ rw e (All-erase (λ u. t.absolute_time ≤ u.absolute_time) a ts ht, Sorted-erase a ts h)
]

Apart-erase : (a : ℕ) (ts : Timers) → Apart ts → Apart (erase a ts)
unfolding erase
Apart-erase a [] h = tt
Apart-erase a (t ∷ ts) (ht, h) = elim (Bool-cases (t.address == a)) [
  | inl e ↦ rw e h
  | inr e ↦ rw e (All-erase (IsApart t) a ts ht, Apart-erase a ts h)
]

-- The address of an id is that of a timer behind the first only if it is not the first's.
id_at-apart :
    (i a : ℕ) (t : Timer) (ts : Timers)
    → All (IsApart t) ts
    → id_at i ts ≡ some a
    → (a ≢ t.address) × (i ≢ t.timer_id)
unfolding id_at
id_at-apart i a t [] h e = cc
id_at-apart i a t (u ∷ ts) (hu, h) e = elim (Bool-cases (u.timer_id == i)) [
  | inl p ↦
      let e' : some u.address ≡ some a = rw p at e in
      ((λ q. hu.1 (cc (e', q))), (λ q. hu.0 (==→eq u.timer_id i p ∙ q)))
  | inr p ↦ id_at-apart i a t ts h (rw p at e)
]

pub id_at-absent :
    (i : ℕ) (t : Timer) (ts : Timers) → All (IsApart t) ts → i ≡ t.timer_id → id_at i ts ≡ none
id_at-absent i t ts h e = elim (Option-cases (id_at i ts)) [
  | inl p ↦ p
  | inr (a, p) ↦ absurd ((id_at-apart i a t ts h p).1 e)
]

-- What the erasure of the timer with an id leaves.
pub record Erased (i a : ℕ) (ts : Timers) : Type 0 where
  pub timer : Timer
  pub is_at : timer_at a ts ≡ some timer
  pub ids : (j : ℕ) → id_at j (erase a ts) ≡ (if i == j then none else id_at j ts)
  pub counts : (n : ℕ) → waiting n ts ≡ one n timer.timer_op + waiting n (erase a ts)

erased : (i a : ℕ) (ts : Timers) → Apart ts → id_at i ts ≡ some a → Erased i a ts
unfolding id_at timer_at erase waiting
erased i a [] h e = cc
erased i a (t ∷ ts) (ht, h) e = elim (Bool-cases (t.timer_id == i)) [
  | inl p ↦
      let e' : some t.address ≡ some a = rw p at e in
      let q : (t.address == a) ≡ true = ground (arith, e') in
      record {
        timer = t;
        is_at = rw q refl;
        ids = λ j.
            rw (q, sym (==→eq t.timer_id i p))
              (elim (Bool-cases (t.timer_id == j)) [
                | inl r ↦ rw r (id_at-absent j t ts ht (sym (==→eq t.timer_id j r)))
                | inr r ↦ rw r refl
              ]);
        counts = λ n. rw q refl;
      }
  | inr p ↦
      let e' : id_at i ts ≡ some a = rw p at e in
      let r = erased i a ts h e' in
      let q : (t.address == a) ≡ false = ground (arith, (id_at-apart i a t ts ht e').0) in
      record {
        timer = r.timer;
        is_at = rw (q, r.is_at) refl;
        ids = λ j.
            rw (q, r.ids j)
              (elim (Bool-cases (i == j)) [
                | inl b ↦
                    let c : (t.timer_id == j) ≡ false =
                      ground (arith, (id_at-apart i a t ts ht e').1, ==→eq i j b) in
                    rw (b, c) refl
                | inr b ↦ rw b refl
              ]);
        counts = λ n. rw q (omega (arith, r.counts n));
      }
]

-- The first timer behind an erasure.
pub due-erase_begin :
    (a : ℕ) (ts : Timers) → is_begin a ts ≡ true → due (next_iter a ts) ≡ due (erase a ts)
unfolding is_begin next_iter erase
due-erase_begin a [] h = refl
due-erase_begin a (t ∷ ts) h = rw h refl

pub due-erase_later : (a : ℕ) (ts : Timers) → is_begin a ts ≡ false → due (erase a ts) ≡ due ts
unfolding is_begin erase due
due-erase_later a [] h = refl
due-erase_later a (t ∷ ts) h = rw h refl

-- What `cancelTimer` does: it keeps the service valid, it gives no id, the id is in use no longer, other ids stay,
-- and an operation is taken out of the waiting ones as often as it is called, and then with the
-- error of a cancelled operation.
pub record Cancels (i : ℤ) (s s' : TimerService) (calls : Calls) : Type 0 where
  pub valid : Valid s'
  pub allocator : s'.id_allocator ≡ s.id_allocator
  pub gone : find i s'.id_timer_umap ≡ none
  pub others : (j : ℤ) → i ≢ j → find j s'.id_timer_umap ≡ find j s.id_timer_umap
  pub counts : (n : ℕ) → waiting n s.timer_mset ≡ called n calls + waiting n s'.timer_mset
  pub errors : All (λ c. c.1 ≡ ErrCode.eopcanceled) calls

nothing : (i : ℤ) (s : TimerService) → Valid s → find i s.id_timer_umap ≡ none → Cancels i s s []
unfolding called
nothing i s ok e = record {
  valid = ok;
  allocator = refl;
  gone = e;
  others = λ j h. refl;
  counts = λ n. omega arith;
  errors = tt;
}

module _ (now i a : ℕ) (s : TimerService) (ok : Valid s)
    (e : find_id i s.id_timer_umap ≡ some a) where
  pub at_id : Erased i a s.timer_mset
  at_id = erased i a s.timer_mset ok.apart (sym (ok.indexed i) ∙ e)

  cancel_at-Armed : Armed (cancel_at now i a s).timerfd (erase a s.timer_mset)
  cancel_at-Armed = elim (Bool-cases (is_begin a s.timer_mset)) [
    | inl b ↦ (now, rw (b, due-erase_begin a s.timer_mset b) refl)
    | inr b ↦ (ok.armed.0, rw (b, due-erase_later a s.timer_mset b) ok.armed.1)
  ]

  cancel_at-Valid : Valid (cancel_at now i a s)
  cancel_at-Valid = record {
    sorted = Sorted-erase a s.timer_mset ok.sorted;
    apart = Apart-erase a s.timer_mset ok.apart;
    addresses = All-erase (λ t. t.address < s.heap) a s.timer_mset ok.addresses;
    ids = All-erase (λ t. t.timer_id < s.id_allocator) a s.timer_mset ok.ids;
    indexed = λ j.
        find_id-erase_id j i s.id_timer_umap
        ∙ ap (λ (o : Option ℕ). if i == j then none else o) (ok.indexed j)
        ∙ sym (at_id.ids j);
    armed = cancel_at-Armed;
  }

  erase_others : (j : ℤ) → pos i ≢ j → find j (erase_id i s.id_timer_umap) ≡ find j s.id_timer_umap
  erase_others (negsuc j) h = refl
  erase_others (pos j) h =
      let ne : (i == j) ≡ false = elim (Bool-cases (i == j)) [
        | inl b ↦ absurd (h (ap pos (==→eq i j b)))
        | inr b ↦ b
      ] in
      rw (find_id-erase_id j i s.id_timer_umap, ne) refl

  cancel_at-Cancels :
      Cancels (pos i) s (cancel_at now i a s) ((at_id.timer.timer_op, ErrCode.eopcanceled) ∷ [])
  unfolding called
  cancel_at-Cancels = record {
    valid = cancel_at-Valid;
    allocator = refl;
    gone =
        let same : (i == i) ≡ true = ground arith in
        rw (find_id-erase_id i i s.id_timer_umap, same) refl;
    others = erase_others;
    counts = λ n. omega (arith, at_id.counts n);
    errors = (refl, tt);
  }

-- From a valid state `cancelTimer` never follows a stale iterator, and it does what `Cancels` says,
-- whatever id it is given: it keeps the state valid, frees the id, leaves other ids, and calls with
-- the error of a cancelled operation just what it takes out of the waiting operations.
pub cancel_timer-Cancels :
    (now : ℕ) (i : ℤ) (s : TimerService)
    → Valid s
    → (s' : TimerService) × (calls : Calls) × (cancel_timer now i s ≡ some (s', calls))
      × Cancels i s s' calls
unfolding cancel_timer
cancel_timer-Cancels now (negsuc i) s ok = (s, [], refl, nothing (negsuc i) s ok refl)
cancel_timer-Cancels now (pos i) s ok = elim (Option-cases (find_id i s.id_timer_umap)) [
  | inl e ↦ (s, [], rw e refl, nothing (pos i) s ok e)
  | inr (a, e) ↦
      let r = at_id now i a s ok e in
      (
        cancel_at now i a s,
        (r.timer.timer_op, ErrCode.eopcanceled) ∷ [],
        rw (e, r.is_at) refl,
        cancel_at-Cancels now i a s ok e,
      )
]
