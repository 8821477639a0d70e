-- ===== src/TimerService/Inv.antt =====
-- The invariant of the timer service of asio/src/details/timer_service.cc, and that registerTimer
-- keeps it.
use lcy.Prelude.{
  ℕ, ◌+◌, ◌≤◌, ◌<◌, ◌^◌, ◌≡◌, ◌≢◌, ◌⊎◌, refl, sym, ap, ◌∙◌, inl, inr, true, false, Option, none,
  some, [], ◌∷◌, ltb, ◌==◌, if◌then◌else◌, All, arith, Bool-cases, Option-cases, ==→eq, ==→ne,
  ltb→lt, ltb→ge,
}
use lcy.Prelude.Int.{ℤ}
use lcy.TimerService.{
  Timespec, it_value, Timer, Timers, Index, TimerService, insert, is_begin, find_id, put_id,
  erase_id, due, next_id, new_timer, register_new, register_timer, find,
}

abbrev pub Sorted : Timers → Type 0
Sorted [] = Unit {0}
Sorted (t ∷ ts) = All (λ u. t.absolute_time ≤ u.absolute_time) ts × Sorted ts

abbrev pub IsApart : Timer → Timer → Type 0
IsApart t u = (u.timer_id ≢ t.timer_id) × (u.address ≢ t.address)

abbrev pub Apart : Timers → Type 0
Apart [] = Unit {0}
Apart (t ∷ ts) = All (IsApart t) ts × Apart ts

-- The address of the timer with an id
unfoldable pub id_at : ℕ → Timers → Option ℕ
id_at i [] = none
id_at i (t ∷ ts) = let rest = id_at i ts in if t.timer_id == i then some t.address else rest

-- The timerfd was set, at some time, for the first timer.
abbrev pub Armed : Timespec → Timers → Type 0
Armed fd ts = (now : ℕ) × (fd ≡ it_value now (due ts))

-- The timers stand in the order of their times, under ids already given and at addresses in use that differ, the index
-- has exactly their ids with their addresses, and the timerfd is set for the first of them.
pub record Valid (s : TimerService) : Type 0 where
  pub sorted : Sorted s.timer_mset
  pub apart : Apart s.timer_mset
  pub addresses : All (λ t. t.address < s.heap) s.timer_mset
  pub ids : All (λ t. t.timer_id < s.id_allocator) s.timer_mset
  pub indexed : (i : ℕ) → find_id i s.id_timer_umap ≡ id_at i s.timer_mset
  pub armed : Armed s.timerfd s.timer_mset

All-insert {ℓ} :
    (P : Timer → Type ℓ) (t : Timer) (ts : Timers) → P t → All P ts → All P (insert t ts)
unfolding insert
All-insert P t [] ht h = (ht, tt)
All-insert P t (u ∷ ts) ht (hu, h) = elim (Bool-cases (ltb t.absolute_time u.absolute_time)) [
  | inl e ↦ rw e (ht, (hu, h))
  | inr e ↦ rw e (hu, All-insert P t ts ht h)
]

pub All-map {ℓ} :
    (P Q : Timer → Type ℓ) (ts : Timers) → ((u : Timer) → P u → Q u) → All P ts → All Q ts
All-map P Q [] f h = tt
All-map P Q (u ∷ ts) f (hu, h) = (f u hu, All-map P Q ts f h)

Sorted-insert : (t : Timer) (ts : Timers) → Sorted ts → Sorted (insert t ts)
unfolding insert
Sorted-insert t [] h = (tt, tt)
Sorted-insert t (u ∷ ts) (hu, h) = elim (Bool-cases (ltb t.absolute_time u.absolute_time)) [
  | inl e ↦ rw e (
    (
      omega (arith, ltb→lt t.absolute_time u.absolute_time e),
      All-map (λ v. u.absolute_time ≤ v.absolute_time) (λ v. t.absolute_time ≤ v.absolute_time) ts
          (λ v q. omega (arith, q, ltb→lt t.absolute_time u.absolute_time e)) hu,
    ),
    (hu, h),
  )
  | inr e ↦ rw e (
    All-insert (λ v. u.absolute_time ≤ v.absolute_time) t ts
        (ltb→ge t.absolute_time u.absolute_time e) hu,
    Sorted-insert t ts h,
  )
]

Apart-insert : (t : Timer) (ts : Timers) → All (IsApart t) ts → Apart ts → Apart (insert t ts)
unfolding insert
Apart-insert t [] ht h = (tt, tt)
Apart-insert t (u ∷ ts) (hu, ht) (hus, h) =
    elim (Bool-cases (ltb t.absolute_time u.absolute_time)) [
      | inl e ↦ rw e ((hu, ht), (hus, h))
      | inr e ↦ rw e (
        All-insert (IsApart u) t ts ((λ q. hu.0 (sym q)), (λ q. hu.1 (sym q))) hus,
        Apart-insert t ts ht h,
      )
    ]

id_at-insert :
    (i : ℕ) (t : Timer) (ts : Timers)
    → All (IsApart t) ts
    → id_at i (insert t ts) ≡ (if t.timer_id == i then some t.address else id_at i ts)
unfolding insert id_at
id_at-insert i t [] h = refl
id_at-insert i t (u ∷ ts) (hu, h) = elim (Bool-cases (ltb t.absolute_time u.absolute_time)) [
  | inl e ↦ rw e refl
  | inr e ↦
      rw (e, id_at-insert i t ts h)
        (swap (Bool-cases (u.timer_id == i)) (Bool-cases (t.timer_id == i)))
]
  where
    swap :
        ((u.timer_id == i) ≡ true) ⊎ ((u.timer_id == i) ≡ false)
        → ((t.timer_id == i) ≡ true) ⊎ ((t.timer_id == i) ≡ false)
        → (if u.timer_id == i
            then some u.address
            else (if t.timer_id == i then some t.address else id_at i ts))
          ≡ (if t.timer_id == i
              then some t.address
              else (if u.timer_id == i then some u.address else id_at i ts))
    swap (inl p) (inl q) = absurd (hu.0 (==→eq u.timer_id i p ∙ sym (==→eq t.timer_id i q)))
    swap (inl p) (inr q) = rw (p, q) refl
    swap (inr p) (inl q) = rw (p, q) refl
    swap (inr p) (inr q) = rw (p, q) refl

find_id-put_id :
    (i j a : ℕ) (m : Index) → find_id i (put_id j a m) ≡ (if j == i then some a else find_id i m)
unfolding find_id put_id
find_id-put_id i j a [] = refl
find_id-put_id i j a ((k, b) ∷ m) = elim (Bool-cases (k == j)) [
  | inl e ↦
      let k≡j = ==→eq k j e in
      rw e (elim (Bool-cases (j == i)) [ inl p ↦ rw p refl | inr p ↦ rw (k≡j, p) refl ])
  | inr e ↦
      rw (e, find_id-put_id i j a m)
        (elim (Bool-cases (k == i)) [
          | inl p ↦ elim (Bool-cases (j == i)) [
            | inl q ↦ absurd (==→ne k j e (==→eq k i p ∙ sym (==→eq j i q)))
            | inr q ↦ rw (p, q) refl
          ]
          | inr p ↦ rw p refl
        ])
]

pub find_id-erase_id :
    (i j : ℕ) (m : Index) → find_id i (erase_id j m) ≡ (if j == i then none else find_id i m)
unfolding find_id erase_id
find_id-erase_id i j [] = elim (Bool-cases (j == i)) [ inl p ↦ rw p refl | inr p ↦ rw p refl ]
find_id-erase_id i j ((k, b) ∷ m) = elim (Bool-cases (k == j)) [
  | inl e ↦
      let k≡j = ==→eq k j e in
      rw (e, find_id-erase_id i j m)
        (elim (Bool-cases (j == i)) [ inl p ↦ rw p refl | inr p ↦ rw (k≡j, p) refl ])
  | inr e ↦
      rw (e, find_id-erase_id i j m)
        (elim (Bool-cases (k == i)) [
          | inl p ↦ elim (Bool-cases (j == i)) [
            | inl q ↦ absurd (==→ne k j e (==→eq k i p ∙ sym (==→eq j i q)))
            | inr q ↦ rw (p, q) refl
          ]
          | inr p ↦ rw p refl
        ])
]

-- A new timer is the first exactly when the timerfd has to be set for it.
pub due-insert :
    (t : Timer) (ts : Timers)
    → All (λ u. u.address < t.address) ts
    → ((is_begin t.address (insert t ts) ≡ true) × (due (insert t ts) ≡ t.absolute_time))
      ⊎ ((is_begin t.address (insert t ts) ≡ false) × (due (insert t ts) ≡ due ts))
unfolding insert is_begin due
due-insert t [] h = inl (ground arith, refl)
due-insert t (u ∷ ts) (hu, h) = elim (Bool-cases (ltb t.absolute_time u.absolute_time)) [
  | inl e ↦ inl (rw e (ground arith), rw e refl)
  | inr e ↦ inr (rw e (ground (arith, hu)), rw e refl)
]

id_at-new : (i : ℕ) (ts : Timers) → All (λ u. u.timer_id < i) ts → id_at i ts ≡ none
unfolding id_at
id_at-new i [] h = refl
id_at-new i (t ∷ ts) (ht, h) = elim (Bool-cases (t.timer_id == i)) [
  | inl e ↦ absurd (omega (arith, ht, ==→eq t.timer_id i e))
  | inr e ↦ rw e (id_at-new i ts h)
]

apart_new :
    (i a : ℕ) (ts : Timers)
    → All (λ u. u.timer_id < i) ts
    → All (λ u. u.address < a) ts
    → All (λ u. (u.timer_id ≢ i) × (u.address ≢ a)) ts
apart_new i a [] h k = tt
apart_new i a (t ∷ ts) (ht, h) (kt, k) =
    ((λ e. omega (arith, ht, e), λ e. omega (arith, kt, e)), apart_new i a ts h k)

module _ (now now' op : ℕ) (timeout : Timespec) (s : TimerService) (ok : Valid s) where
  others : All (IsApart (new_timer now op timeout s)) s.timer_mset
  others = apart_new s.id_allocator s.heap s.timer_mset ok.ids ok.addresses

  register_new-indexed :
      (i : ℕ)
      → find_id i (put_id s.id_allocator s.heap s.id_timer_umap)
        ≡ id_at i (insert (new_timer now op timeout s) s.timer_mset)
  register_new-indexed i =
      find_id-put_id i s.id_allocator s.heap s.id_timer_umap
      ∙ ap (λ (o : Option ℕ). if s.id_allocator == i then some s.heap else o) (ok.indexed i)
      ∙ sym (id_at-insert i (new_timer now op timeout s) s.timer_mset others)

  register_new-Armed :
      Armed
        (register_new now now' op timeout s).timerfd
        (register_new now now' op timeout s).timer_mset
  register_new-Armed = elim (due-insert (new_timer now op timeout s) s.timer_mset ok.addresses) [
    | inl (b, d) ↦ (now', rw (b, d) refl)
    | inr (b, d) ↦ (ok.armed.0, rw (b, d) ok.armed.1)
  ]

  pub register_new-Valid : s.id_allocator + 1 < 2 ^ 63 → Valid (register_new now now' op timeout s)
  register_new-Valid room = record {
    sorted = Sorted-insert (new_timer now op timeout s) s.timer_mset ok.sorted;
    apart = Apart-insert (new_timer now op timeout s) s.timer_mset others ok.apart;
    addresses =
        All-insert (λ u. u.address < s.heap + 1) (new_timer now op timeout s) s.timer_mset
          (omega arith)
          (All-map (λ u. u.address < s.heap) (λ u. u.address < s.heap + 1) s.timer_mset
            (λ u h. omega (arith, h)) ok.addresses);
    ids =
        All-insert (λ u. u.timer_id < next_id s.id_allocator) (new_timer now op timeout s)
          s.timer_mset (ground (arith, room))
          (All-map (λ u. u.timer_id < s.id_allocator) (λ u. u.timer_id < next_id s.id_allocator)
            s.timer_mset (λ u h. ground (arith, h, room)) ok.ids);
    indexed = register_new-indexed;
    armed = register_new-Armed;
  }

  -- From a valid state, and while the ids have not run out of the 64-bit range, `registerTimer`
  -- leads to a valid state, whether the id it is given is in use or not.
  pub register_timer-Valid :
      (timer_id : ℤ)
      → s.id_allocator + 1 < 2 ^ 63
      → Valid (register_timer now now' timer_id op timeout s).1
  unfolding register_timer
  register_timer-Valid timer_id room = elim (Option-cases (find timer_id s.id_timer_umap)) [
    | inl e ↦ rw e (register_new-Valid room)
    | inr (a, e) ↦ rw e ok
  ]
