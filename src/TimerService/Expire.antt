-- ===== src/TimerService/Expire.antt =====
-- `expireTimerExecute` of asio/src/details/timer_service.cc from a valid state.
use lcy.Prelude.{
  ℕ, ◌+◌, ◌≤◌, ◌<◌, ◌≡◌, refl, sym, ap, ◌∙◌, inl, inr, false, [], ◌∷◌, ◌++◌, ◌==◌, ltb, All, arith,
  Bool-cases, ==→eq, ltb→lt, ltb→ge,
}
use lcy.TimerService.{
  Timer, Timers, Index, Calls, TimerService, find_id, erase_id, expire_loop, do_all,
  expire_timer_execute,
}
use lcy.TimerService.Inv.{Sorted, IsApart, Apart, id_at, Valid, All-map, find_id-erase_id}
use lcy.TimerService.Cancel.{waiting, called, id_at-absent}

-- What the loop finds among timers that stand in order.
record Expired (now heap top : ℕ) (ts : Timers) (r : Timers × Timers × Index) : Type 0 where
  split : ts ≡ r.0 ++ r.1
  over : All (λ t. t.absolute_time ≤ now) r.0
  later : All (λ t. now < t.absolute_time) r.1
  sorted : Sorted r.1
  apart : Apart r.1
  addresses : All (λ t. t.address < heap) r.1
  ids : All (λ t. t.timer_id < top) r.1
  indexed : (i : ℕ) → find_id i r.2 ≡ id_at i r.1

index-tail :
    (t : Timer) (ts : Timers) (m : Index)
    → All (IsApart t) ts
    → ((i : ℕ) → find_id i m ≡ id_at i (t ∷ ts))
    → (i : ℕ) → find_id i (erase_id t.timer_id m) ≡ id_at i ts
unfolding id_at
index-tail t ts m ht h i = find_id-erase_id i t.timer_id m ∙ elim (Bool-cases (t.timer_id == i)) [
  | inl e ↦ rw e (sym (id_at-absent i t ts ht (sym (==→eq t.timer_id i e))))
  | inr e ↦ let h' : find_id i m ≡ id_at i ts = rw e at (h i) in rw e h'
]

expire_loop-Expired :
    (now heap top : ℕ) (ts : Timers) (m : Index)
    → Sorted ts
    → Apart ts
    → All (λ t. t.address < heap) ts
    → All (λ t. t.timer_id < top) ts
    → ((i : ℕ) → find_id i m ≡ id_at i ts)
    → Expired now heap top ts (expire_loop now ts m)
unfolding expire_loop
expire_loop-Expired now heap top [] m hs ha hh hi h = record {
  split = refl;
  over = tt;
  later = tt;
  sorted = tt;
  apart = tt;
  addresses = tt;
  ids = tt;
  indexed = h;
}
expire_loop-Expired now heap top (t ∷ ts) m hs ha hh hi h =
    elim (Bool-cases (ltb now t.absolute_time)) [
      | inl e ↦ rw e (record {
        split = refl;
        over = tt;
        later = (
          ltb→lt now t.absolute_time e,
          All-map (λ u. t.absolute_time ≤ u.absolute_time) (λ u. now < u.absolute_time) ts
              (λ u q. omega (arith, q, ltb→lt now t.absolute_time e)) hs.0,
        );
        sorted = hs;
        apart = ha;
        addresses = hh;
        ids = hi;
        indexed = h;
      })
      | inr e ↦
          let r =
            expire_loop-Expired now heap top ts (erase_id t.timer_id m) hs.1 ha.1 hh.1 hi.1
              (index-tail t ts m ha.0 h) in
          rw e (record {
            split = ap (◌∷◌ t) r.split;
            over = (ltb→ge now t.absolute_time e, r.over);
            later = r.later;
            sorted = r.sorted;
            apart = r.apart;
            addresses = r.addresses;
            ids = r.ids;
            indexed = r.indexed;
          })
    ]

waiting-append :
    (n : ℕ) (ts us : Timers) → waiting n (ts ++ us) ≡ called n (do_all ts) + waiting n us
unfolding waiting called do_all
waiting-append n [] us = omega arith
waiting-append n (t ∷ ts) us = omega (arith, waiting-append n ts us)

-- What the expiry does: the timers split, in their order, into those that are due, whose
-- operations are called one after the other with success, and later ones, which stay.
pub record Expires (now : ℕ) (s s' : TimerService) (calls : Calls) : Type 0 where
  pub expired : Timers
  pub split : s.timer_mset ≡ expired ++ s'.timer_mset
  pub calls_all : calls ≡ do_all expired
  pub over : All (λ t. t.absolute_time ≤ now) expired
  pub later : All (λ t. now < t.absolute_time) s'.timer_mset
  pub valid : Valid s'
  pub counts : (n : ℕ) → waiting n s.timer_mset ≡ called n calls + waiting n s'.timer_mset

pub expire_timer_execute-Expires :
    (now now' : ℕ) (s : TimerService)
    → Valid s
    → Expires now s
        (expire_timer_execute now now' false s).0
        (expire_timer_execute now now' false s).1
unfolding expire_timer_execute
expire_timer_execute-Expires now now' s ok =
    let r = expire_loop now s.timer_mset s.id_timer_umap in
    let x : Expired now s.heap s.id_allocator s.timer_mset
        (expire_loop now s.timer_mset s.id_timer_umap) =
      expire_loop-Expired now s.heap s.id_allocator s.timer_mset s.id_timer_umap ok.sorted ok.apart
        ok.addresses ok.ids ok.indexed in
    record {
      expired = r.0;
      split = x.split;
      calls_all = refl;
      over = x.over;
      later = x.later;
      valid = record {
        sorted = x.sorted;
        apart = x.apart;
        addresses = x.addresses;
        ids = x.ids;
        indexed = x.indexed;
        armed = (now', refl);
      };
      counts = λ n. ap (waiting n) x.split ∙ waiting-append n r.0 r.1;
    }
