-- ===== src/Reactor/Sample.antt =====
-- A concrete epoll for the runs of Tests: an association list of interests, which never fails but
-- where it is documented to.
use lcy.Prelude.{ℕ, ◌≡◌, ◌≢◌, refl, Option, none, some, List, [], if◌then◌else◌}
use lcy.Prelude.Int.{ℤ}
use lcy.Prelude.Assoc.{eqz, lookup, put, erase, lookup-put, lookup-erase, ℤ_keys}
use lcy.Reactor.{Control, add, modify, delete, Interest, ready, Epoll}
use lcy.Reactor.Watch.{Documented, Reliable}

abbrev pub Watched : Type 0
Watched = List (ℤ × Interest)

-- EEXIST is 17, ENOENT is 2.
abbrev pub control_found : Control → ℤ → Interest → Watched → Option Interest → Watched × ℕ
control_found add fd i w none = (put fd i w, 0)
control_found add fd i w (some x) = (w, 17)
control_found modify fd i w none = (w, 2)
control_found modify fd i w (some x) = (put fd i w, 0)
control_found delete fd i w none = (w, 2)
control_found delete fd i w (some x) = (erase fd w, 0)

abbrev pub sample : Epoll Watched
sample = record {
  control = λ c fd i w. control_found c fd i w (lookup fd w);
  wait = λ n w. (w, ready []);
  interest = λ w fd. lookup fd w;
}

sample-fails :
    (c : Control) (fd : ℤ) (i : Interest) (w : Watched) (o : Option Interest)
    → (control_found c fd i w o).1 ≢ 0
    → (j : ℤ) → lookup j (control_found c fd i w o).0 ≡ lookup j w
sample-fails add fd i w none h j = absurd (h refl)
sample-fails add fd i w (some x) h j = refl
sample-fails modify fd i w none h j = refl
sample-fails modify fd i w (some x) h j = absurd (h refl)
sample-fails delete fd i w none h j = refl
sample-fails delete fd i w (some x) h j = absurd (h refl)

sample-adds :
    (fd : ℤ) (i : Interest) (w : Watched) (o : Option Interest)
    → (control_found add fd i w o).1 ≡ 0
    → (j : ℤ) → lookup j (control_found add fd i w o).0 ≡ (if eqz fd j then some i else lookup j w)
sample-adds fd i w none h j = lookup-put j fd i w
sample-adds fd i w (some x) h j = cc

sample-modifies :
    (fd : ℤ) (i : Interest) (w : Watched) (o : Option Interest)
    → (control_found modify fd i w o).1 ≡ 0
    → (j : ℤ)
    → lookup j (control_found modify fd i w o).0 ≡ (if eqz fd j then some i else lookup j w)
sample-modifies fd i w none h j = cc
sample-modifies fd i w (some x) h j = lookup-put j fd i w

sample-deletes :
    (fd : ℤ) (i : Interest) (w : Watched) (o : Option Interest)
    → (control_found delete fd i w o).1 ≡ 0
    → (j : ℤ) → lookup j (control_found delete fd i w o).0 ≡ (if eqz fd j then none else lookup j w)
sample-deletes fd i w none h j = cc
sample-deletes fd i w (some x) h j = lookup-erase j fd w

pub sample-Documented : Documented sample
sample-Documented = record {
  fails = λ c fd i w h j. sample-fails c fd i w (lookup fd w) h j;
  adds = λ fd i w h j. sample-adds fd i w (lookup fd w) h j;
  modifies = λ fd i w h j. sample-modifies fd i w (lookup fd w) h j;
  deletes = λ fd i w h j. sample-deletes fd i w (lookup fd w) h j;
  refuses = λ fd i w e h. (let h' : ◌≡◌ {A = ℕ} 2 0 = rw e at h in cc);
  waits = λ n w j. refl;
}

pub sample-Reliable : Reliable sample
sample-Reliable = record {
  can_modify = λ fd i x w e. rw e refl;
  can_delete = λ fd i x w e. rw e refl;
}
