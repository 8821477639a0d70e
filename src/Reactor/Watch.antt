-- ===== src/Reactor/Watch.antt =====
-- What epoll watches is what the reactor of asio/src/details/reactor_service.cc has operations for.
use lcy.Prelude.{
  ℕ, ◌≡◌, ◌≢◌, refl, sym, ap, ◌∙◌, inl, inr, Option, none, some, if◌then◌else◌, Bool-cases,
  Option-cases,
}
use lcy.Prelude.Int.{ℤ}
use lcy.Prelude.Assoc.{eqz, eqz→eq, lookup-put, ℤ_keys}
use lcy.Reactor.{
  ErrCode, Control, add, modify, delete, Interest, Epoll, Side, reads, writes, other, OperationInfo,
  Reactor, operation, set_operation, has_operation, or_new, info_of, put_info, arm, disarm,
}

-- What epoll is documented to do: a call that fails changes nothing; one that does not sets, or
-- takes away, the interest in its descriptor, and no other; a descriptor that is not watched cannot
-- be modified; waiting changes no interest.
pub record Documented {World : Type 0} (epoll : Epoll World) : Type 0 where
  pub fails :
      (c : Control) (fd : ℤ) (i : Interest) (w : World)
      → (epoll.control c fd i w).1 ≢ 0
      → (j : ℤ) → epoll.interest (epoll.control c fd i w).0 j ≡ epoll.interest w j
  pub adds :
      (fd : ℤ) (i : Interest) (w : World)
      → (epoll.control add fd i w).1 ≡ 0
      → (j : ℤ)
      → epoll.interest (epoll.control add fd i w).0 j
        ≡ (if eqz fd j then some i else epoll.interest w j)
  pub modifies :
      (fd : ℤ) (i : Interest) (w : World)
      → (epoll.control modify fd i w).1 ≡ 0
      → (j : ℤ)
      → epoll.interest (epoll.control modify fd i w).0 j
        ≡ (if eqz fd j then some i else epoll.interest w j)
  pub deletes :
      (fd : ℤ) (i : Interest) (w : World)
      → (epoll.control delete fd i w).1 ≡ 0
      → (j : ℤ)
      → epoll.interest (epoll.control delete fd i w).0 j
        ≡ (if eqz fd j then none else epoll.interest w j)
  pub refuses :
      (fd : ℤ) (i : Interest) (w : World)
      → epoll.interest w fd ≡ none
      → (epoll.control modify fd i w).1 ≢ 0
  pub waits : (n : ℕ) (w : World) (j : ℤ) → epoll.interest (epoll.wait n w).0 j ≡ epoll.interest w j

-- A descriptor that is watched can be modified and deleted: its file is open, and the system has
-- memory.
pub record Reliable {World : Type 0} (epoll : Epoll World) : Type 0 where
  pub can_modify :
      (fd : ℤ) (i x : Interest) (w : World)
      → epoll.interest w fd ≡ some x
      → (epoll.control modify fd i w).1 ≡ 0
  pub can_delete :
      (fd : ℤ) (i x : Interest) (w : World)
      → epoll.interest w fd ≡ some x
      → (epoll.control delete fd i w).1 ≡ 0

-- The interest for two operations.
abbrev pub wanted_ops {ℓ} : {Op : Type ℓ} → ℤ → Option Op → Option Op → Option Interest
wanted_ops fd none none = none
wanted_ops fd (some r) none = some (record { events = 3; udata = fd })
wanted_ops fd none (some w) = some (record { events = 4; udata = fd })
wanted_ops fd (some r) (some w) = some (record { events = 7; udata = fd })

module _ {Op : Type 0} where
  abbrev pub wanted : ℤ → OperationInfo Op → Option Interest
  wanted fd i = wanted_ops fd i.read_op i.write_op

  pub wanted_has :
      (side : Side) (fd : ℤ) (i : OperationInfo Op) (op : Op)
      → operation side i ≡ some op
      → (x : Interest) × (wanted fd i ≡ some x)
  wanted_has reads fd i op e = elim (Option-cases i.write_op) [
    | inl n ↦ (record { events = 3; udata = fd }, rw (e, n) refl)
    | inr (w, n) ↦ (record { events = 7; udata = fd }, rw (e, n) refl)
  ]
  wanted_has writes fd i op e = elim (Option-cases i.read_op) [
    | inl n ↦ (record { events = 4; udata = fd }, rw (e, n) refl)
    | inr (w, n) ↦ (record { events = 7; udata = fd }, rw (e, n) refl)
  ]

module _ {Op World : Type 0} (epoll : Epoll World) where
  -- For each descriptor, epoll watches for the sides that have an operation, and for no other.
  abbrev pub Valid : Reactor Op World → Type 0
  Valid s = (fd : ℤ) → epoll.interest s.world fd ≡ wanted fd (info_of fd s)

  pub info_of-put :
      (j fd : ℤ) (i : OperationInfo Op) (s : Reactor Op World)
      → info_of j (put_info fd i s) ≡ (if eqz fd j then i else info_of j s)
  info_of-put j fd i s =
      ap or_new (lookup-put j fd i s.fd_opinfo_umap)
      ∙ elim (Bool-cases (eqz fd j)) [ inl p ↦ rw p refl | inr p ↦ rw p refl ]

  -- A descriptor's interest and info change together.
  pub put-Valid :
      (fd : ℤ) (i : OperationInfo Op) (w : World) (s : Reactor Op World)
      → Valid s
      → ((j : ℤ)
          → epoll.interest w j ≡ (if eqz fd j then wanted fd i else epoll.interest s.world j))
      → Valid (put_info fd i (record s { world = w }))
  put-Valid fd i w s v h j = h j ∙ elim (Bool-cases (eqz fd j)) [
    | inl p ↦ rw p (
        ap (λ (k : ℤ). wanted k i) (eqz→eq fd j p)
        ∙ sym (ap (wanted j) (info_of-put j fd i s ∙ rw p refl)))
    | inr p ↦ rw p (v j ∙ sym (ap (wanted j) (info_of-put j fd i s ∙ rw p refl)))
  ]

  -- Nothing changes where a descriptor gets the info that it has.
  pub same-Valid : (fd : ℤ) (s : Reactor Op World) → Valid s → Valid (put_info fd (info_of fd s) s)
  same-Valid fd s v = put-Valid fd (info_of fd s) s.world s v (λ j. elim (Bool-cases (eqz fd j)) [
    | inl p ↦ rw p (ap (epoll.interest s.world) (sym (eqz→eq fd j p)) ∙ v fd)
    | inr p ↦ rw p refl
  ])

  module _ (doc : Documented epoll)
      (call : Op → ErrCode → Reactor Op World → Reactor Op World) where
    pub arm_ok :
        (side : Side) (fd : ℤ) (op : Op) (i : OperationInfo Op) (w : World)
        → (arm epoll call side fd i w).1 ≡ 0
        → (j : ℤ)
        → epoll.interest (arm epoll call side fd i w).0 j
          ≡ (if eqz fd j then wanted fd (set_operation side (some op) i) else epoll.interest w j)
    arm_ok reads fd op i w h j = elim (Option-cases i.write_op) [
      | inl e ↦ rw e (doc.adds fd _ w (rw e at h) j)
      | inr (x, e) ↦ rw e (doc.modifies fd _ w (rw e at h) j)
    ]
    arm_ok writes fd op i w h j = elim (Option-cases i.read_op) [
      | inl e ↦ rw e (doc.adds fd _ w (rw e at h) j)
      | inr (x, e) ↦ rw e (doc.modifies fd _ w (rw e at h) j)
    ]

    pub arm_fails :
        (side : Side) (fd : ℤ) (i : OperationInfo Op) (w : World)
        → (arm epoll call side fd i w).1 ≢ 0
        → (j : ℤ) → epoll.interest (arm epoll call side fd i w).0 j ≡ epoll.interest w j
    arm_fails side fd i w h j = elim (Bool-cases (has_operation (other side) i)) [
      | inl e ↦ rw e (doc.fails modify fd _ w (rw e at h) j)
      | inr e ↦ rw e (doc.fails add fd _ w (rw e at h) j)
    ]

    pub disarm_ok :
        (side : Side) (fd : ℤ) (i : OperationInfo Op) (w : World) (x : Interest)
        → Reliable epoll
        → epoll.interest w fd ≡ some x
        → (j : ℤ)
        → epoll.interest (disarm epoll call side fd i w).0 j
          ≡ (if eqz fd j then wanted fd (set_operation side none i) else epoll.interest w j)
    disarm_ok reads fd i w x rel h j = elim (Option-cases i.write_op) [
      | inl e ↦ rw e (doc.deletes fd _ w (rel.can_delete fd _ x w h) j)
      | inr (y, e) ↦ rw e (doc.modifies fd _ w (rel.can_modify fd _ x w h) j)
    ]
    disarm_ok writes fd i w x rel h j = elim (Option-cases i.read_op) [
      | inl e ↦ rw e (doc.deletes fd _ w (rel.can_delete fd _ x w h) j)
      | inr (y, e) ↦ rw e (doc.modifies fd _ w (rel.can_modify fd _ x w h) j)
    ]
