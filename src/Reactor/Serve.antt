-- ===== src/Reactor/Serve.antt =====
-- The members of the reactor of asio/src/details/reactor_service.cc keep epoll and the operations
-- in step, whatever the operations do.
use lcy.Prelude.{
  ℕ, zero, suc, ◌≡◌, ◌≢◌, refl, ap, ◌∙◌, inl, inr, Option, none, some, if◌then◌else◌, Bool-cases,
  Option-cases,
}
use lcy.Prelude.Int.{ℤ, pos}
use lcy.Prelude.Assoc.{eqz, lookup, ℤ_keys}
use lcy.Reactor.{
  ErrCode, eopexists, Event, Epoll, Side, OperationInfo, Reactor, operation, set_operation,
  has_operation, or_new, info_of, put_info, arm, disarm, armed, register_operation, take_away,
  remove_operation, cancel_operation, remove_all_operations, handle_event,
}
use lcy.Reactor.Watch.{
  Documented, Reliable, wanted, wanted_has, Valid, put-Valid, same-Valid, arm_ok, arm_fails,
  disarm_ok,
}

-- A call of a member, or an event that the loop handles.
pub data Request (Op : Type 0) : Type 0 where
  registers : Side → ℤ → Op → Request Op
  removes : Side → ℤ → Request Op
  cancels : Side → ℤ → Request Op
  removes_all : ℤ → Request Op
  happens : Event → Request Op

module _ {Op World : Type 0} (epoll : Epoll World)
    (call : Op → ErrCode → Reactor Op World → Reactor Op World) where
  unfoldable pub serve : Request Op → Reactor Op World → Reactor Op World
  serve (registers side fd op) s = register_operation epoll call side fd op s
  serve (removes side fd) s = remove_operation epoll call side fd s
  serve (cancels side fd) s = cancel_operation epoll call side fd s
  serve (removes_all fd) s = remove_all_operations epoll call fd s
  serve (happens e) s = handle_event epoll call e s

  module _ (doc : Documented epoll) (rel : Reliable epoll)
      (kind : (op : Op) (ec : ErrCode) (s : Reactor Op World)
        → Valid epoll s
        → Valid epoll (call op ec s)) where
    armed-Valid :
        (side : Side) (fd : ℤ) (op : Op) (i : OperationInfo Op) (s : Reactor Op World)
        (r : World × ℕ)
        → Valid epoll s
        → (r.1 ≡ 0
            → (j : ℤ)
            → epoll.interest r.0 j ≡ (
                if eqz fd j
                then wanted fd (set_operation side (some op) i)
                else epoll.interest s.world j))
        → (r.1 ≢ 0 → (j : ℤ) → epoll.interest r.0 j ≡ epoll.interest s.world j)
        → Valid epoll (armed epoll call side fd op i s r)
    armed-Valid side fd op i s (w, zero) v good bad =
        put-Valid epoll fd (set_operation side (some op) i) w s v (good refl)
    armed-Valid side fd op i s (w, suc n) v good bad =
        kind op (pos (suc n)) (record s { world = w }) (λ j. bad (λ e. cc) j ∙ v j)

    pub register-Valid :
        (side : Side) (fd : ℤ) (op : Op) (s : Reactor Op World)
        → Valid epoll s
        → Valid epoll (register_operation epoll call side fd op s)
    unfolding register_operation
    register-Valid side fd op s v =
        let v' = same-Valid epoll fd s v in
        elim (Bool-cases (has_operation side (info_of fd s))) [
          | inl e ↦ rw e (kind op eopexists (put_info fd (info_of fd s) s) v')
          | inr e ↦ rw e (
              armed-Valid side fd op (info_of fd s) (put_info fd (info_of fd s) s)
                (arm epoll call side fd (info_of fd s) s.world) v'
                (λ h. arm_ok epoll doc call side fd op (info_of fd s) s.world h)
                (λ h. arm_fails epoll doc call side fd (info_of fd s) s.world h))
        ]

    take_away-Valid :
        (side : Side) (fd : ℤ) (i : OperationInfo Op) (op : Op) (s : Reactor Op World)
        → Valid epoll s
        → lookup fd s.fd_opinfo_umap ≡ some i
        → operation side i ≡ some op
        → Valid epoll (take_away epoll call side fd i s)
    take_away-Valid side fd i op s v e h =
        let (x, w) = wanted_has side fd i op h in
        put-Valid epoll fd (set_operation side none i) (disarm epoll call side fd i s.world).0 s v (
          disarm_ok epoll doc call side fd i s.world x rel
            (v fd ∙ ap (λ (o : Option (OperationInfo Op)). wanted fd (or_new o)) e ∙ w))

    pub remove-Valid :
        (side : Side) (fd : ℤ) (s : Reactor Op World)
        → Valid epoll s
        → Valid epoll (remove_operation epoll call side fd s)
    unfolding remove_operation
    remove-Valid side fd s v = elim (Option-cases (lookup fd s.fd_opinfo_umap)) [
      | inl e ↦ rw e v
      | inr (i, e) ↦ elim (Option-cases (operation side i)) [
        | inl n ↦ rw (e, n) v
        | inr (op, n) ↦ rw (e, n) (take_away-Valid side fd i op s v e n)
      ]
    ]
