-- ===== src/Reactor/Stale.antt =====
-- `cancelAllOperations` of asio/src/details/reactor_service.cc, which takes the descriptor away from
-- epoll before it calls the first of two operations.
use lcy.Prelude.{ℕ, zero, suc, ◌≡◌, ◌≢◌, refl, sym, ap, ◌∙◌, none, some, subst}
use lcy.Prelude.Int.{ℤ, pos}
use lcy.Prelude.Assoc.{eqz_refl, lookup, ℤ_keys}
use lcy.Reactor.{
  ErrCode, eopcanceled, Epoll, modify, reads, writes, OperationInfo, Reactor, or_new, info_of,
  put_info, armed, register_operation, cancel_info, remove_fd, cancel_all_operations,
}
use lcy.Reactor.Watch.{Documented, Reliable, wanted, Valid, info_of-put}

module _ {Op World : Type 0} (epoll : Epoll World)
    (call : Op → ErrCode → Reactor Op World → Reactor Op World) where
  -- An operation is called with some `errno`.
  abbrev pub Fails : Op → Reactor Op World → Type 0
  Fails op s = (n : ℕ) × (s' : Reactor Op World) × (s ≡ call op (pos (suc n)) s')

  module _ (doc : Documented epoll) (rel : Reliable epoll) where
    abbrev both : Op → Op → OperationInfo Op
    both r w = record { read_op = some r; write_op = some w }

    abbrev only_write : Op → OperationInfo Op
    only_write w = record { read_op = none; write_op = some w }

    own_info :
        (fd : ℤ) (i : OperationInfo Op) (s : Reactor Op World) → info_of fd (put_info fd i s) ≡ i
    own_info fd i s = info_of-put epoll fd fd i s ∙ rw (eqz_refl fd) refl

    unwatched :
        (fd : ℤ) (r w : Op) (s : Reactor Op World)
        → Valid epoll s
        → info_of fd s ≡ both r w
        → epoll.interest (remove_fd epoll call fd s).world fd ≡ none
    unwatched fd r w s v e =
        doc.deletes fd (record { events = 0; udata = fd }) s.world
          (rel.can_delete fd (record { events = 0; udata = fd }) (record { events = 7; udata = fd })
            s.world (v fd ∙ ap (wanted fd) e))
          fd
        ∙ rw (eqz_refl fd) refl

    armed-Fails :
        (fd : ℤ) (op : Op) (i : OperationInfo Op) (s : Reactor Op World) (x : World × ℕ)
        → x.1 ≢ 0
        → Fails op (armed epoll call reads fd op i s x)
    armed-Fails fd op i s (w, zero) h = absurd (h refl)
    armed-Fails fd op i s (w, suc n) h = (n, record s { world = w }, refl)

    register-Fails :
        (fd : ℤ) (op w : Op) (s : Reactor Op World)
        → info_of fd s ≡ only_write w
        → epoll.interest s.world fd ≡ none
        → Fails op (register_operation epoll call reads fd op s)
    unfolding register_operation
    register-Fails fd op w s e h = rw e (
        armed-Fails fd op (only_write w) (put_info fd (only_write w) s)
          (epoll.control modify fd (record { events = 7; udata = fd }) s.world)
          (doc.refuses fd (record { events = 7; udata = fd }) s.world h))

    cancel_first :
        (fd : ℤ) (r w : Op) (s : Reactor Op World)
        → info_of fd s ≡ both r w
        → cancel_info epoll call reads fd s ≡ call r eopcanceled (put_info fd (only_write w) s)
    unfolding cancel_info
    cancel_first fd r w s e = rw e refl

    -- Of a descriptor with both operations, whose read operation registers another one when it is
    -- cancelled: in a state where epoll watches what it should, `cancelAllOperations` has that new
    -- operation called with an error of the system before it goes on to the write operation.
    pub cancel_all-Fails :
        (fd : ℤ) (r w r' : Op) (s : Reactor Op World)
        → Valid epoll s
        → lookup fd s.fd_opinfo_umap ≡ some (both r w)
        → ((u : Reactor Op World)
            → call r eopcanceled u ≡ register_operation epoll call reads fd r' u)
        → (u : Reactor Op World) × Fails r' u
          × (cancel_all_operations epoll call fd s ≡ cancel_info epoll call writes fd u)
    unfolding cancel_all_operations
    cancel_all-Fails fd r w r' s v e again =
        let own : info_of fd s ≡ both r w = ap or_new e in
        let f : Fails r' (
            register_operation epoll call reads fd r'
              (put_info fd (only_write w) (remove_fd epoll call fd s))) =
          register-Fails fd r' w (put_info fd (only_write w) (remove_fd epoll call fd s))
            (own_info fd (only_write w) (remove_fd epoll call fd s)) (unwatched fd r w s v own) in
        (
          call r eopcanceled (put_info fd (only_write w) (remove_fd epoll call fd s)),
          subst (Fails r') (sym (again (put_info fd (only_write w) (remove_fd epoll call fd s)))) f,
          rw e (
              ap (cancel_info epoll call writes fd)
                (cancel_first fd r w (remove_fd epoll call fd s) own)),
        )
