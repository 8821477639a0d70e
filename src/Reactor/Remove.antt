-- ===== src/Reactor/Remove.antt =====
-- What `removeReadOperation` and `removeWriteOperation` of asio/src/details/reactor_service.cc leave of
-- the operations.
use lcy.Prelude.{
  ◌≡◌, refl, sym, ap, ◌∙◌, inl, inr, Option, none, if◌then◌else◌, Bool-cases, Option-cases, subst,
}
use lcy.Prelude.Int.{ℤ}
use lcy.Prelude.Assoc.{eqz, eqz→eq, lookup, ℤ_keys}
use lcy.Reactor.{
  ErrCode, Epoll, Side, reads, writes, OperationInfo, Reactor, operation, set_operation,
  no_operation, or_new, info_of, take_away, remove_operation,
}
use lcy.Reactor.Watch.{info_of-put}

same_info :
    {Op : Type 0} (side : Side) (i : OperationInfo Op)
    → operation side i ≡ none
    → set_operation side none i ≡ i
same_info {Op} reads i e = ap (λ (o : Option Op). record i { read_op = o }) (sym e)
same_info {Op} writes i e = ap (λ (o : Option Op). record i { write_op = o }) (sym e)

nothing_new : {Op : Type 0} (side : Side) → operation side (no_operation {Op = Op}) ≡ none
nothing_new reads = refl
nothing_new writes = refl

module _ {Op World : Type 0} where
  -- A state that differs from a first one, as far as operations go, by one side of one descriptor, which
  -- has none.
  abbrev pub Without : Side → ℤ → Reactor Op World → Reactor Op World → Type 0
  Without side fd s s' =
      (j : ℤ)
      → info_of j s' ≡ (if eqz fd j then set_operation side none (info_of fd s) else info_of j s)

  same-Without :
      (side : Side) (fd : ℤ) (s : Reactor Op World)
      → operation side (info_of fd s) ≡ none
      → Without side fd s s
  same-Without side fd s e j = elim (Bool-cases (eqz fd j)) [
    | inl q ↦
        rw q (ap (λ k. info_of k s) (sym (eqz→eq fd j q)) ∙ sym (same_info side (info_of fd s) e))
    | inr q ↦ rw q refl
  ]

  pub remove-Without :
      (epoll : Epoll World) (call : Op → ErrCode → Reactor Op World → Reactor Op World)
      (side : Side) (fd : ℤ) (s : Reactor Op World)
      → Without side fd s (remove_operation epoll call side fd s)
  unfolding remove_operation
  remove-Without epoll call side fd s = elim (Option-cases (lookup fd s.fd_opinfo_umap)) [
    | inl e ↦
        let same : remove_operation epoll call side fd s ≡ s = rw e refl in
        subst (Without side fd s) (sym same)
          (same-Without side fd s (ap (λ o. operation side (or_new o)) e ∙ nothing_new side))
    | inr (i, e) ↦ elim (Option-cases (operation side i)) [
      | inl m ↦
          let same : remove_operation epoll call side fd s ≡ s = rw (e, m) refl in
          subst (Without side fd s) (sym same)
            (same-Without side fd s (ap (λ o. operation side (or_new o)) e ∙ m))
      | inr (op, m) ↦
          let same : remove_operation epoll call side fd s ≡ take_away epoll call side fd i s =
            rw (e, m) refl in
          subst (Without side fd s) (sym same) (λ j.
            info_of-put epoll j fd (set_operation side none i) s
            ∙ ap (λ o. if eqz fd j then set_operation side none o else info_of j s)
                (sym (ap or_new e)))
    ]
  ]
