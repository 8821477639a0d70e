-- ===== src/SignalSet/Mask.antt =====
-- While a set of asio/src/signal_set.cc waits, its signal is blocked, so that it does not end the
-- process.
use lcy.Prelude.{
  ℕ, ◌⊎◌, ◌≡◌, refl, sym, ap, ◌∙◌, inl, inr, Bool, true, false, Option, none, List, [], ◌∷◌,
  Bool-cases, Option-cases, subst,
}
use lcy.Prelude.Int.{ℤ, negsuc}
use lcy.Prelude.Assoc.{eqz, eqz_refl, lookup, ℤ_keys}
use lcy.Reactor.{
  success, eopcanceled, Control, modify, delete, Interest, Epoll, reads, OperationInfo, Reactor,
  info_of, put_info, take_away, set_operation, or_new, remove_operation, cancel_operation,
  do_operation,
}
use lcy.Reactor.Watch.{info_of-put}
use lcy.SignalSet.{
  Signals, SignalOp, signal_op, Callback, on_signal, SignalSet, notify, call, async_wait, cancel,
}

-- What the manual says of the signals that are blocked: `pthread_sigmask` changes them, and the other
-- calls do not.
pub record Masks {World : Type 0} (epoll : Epoll World) (signals : Signals World)
    (blocked : World → ℕ → Bool) : Type 0 where
  pub blocks : (n : ℕ) (w : World) → blocked (signals.block n w) n ≡ true
  pub unblocks : (n : ℕ) (w : World) → blocked (signals.unblock n w) n ≡ false
  pub read_keeps : (fd : ℤ) (n : ℕ) (w : World) → blocked (signals.read fd w).0 n ≡ blocked w n
  pub control_keeps :
      (c : Control) (fd : ℤ) (i : Interest) (n : ℕ) (w : World)
      → blocked (epoll.control c fd i w).0 n ≡ blocked w n

-- What happens to a set: the user waits or cancels, or its descriptor can be read.
pub data Happening : Type 0 where
  waits : ℕ → Happening
  cancels : Happening
  comes : Happening

module _ {World : Type 0} (epoll : Epoll World) (signals : Signals World)
    (user : Callback → Reactor SignalOp World → Reactor SignalOp World) (blocked : World → ℕ → Bool)
    (x : SignalSet) where
  unfoldable pub happen : Happening → Reactor SignalOp World → Reactor SignalOp World
  unfolding async_wait cancel do_operation
  happen (waits u) s = async_wait epoll signals user u x s
  happen cancels s = cancel epoll signals user x s
  happen comes s = do_operation epoll (call epoll signals user) reads x.signal_fd success s

  unfoldable pub happen_all : List Happening → Reactor SignalOp World → Reactor SignalOp World
  happen_all [] s = s
  happen_all (a ∷ rest) s = happen_all rest (happen a s)

  -- What the set waits with.
  abbrev pub waiting : Reactor SignalOp World → Option SignalOp
  waiting s = (info_of x.signal_fd s).read_op

  -- The set waits for nothing, or its signal is blocked.
  abbrev pub Guarded : Reactor SignalOp World → Type 0
  Guarded s = (waiting s ≡ none) ⊎ (blocked s.world x.signum ≡ true)

  module _ (laws : Masks epoll signals blocked)
      (kind : (c : Callback) (s : Reactor SignalOp World) → Guarded s → Guarded (user c s))
      (quiet : (u : ℕ) (s : Reactor SignalOp World)
        → user (on_signal u eopcanceled (negsuc 0)) s ≡ s) where
    put_self :
        (fd : ℤ) (i : OperationInfo SignalOp) (s : Reactor SignalOp World)
        → info_of fd (put_info fd i s) ≡ i
    put_self fd i s = info_of-put epoll fd fd i s ∙ rw (eqz_refl fd) refl

    kept :
        (fd : ℤ) (i : OperationInfo SignalOp) (s : Reactor SignalOp World)
        → blocked (take_away epoll (notify epoll signals user) reads fd i s).world x.signum
          ≡ blocked s.world x.signum
    kept fd i s = elim (Option-cases i.write_op) [
      | inl m ↦ rw m (laws.control_keeps delete fd _ x.signum s.world)
      | inr (op, m) ↦ rw m (laws.control_keeps modify fd _ x.signum s.world)
    ]

    still :
        (fd : ℤ) (i : OperationInfo SignalOp) (s : Reactor SignalOp World)
        → waiting s ≡ none
        → waiting (take_away epoll (notify epoll signals user) reads fd i s) ≡ none
    still fd i s m =
        ap (λ j. j.read_op) (info_of-put epoll x.signal_fd fd (set_operation reads none i) s)
        ∙ elim (Bool-cases (eqz fd x.signal_fd)) [ inl q ↦ rw q refl | inr q ↦ rw q m ]

    -- Taking an operation of some descriptor away adds none, and keeps the mask.
    taken-Guarded :
        (fd : ℤ) (i : OperationInfo SignalOp) (s : Reactor SignalOp World)
        → Guarded s
        → Guarded (take_away epoll (notify epoll signals user) reads fd i s)
    taken-Guarded fd i s (inl m) = inl (still fd i s m)
    taken-Guarded fd i s (inr b) = inr (kept fd i s ∙ b)

    read-Guarded :
        (fd : ℤ) (s : Reactor SignalOp World)
        → Guarded s
        → Guarded (record s { world = (signals.read fd s.world).0 })
    read-Guarded fd s (inl m) = inl m
    read-Guarded fd s (inr b) = inr (laws.read_keeps fd x.signum s.world ∙ b)

    cancelled :
        (s : Reactor SignalOp World)
        → waiting (cancel_operation epoll (call epoll signals user) reads x.signal_fd s) ≡ none
    unfolding cancel_operation call notify
    cancelled s = elim (Option-cases (lookup x.signal_fd s.fd_opinfo_umap)) [
      | inl e ↦ rw e (ap (λ o. (or_new o).read_op) e)
      | inr (i, e) ↦ elim (Option-cases i.read_op) [
        | inl m ↦ rw (e, m) (ap (λ o. (or_new o).read_op) e ∙ m)
        | inr (signal_op fd u, m) ↦
            rw (e, m, quiet u _)
              (ap (λ j. j.read_op) (put_self x.signal_fd (set_operation reads none i) s))
      ]
    ]

    removed-Guarded :
        (fd : ℤ) (s : Reactor SignalOp World)
        → Guarded s
        → Guarded (remove_operation epoll (notify epoll signals user) reads fd s)
    unfolding remove_operation
    removed-Guarded fd s g = elim (Option-cases (lookup fd s.fd_opinfo_umap)) [
      | inl e ↦ rw e g
      | inr (i, e) ↦ elim (Option-cases i.read_op) [
        | inl m ↦ rw (e, m) g
        | inr (op, m) ↦ rw (e, m) (taken-Guarded fd i s g)
      ]
    ]

    called-Guarded :
        (op : SignalOp) (s : Reactor SignalOp World)
        → Guarded s
        → Guarded (call epoll signals user op success s)
    unfolding call
    called-Guarded (signal_op fd u) s g =
        let s' = remove_operation epoll (notify epoll signals user) reads fd s in
        kind _ (record s' { world = (signals.read fd s'.world).0 })
          (read-Guarded fd s' (removed-Guarded fd s g))

    happen-Guarded : (a : Happening) (s : Reactor SignalOp World) → Guarded s → Guarded (happen a s)
    unfolding happen async_wait cancel do_operation
    happen-Guarded (waits u) s g = inr (laws.blocks x.signum _)
    happen-Guarded cancels s g = inl (cancelled s)
    happen-Guarded comes s g = elim (Option-cases (waiting s)) [
      | inl m ↦ let same : happen comes s ≡ s = rw m refl in subst Guarded (sym same) g
      | inr (op, m) ↦
          let same : happen comes s ≡ call epoll signals user op success s = rw m refl in
          subst Guarded (sym same) (called-Guarded op s g)
    ]

    -- From a state where it is so, and whatever happens to a set in whatever order, the set waits for
    -- nothing or its signal is blocked, also where the
    -- callbacks use the reactor, as long as they keep that up and do nothing with it when they are told
    -- that their wait is cancelled.
    pub happen_all-Guarded :
        (run : List Happening) (s : Reactor SignalOp World) → Guarded s → Guarded (happen_all run s)
    unfolding happen_all
    happen_all-Guarded [] s g = g
    happen_all-Guarded (a ∷ run) s g = happen_all-Guarded run (happen a s) (happen-Guarded a s g)
