-- ===== src/Rpc/Accept/Turns.antt =====
-- What the server of rpc/src/details/server.cc does with a sequence of accepted connections.
use lcy.Prelude.{
  ℕ, suc, ◌+◌, ◌%◌, ◌<◌, ◌≡◌, refl, sym, ap, ◌∙◌, Bool, true, false, none, some, List, [], ◌∷◌,
  ◌++◌, if◌then◌else◌, length, arith, append_assoc, append-nil,
}
use lcy.Prelude.Int.{ℤ}
use native.Mathlib.Nat.{mod-add-mod}
use lcy.TcpSocket.{value, errno}
use lcy.ThreadPool.{ThreadPool, next_context}
use lcy.ThreadPool.RoundRobin.{Ready, new-Ready, start-Ready, start-thread_pool, next_context_turn}
use lcy.Acceptor.{Calls}
use lcy.Prelude.{Option, inl, inr, not, Bool-cases}
use lcy.Prelude.Assoc.{eqz}
use lcy.Reactor.{ErrCode, success}
use lcy.Rpc.Accept.{
  Outcome, Server, new_server, start_accept, welcome, readable, then_server, accept_all, start,
}

-- The connections that come before the first error, of `accept` or of a registration; the code is that
-- of the registration before them.
unfoldable pub accepted : ErrCode → List Outcome → List ℤ
accepted code [] = []
accepted code ((errno e, next) ∷ rs) = []
accepted code ((value fd, next) ∷ rs) =
    let rest = accepted next rs in if eqz code success then fd ∷ rest else []

unfoldable pub any_error : ErrCode → List Outcome → Bool
any_error code [] = not (eqz code success)
any_error code ((errno e, next) ∷ rs) = true
any_error code ((value fd, next) ∷ rs) =
    let rest = any_error next rs in if eqz code success then rest else true

-- Connections dealt to `n` threads in turn, the first to the thread `k % n`.
unfoldable pub dealt : ℕ → ℕ → List ℤ → List (ℕ × ℤ)
dealt n k [] = []
dealt n k (fd ∷ fds) = (k % n, fd) ∷ dealt n (suc k) fds

-- The next connection is for the thread `k % n`, and the one after it for the next thread.
pub record Turn (n k : ℕ) (s : Server) : Type 0 where
  pub ready : Ready s.io_thread_pool
  pub started : s.io_thread_pool.is_start ≡ true
  pub size : length s.io_thread_pool.threads ≡ n
  pub turn : s.io_thread_pool.next ≡ k % n

-- Where nothing waits, `start_accept` waits for a connection for the thread whose turn it is, if the
-- registration succeeds.
start_accept-Turn :
    (n k : ℕ) (code : ErrCode) (s : Server)
    → Turn n k s
    → s.accepting ≡ none
    → (s' : Server) × (start_accept code s ≡ some s')
      × (s'.accepting ≡ (if eqz code success then some (k % n) else none))
      × Turn n (suc k) s'
      × (s'.receiving ≡ s.receiving)
      × (s'.connected ≡ s.connected)
      × (s'.connect_op ≡ s.connect_op)
unfolding start_accept
start_accept-Turn n k code s t e =
    let (given_turn, ready) = next_context_turn s.io_thread_pool t.ready t.started in
    elim (Bool-cases (eqz code success)) [
      | inl q ↦ (
        waiting (some s.io_thread_pool.next),
        simp (given_turn, e, q) refl,
        rw q (ap some t.turn),
        record { ready = ready; started = t.started; size = t.size; turn = next_turn },
        refl,
        refl,
        refl,
      )
      | inr q ↦ (
        waiting none,
        simp (given_turn, e, q) refl,
        rw q refl,
        record { ready = ready; started = t.started; size = t.size; turn = next_turn },
        refl,
        refl,
        refl,
      )
    ]
  where
    waiting : Option ℕ → Server
    waiting o = record s {
      io_thread_pool = record s.io_thread_pool {
        next = (s.io_thread_pool.next + 1) % length s.io_thread_pool.threads;
      };
      accepting = o;
    }

    next_turn : (s.io_thread_pool.next + 1) % length s.io_thread_pool.threads ≡ suc k % n
    next_turn = rw (t.size, t.turn) (mod-add-mod k n 1 ∙ ap (λ (m : ℕ). m % n) (omega arith))

-- What `connect_op_` is called with: each connection, where a user has set it.
unfoldable pub reported : Bool → List ℤ → List ℤ
reported true fds = fds
reported false fds = []

reported_cons :
    (op : Bool) (fds : List ℤ) (fd : ℤ) (later : List ℤ)
    → (if op then fds ++ (fd ∷ []) else fds) ++ reported op later ≡ fds ++ reported op (fd ∷ later)
unfolding reported
reported_cons true fds fd later = append_assoc fds (fd ∷ []) later
reported_cons false fds fd later = refl

reported_nil : (op : Bool) (fds : List ℤ) → fds ≡ fds ++ reported op []
unfolding reported
reported_nil true fds = sym (append-nil fds)
reported_nil false fds = sym (append-nil fds)

-- Where nothing waits, no event is seen.
accept_all-deaf : (rs : List Outcome) (s : Server) → s.accepting ≡ none → accept_all rs s ≡ some s
unfolding accept_all readable then_server
accept_all-deaf [] s e = refl
accept_all-deaf ((r, next) ∷ rs) s e = simp e (accept_all-deaf rs s e)

-- After a registration that fails nothing comes.
refused-accepted :
    (code : ErrCode) (rs : List Outcome) → eqz code success ≡ false → accepted code rs ≡ []
unfolding accepted
refused-accepted code [] e = refl
refused-accepted code ((errno x, next) ∷ rs) e = refl
refused-accepted code ((value fd, next) ∷ rs) e = rw e refl

refused-any_error :
    (code : ErrCode) (rs : List Outcome) → eqz code success ≡ false → any_error code rs ≡ true
unfolding any_error
refused-any_error code [] e = rw e refl
refused-any_error code ((errno x, next) ∷ rs) e = refl
refused-any_error code ((value fd, next) ∷ rs) e = rw e refl

-- What any events behind a registration leave of a state in turn.
abbrev Dealt : ℕ → ℕ → ErrCode → List Outcome → Server → Option Server → Type 0
Dealt n k code rs s result =
    (s' : Server) × (result ≡ some s')
    × (s'.receiving ≡ s.receiving ++ dealt n k (accepted code rs))
    × (s'.connected ≡ s.connected ++ reported s.connect_op (accepted code rs))
    × (s'.accepting
        ≡ (if any_error code rs then none else some ((k + length (accepted code rs)) % n)))

refused-Dealt :
    (rs : List Outcome) (n k : ℕ) (code : ErrCode) (s s₁ : Server)
    → eqz code success ≡ false
    → s₁.accepting ≡ none
    → s₁.receiving ≡ s.receiving
    → s₁.connected ≡ s.connected
    → Dealt n k code rs s (accept_all rs s₁)
unfolding dealt
refused-Dealt rs n k code s s₁ q e r c = (
  s₁,
  accept_all-deaf rs s₁ e,
  r ∙ rw (refused-accepted code rs q) (sym (append-nil s.receiving)),
  c ∙ rw (refused-accepted code rs q) (reported_nil s.connect_op s.connected),
  e ∙ rw (refused-any_error code rs q) refl,
)

-- Behind a registration, if that is so for the states in which it succeeds.
registered-Dealt :
    (rs : List Outcome) (n k : ℕ) (code : ErrCode) (s : Server)
    → Turn n k s
    → s.accepting ≡ none
    → ((s₁ : Server)
        → Turn n (suc k) s₁
        → s₁.accepting ≡ some (k % n)
        → eqz code success ≡ true
        → Dealt n k code rs s₁ (accept_all rs s₁))
    → Dealt n k code rs s (then_server (start_accept code s) (λ s'. accept_all rs s'))
unfolding then_server
registered-Dealt rs n k code s t e go =
    let (s₁, first, e₁, t₁, r₁, c₁, o₁) = start_accept-Turn n k code s t e in
    elim (Bool-cases (eqz code success)) [
      | inr q ↦ simp first (refused-Dealt rs n k code s s₁ q (e₁ ∙ rw q refl) r₁ c₁)
      | inl q ↦
          let (s₂, run, r₂, c₂, a₂) = go s₁ t₁ (e₁ ∙ rw q refl) q in
          (s₂, simp first run, r₂ ∙ rw r₁ refl, c₂ ∙ rw (c₁, o₁) refl, a₂)
    ]

-- From a state in turn that waits, any events.
waiting-Dealt :
    (rs : List Outcome) (n k : ℕ) (code : ErrCode) (s : Server)
    → Turn n (suc k) s
    → s.accepting ≡ some (k % n)
    → eqz code success ≡ true
    → Dealt n k code rs s (accept_all rs s)
unfolding accept_all readable accepted any_error dealt reported then_server
waiting-Dealt [] n k code s t e q = (
  s,
  refl,
  sym (append-nil s.receiving),
  reported_nil s.connect_op s.connected,
  e ∙ rw q (ap (λ (m : ℕ). some (m % n)) (omega arith)),
)
waiting-Dealt ((errno x, next) ∷ rs) n k code s t e q =
    let deaf = record s { accepting = none } in
    (
      deaf,
      simp e (accept_all-deaf rs deaf refl),
      sym (append-nil s.receiving),
      reported_nil s.connect_op s.connected,
      refl,
    )
waiting-Dealt ((value fd, next) ∷ rs) n k code s t e q =
    let (s₂, run, r₂, c₂, a₂) =
      registered-Dealt rs n (suc k) next (welcome (k % n) fd (record s { accepting = none }))
        (record { ready = t.ready; started = t.started; size = t.size; turn = t.turn }) refl
        (λ s₁ t₁ e₁ q₁. waiting-Dealt rs n (suc k) next s₁ t₁ e₁ q₁) in
    (
      s₂,
      simp e run,
      r₂
          ∙ append_assoc s.receiving ((k % n, fd) ∷ []) (dealt n (suc k) (accepted next rs))
          ∙ rw q refl,
      c₂ ∙ reported_cons s.connect_op s.connected fd (accepted next rs) ∙ rw q refl,
      a₂
          ∙ ap (λ (m : ℕ). if any_error next rs then none else some (m % n))
              (let later : suc k + length (accepted next rs) ≡ k + suc (length (accepted next rs)) =
                  omega arith in
                later)
          ∙ rw q refl,
    )

new_server-Turn :
    (n : ℕ) {op : Bool}
    → 0 < n
    → Turn n 0 (record (new_server n op) {
      io_thread_pool = lcy.ThreadPool.start (lcy.ThreadPool.thread_pool n);
    })
new_server-Turn n h =
    let (on, size, next) = start-thread_pool n in
    record {
      ready = start-Ready (lcy.ThreadPool.thread_pool n) (new-Ready n h);
      started = on;
      size = size;
      turn = next ∙ grind (arith, h);
    }

-- A server with at least one thread that is started, whatever `setup` says, and whose first
-- registration comes to any code, and that then sees any events on its listening socket, each with any
-- code of the registration behind it, neither throws nor faults. It deals the connections that come
-- before the first error, of `accept` or of a registration, to its threads in turn, the first to the
-- first thread, in their order, and tells `connect_op_`, where it is set, of each of them. At the end
-- it waits for a connection for the thread that is next, but where there was an error it waits for
-- none and has seen no event after it.
pub accept_all-dealt :
    {World Address : Type 0} (calls : Calls World Address) (address : Address) (w : World) (n : ℕ)
    (op : Bool) (code : ErrCode) (rs : List Outcome)
    → 0 < n
    → (s : Server) × (then_server
          (start calls address w code (new_server n op)).1
          (λ s'. accept_all rs s')
        ≡ some s)
      × (s.receiving ≡ dealt n 0 (accepted code rs))
      × (s.connected ≡ reported op (accepted code rs))
      × (s.accepting ≡ (if any_error code rs then none else some (length (accepted code rs) % n)))
unfolding start
accept_all-dealt calls address w n op code rs h =
    let (s', run, r, c, a) =
      registered-Dealt rs n 0 code
        (record (new_server n op) {
          io_thread_pool = lcy.ThreadPool.start (lcy.ThreadPool.thread_pool n);
        })
        (new_server-Turn n h) refl (λ s₁ t e q. waiting-Dealt rs n 0 code s₁ t e q) in
    (
      s',
      run,
      r,
      c,
      a ∙ ap (λ (m : ℕ). if any_error code rs then none else some (m % n)) (omega arith),
    )
