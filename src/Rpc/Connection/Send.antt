-- ===== src/Rpc/Connection/Send.antt =====
-- The sends of rpc/src/details/connection.cc: texts are written one at a time, in their order.
use lcy.Prelude.{
  ℕ, zero, suc, ◌≡◌, refl, sym, ap, ◌∙◌, Bool, true, false, Option, some, List, [], ◌∷◌, ◌++◌,
  ◌>>=◌, arith, length, drop, append_assoc, append-nil, length-append,
}
use lcy.Rpc.Connection.{
  Action, async_read, async_write, shut_down, message, Connection, start_deque_send, send,
  on_send_completed,
}

-- A call of `send`, or the end of the write that is under way.
pub data Event : Type 0 where
  sends : List ℕ → Event
  completes : Event

unfoldable pub step : Event → Connection → Option (Connection × List Action)
step (sends text) c = send c text
step completes c = on_send_completed c

unfoldable pub run : List Event → Connection → Option (Connection × List Action)
run [] c = some (c, [])
run (e ∷ es) c = do
  (c', actions) ← step e c
  (c'', actions') ← run es c'
  some (c'', actions ++ actions')

-- The texts that are sent, and those that the socket is asked to write.
unfoldable pub texts_sent : List Event → List (List ℕ)
texts_sent [] = []
texts_sent (sends text ∷ es) = text ∷ texts_sent es
texts_sent (completes ∷ es) = texts_sent es

unfoldable pub writes : List Action → List (List ℕ)
writes [] = []
writes (async_write text ∷ rest) = text ∷ writes rest
writes (async_read n ∷ rest) = writes rest
writes (shut_down ∷ rest) = writes rest
writes (message text ∷ rest) = writes rest

-- No write ends that was not begun, where `n` texts are in the deque.
unfoldable pub in_turn : ℕ → List Event → Bool
in_turn n [] = true
in_turn n (sends text ∷ es) = in_turn (suc n) es
in_turn zero (completes ∷ es) = false
in_turn (suc n) (completes ∷ es) = in_turn n es

-- The texts whose write has not begun: all but the first, which is under way.
abbrev pub unwritten : Connection → List (List ℕ)
unwritten c = drop 1 c.send_buf_deque

writes-append : (a b : List Action) → writes (a ++ b) ≡ writes a ++ writes b
unfolding writes
writes-append [] b = refl
writes-append (async_write text ∷ a) b = ap (◌∷◌ text) (writes-append a b)
writes-append (async_read n ∷ a) b = writes-append a b
writes-append (shut_down ∷ a) b = writes-append a b
writes-append (message text ∷ a) b = writes-append a b

-- What a step does to a connection with `n` texts in its deque.
record Stepped (e : Event) (c : Connection) (n : ℕ) : Type 0 where
  after : Connection
  actions : List Action
  result : step e c ≡ some (after, actions)
  count : length after.send_buf_deque ≡ n
  order : writes actions ++ unwritten after ≡ unwritten c ++ texts_sent (e ∷ [])

send-Stepped :
    (text : List ℕ) (c : Connection) (q : List (List ℕ))
    → c.send_buf_deque ≡ q
    → Stepped (sends text) c (suc (length q))
unfolding step send start_deque_send writes texts_sent
send-Stepped text c [] e = record {
  after = record c { send_buf_deque = text ∷ [] };
  actions = async_write text ∷ [];
  result = rw e refl;
  count = refl;
  order = rw e refl;
}
send-Stepped text c (d ∷ ds) e = record {
  after = record c { send_buf_deque = (d ∷ ds) ++ (text ∷ []) };
  actions = [];
  result = rw e refl;
  count = omega (arith, length-append ds (text ∷ []));
  order = rw e refl;
}

complete-Stepped :
    (c : Connection) (d : List ℕ) (ds : List (List ℕ))
    → c.send_buf_deque ≡ d ∷ ds
    → Stepped completes c (length ds)
unfolding step on_send_completed start_deque_send writes texts_sent
complete-Stepped c d [] e = record {
  after = record c { send_buf_deque = [] };
  actions = [];
  result = rw e refl;
  count = refl;
  order = rw e refl;
}
complete-Stepped c d (f ∷ ds) e = record {
  after = record c { send_buf_deque = f ∷ ds };
  actions = async_write f ∷ [];
  result = rw e refl;
  count = refl;
  order = rw e (ap (◌∷◌ f) (sym (append-nil ds)));
}

-- What a run leaves.
abbrev pub SentAll : List Event → Connection → Type 0
SentAll es c =
    (c' : Connection) × (actions : List Action) × (run es c ≡ some (c', actions))
    × (writes actions ++ unwritten c' ≡ unwritten c ++ texts_sent es)

continue :
    (e : Event) (es : List Event) (c : Connection) (n : ℕ)
    → texts_sent (e ∷ es) ≡ texts_sent (e ∷ []) ++ texts_sent es
    → (s : Stepped e c n) → SentAll es s.after
    → SentAll (e ∷ es) c
unfolding run
continue e es c n split s (c', actions, result, order) = (
  c',
  s.actions ++ actions,
  rw (s.result, result) refl,
  ap (λ (l : List (List ℕ)). l ++ unwritten c') (writes-append s.actions actions)
      ∙ append_assoc (writes s.actions) (writes actions) (unwritten c')
      ∙ ap (◌++◌ (writes s.actions)) order
      ∙ sym (append_assoc (writes s.actions) (unwritten s.after) (texts_sent es))
      ∙ ap (λ (l : List (List ℕ)). l ++ texts_sent es) s.order
      ∙ append_assoc (unwritten c) (texts_sent (e ∷ [])) (texts_sent es)
      ∙ ap (◌++◌ (unwritten c)) (sym split),
)

run-from :
    (es : List Event) (c : Connection) (q : List (List ℕ))
    → c.send_buf_deque ≡ q
    → in_turn (length q) es ≡ true
    → SentAll es c
unfolding in_turn
run-from [] c q e h = unfold run writes texts_sent in (c, [], refl, sym (append-nil (unwritten c)))
run-from (sends text ∷ es) c q e h =
    let s = send-Stepped text c q e in
    continue (sends text) es c (suc (length q)) (unfold texts_sent in refl) s
      (run-from es s.after s.after.send_buf_deque refl (rw s.count h))
run-from (completes ∷ es) c [] e h = cc
run-from (completes ∷ es) c (d ∷ ds) e h =
    let s = complete-Stepped c d ds e in
    continue completes es c (length ds) (unfold texts_sent in refl) s
      (run-from es s.after s.after.send_buf_deque refl (rw s.count h))

-- Where no write ends that was not begun, sends and ends of writes, in any turns, run without a
-- fault: the texts that the socket is asked to write, and then those that wait for their turn, are
-- those that waited and then those that are sent, all in their order, none lost or doubled.
pub run-SentAll :
    (es : List Event) (c : Connection) → in_turn (length c.send_buf_deque) es ≡ true → SentAll es c
run-SentAll es c h = run-from es c c.send_buf_deque refl h
