-- ===== src/Reactor/Loop.antt =====
-- The loop of asio/src/details/reactor_service.cc, round by round.
use lcy.Prelude.{
  ℕ, zero, suc, ◌*◌, ◌≡◌, ◌≢◌, refl, inl, inr, Bool, true, false, List, [], ◌∷◌, ◌++◌, ◌==◌, leb,
  length, if◌then◌else◌, Bool-cases, ==→eq, ==→ne, subst,
}
use lcy.Prelude.Int.{pos}
use lcy.Reactor.{
  ErrCode, success, Event, Waited, ready, failed, Epoll, Reactor, Looped, returned, running,
  handle_event, handle_events, grow, waited, loop, loop_wait,
}

module _ {Op World : Type 0} (epoll : Epoll World)
    (call : Op → ErrCode → Reactor Op World → Reactor Op World) where
  -- Events that are handled one after the other.
  pub data Handled : Reactor Op World → List Event → Reactor Op World → Type 0 where
    none_left : (s : Reactor Op World) → Handled s [] s
    one_more :
        (e : Event) (es : List Event) (s s' : Reactor Op World)
        → Handled (handle_event epoll call e s) es s'
        → Handled s (e ∷ es) s'

  -- Rounds of the loop, as many as the number says, in which `epoll_wait` gives some events in all. No
  -- round begins when `quit_` is set. One that a signal interrupts only asks again; another handles all
  -- its events, and when they have filled the array, doubles it.
  pub data Rounds : ℕ → Reactor Op World → List Event → Reactor Op World → Type 0 where
    no_round : (s : Reactor Op World) → Rounds 0 s [] s
    interrupted :
        (k : ℕ) (es : List Event) (w : World) (s s' : Reactor Op World)
        → s.quit ≡ false
        → epoll.wait s.event_array s.world ≡ (w, failed 4)
        → Rounds k (record s { world = w }) es s'
        → Rounds (suc k) s es s'
    round :
        (k : ℕ) (new es : List Event) (w : World) (s h s' : Reactor Op World) (room : ℕ)
        → s.quit ≡ false
        → epoll.wait s.event_array s.world ≡ (w, ready new)
        → Handled (record s { world = w }) new h
        → room ≡ (if leb h.event_array (length new) then length new * 2 else h.event_array)
        → Rounds k (record h { event_array = room }) es s'
        → Rounds (suc k) s (new ++ es) s'

  -- How a loop ends that may take some rounds: `quit_` is set, and it returns at once with no error;
  -- or `epoll_wait` fails, and not by a signal, and it returns that error; or it has taken just so many
  -- rounds, and runs on.
  pub data Ends (fuel : ℕ) (s : Reactor Op World) : Looped Op World → Type 0 where
    quits :
        (k : ℕ) (es : List Event) (s' : Reactor Op World)
        → Rounds k s es s'
        → s'.quit ≡ true
        → Ends fuel s (returned success s')
    fails :
        (k n : ℕ) (es : List Event) (w : World) (s' : Reactor Op World)
        → Rounds k s es s'
        → s'.quit ≡ false
        → epoll.wait s'.event_array s'.world ≡ (w, failed n)
        → n ≢ 4
        → Ends fuel s (returned (pos n) (record s' { world = w }))
    runs_on :
        (es : List Event) (s' : Reactor Op World) → Rounds fuel s es s' → Ends fuel s (running s')

  all-Handled :
      (es : List Event) (s : Reactor Op World) → Handled s es (handle_events epoll call es s)
  unfolding handle_events
  all-Handled [] s = none_left s
  all-Handled (e ∷ es) s = one_more e es s _ (all-Handled es (handle_event epoll call e s))

  interrupted-Ends :
      (fuel : ℕ) (w : World) (s : Reactor Op World) (r : Looped Op World)
      → s.quit ≡ false
      → epoll.wait s.event_array s.world ≡ (w, failed 4)
      → Ends fuel (record s { world = w }) r
      → Ends (suc fuel) s r
  interrupted-Ends fuel w s r q e (quits k es s' h done) =
      quits (suc k) es s' (interrupted k es w s s' q e h) done
  interrupted-Ends fuel w s r q e (fails k n es w' s' h on bad other) =
      fails (suc k) n es w' s' (interrupted k es w s s' q e h) on bad other
  interrupted-Ends fuel w s r q e (runs_on es s' h) =
      runs_on es s' (interrupted fuel es w s s' q e h)

  grown : (n : ℕ) (s : Reactor Op World) → Reactor Op World
  grown n s = record s { event_array = if leb s.event_array n then n * 2 else s.event_array }

  grow-grown : (n : ℕ) (s : Reactor Op World) → grow n s ≡ grown n s
  unfolding grown
  grow-grown n s = elim (Bool-cases (leb s.event_array n)) [ inl e ↦ rw e refl | inr e ↦ rw e refl ]

  round-Ends :
      (fuel : ℕ) (new : List Event) (w : World) (s : Reactor Op World) (r : Looped Op World)
      → s.quit ≡ false
      → epoll.wait s.event_array s.world ≡ (w, ready new)
      → Ends fuel (grown (length new) (handle_events epoll call new (record s { world = w }))) r
      → Ends (suc fuel) s r
  unfolding grown
  round-Ends fuel new w s r q e (quits k es s' h done) =
      quits (suc k) (new ++ es) s'
        (round k new es w s _ s' _ q e (all-Handled new (record s { world = w })) refl h) done
  round-Ends fuel new w s r q e (fails k n es w' s' h on bad other) =
      fails (suc k) n (new ++ es) w' s'
        (round k new es w s _ s' _ q e (all-Handled new (record s { world = w })) refl h) on bad
        other
  round-Ends fuel new w s r q e (runs_on es s' h) =
      runs_on (new ++ es) s'
        (round fuel new es w s _ s' _ q e (all-Handled new (record s { world = w })) refl h)

  waited-Ends :
      (fuel : ℕ) (s : Reactor Op World) (x : World × Waited)
      → s.quit ≡ false
      → epoll.wait s.event_array s.world ≡ x
      → ((s' : Reactor Op World) → Ends fuel s' (loop epoll call fuel s'))
      → Ends (suc fuel) s (waited epoll call (λ s'. loop epoll call fuel s') s x)
  waited-Ends fuel s (w, failed n) q e go = elim (Bool-cases (n == 4)) [
    | inl four ↦ rw four (
        interrupted-Ends fuel w s _ q
          (subst (λ k. epoll.wait s.event_array s.world ≡ (w, failed k)) (==→eq n 4 four) e)
          (go (record s { world = w })))
    | inr other ↦ rw other (fails 0 n [] w s (no_round s) q e (==→ne n 4 other))
  ]
  waited-Ends fuel s (w, ready new) q e go =
      let h = handle_events epoll call new (record s { world = w }) in
      round-Ends fuel new w s _ q e (
        subst (λ z. Ends fuel z (loop epoll call fuel (grow (length new) h)))
          (grow-grown (length new) h) (go (grow (length new) h)))

  -- The test at the head of the loop.
  tested-Ends :
      (fuel : ℕ) (s : Reactor Op World) (quit : Bool) (go : Looped Op World)
      → s.quit ≡ quit
      → (s.quit ≡ false → Ends (suc fuel) s go)
      → Ends (suc fuel) s (if quit then returned success s else go)
  tested-Ends fuel s true go q h = quits 0 [] s (no_round s) q
  tested-Ends fuel s false go q h = h q

  loop-Ends : (fuel : ℕ) (s : Reactor Op World) → Ends fuel s (loop epoll call fuel s)
  unfolding loop
  loop-Ends zero s = runs_on [] s (no_round s)
  loop-Ends (suc fuel) s =
      tested-Ends fuel s s.quit _ refl (λ q.
        waited-Ends fuel s (epoll.wait s.event_array s.world) q refl (λ s'. loop-Ends fuel s'))

  -- However many rounds it is given, whatever epoll returns and whatever the operations do, `loop_wait`
  -- ends as `Ends` says, from the state with `quit_` reset: it takes rounds, in each of which it handles
  -- every event that `epoll_wait` gives, in their order, and asks again when a signal interrupts it, until
  -- at the end of a round `quit_` is set, or `epoll_wait` fails otherwise; else it takes all its rounds.
  pub loop_wait-Ends :
      (fuel : ℕ) (s : Reactor Op World)
      → Ends fuel (record s { quit = false }) (loop_wait epoll call fuel s)
  unfolding loop_wait
  loop_wait-Ends fuel s = loop-Ends fuel (record s { quit = false })
