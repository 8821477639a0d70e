-- ===== src/BridgeService/Order.antt =====
-- The tasks of asio/src/details/bridge_service.cc are run in the order in which they are pushed,
-- each once, and none is left behind.
use lcy.Prelude.{
  ℕ, ◌<◌, ◌≡◌, ◌⊎◌, refl, sym, ap, ◌∙◌, inl, inr, List, [], ◌∷◌, ◌++◌, append-nil, append_assoc,
  arith,
}
use lcy.BridgeService.{
  Bridge, write_eventfd, push, batch, take_over, run_task, Step, pushes, batches, executes, runs,
  Reach, here, next,
}

write_eventfd_pos : (n : ℕ) → 0 < write_eventfd n
unfolding write_eventfd
write_eventfd_pos n = ground arith

module _ {Task : Type 0} where
  -- What was pushed is, in this order, what was run, what `execute` still has to run, and what is in
  -- the list; and where the list is not empty, the eventfd wakes the loop.
  pub record Ordered (s : Bridge Task) : Type 0 where
    pub order : s.done ++ (s.tmp_task_list ++ s.task_list) ≡ s.pushed
    pub wakes : (s.task_list ≡ []) ⊎ (0 < s.event_fd)

  append_behind : (a b c d e : List Task) → a ++ (b ++ c) ≡ d → a ++ (b ++ (c ++ e)) ≡ d ++ e
  append_behind a b c d e h =
      ap (◌++◌ a) (sym (append_assoc b c e))
      ∙ sym (append_assoc a (b ++ c) e)
      ∙ ap (λ (l : List Task). l ++ e) h

  Step-Ordered : {s u : Bridge Task} → Step s u → Ordered s → Ordered u
  unfolding push batch take_over run_task
  Step-Ordered {s} (pushes t) o = record {
    order = append_behind s.done s.tmp_task_list s.task_list s.pushed (t ∷ []) o.order;
    wakes = inr (write_eventfd_pos s.event_fd);
  }
  Step-Ordered {s} (batches ts) o = record {
    order = append_behind s.done s.tmp_task_list s.task_list s.pushed ts o.order;
    wakes = inr (write_eventfd_pos s.event_fd);
  }
  Step-Ordered {s} (executes h e) o = record {
    order =
        ap (◌++◌ s.done) (append-nil s.task_list)
        ∙ ap (λ (l : List Task). s.done ++ (l ++ s.task_list)) (sym e)
        ∙ o.order;
    wakes = inl refl;
  }
  Step-Ordered {s} (runs t ts e) o = record {
    order =
        append_assoc s.done (t ∷ []) (ts ++ s.task_list)
        ∙ ap (λ (l : List Task). s.done ++ (l ++ s.task_list)) (sym e)
        ∙ o.order;
    wakes = o.wakes;
  }

  -- Every interleaving of threads keeps the order: in each state it reaches, the tasks that were
  -- pushed are, in their order, those that were run, those that `execute` still has to run, and those
  -- in the list; and where the list is not empty, the eventfd can be read, so no wake-up is lost.
  pub Reach-Ordered : {s u : Bridge Task} → Ordered s → Reach s u → Ordered u
  Reach-Ordered o here = o
  Reach-Ordered o (next r st) = Step-Ordered st (Reach-Ordered o r)

  -- A state that is reached and in which just the tasks pushed before have been run, in order.
  abbrev pub Finishes : Bridge Task → Type 0
  Finishes s = (u : Bridge Task) × Reach s u × (u.pushed ≡ s.pushed) × (u.done ≡ s.pushed)
