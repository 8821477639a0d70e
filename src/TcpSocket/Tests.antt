-- ===== src/TcpSocket/Tests.antt =====
-- A concrete system, and the theorems at concrete reactors.
use lcy.Prelude.{
  ℕ, ◌≤◌, ◌≡◌, refl, sym, ap, ◌∙◌, none, some, List, [], ◌∷◌, ◌++◌, ltb, if◌then◌else◌, length,
  take, arith,
}
use lcy.Prelude.Int.{ℤ, pos}
use lcy.Prelude.Assoc.{eqz, eqz_refl, lookup, ℤ_keys}
use lcy.Reactor.{success, Interest, Event, ready, Epoll, Reactor, reactor}
use lcy.Reactor.Sample.{sample}
use lcy.TcpSocket.{Syscall, value, errno, Sockets, SocketOp, read_op, write_op, Callback, call}
use lcy.TcpSocket.Hangups.{Hangup, handle_event-Hangup}
use lcy.TcpSocket.Write.{Streams, Progress, write_op-Progress}

-- What epoll watches, and what was sent over each descriptor.
record Net : Type 0 where
  watched : List (ℤ × Interest)
  out : ℤ → List ℕ

abbrev net_epoll : Epoll Net
net_epoll = record {
  control = λ c fd i w. (
    record w { watched = (sample.control c fd i w.watched).0 },
    (sample.control c fd i w.watched).1,
  );
  wait = λ n w. (w, ready []);
  interest = λ w fd. lookup fd w.watched;
}

-- The system takes two bytes at most.
abbrev some_bytes : List ℕ → ℕ
some_bytes b = if ltb (length b) 2 then length b else 2

abbrev sent : ℤ → List ℕ → Net → Net
sent fd b w = record w { out = λ j. if eqz fd j then w.out j ++ take (some_bytes b) b else w.out j }

abbrev net_sockets : Sockets Net
net_sockets = record {
  recv = λ fd n w. (w, value []);
  send = λ fd b w. (sent fd b w, value (some_bytes b));
  accept = λ fd w. (w, errno 11);
  so_error = λ fd w. 0;
  connect = λ fd a w. (w, value tt);
  close = λ fd w. (w, value tt);
  socket = λ f w. (w, value (pos 3));
}

abbrev quiet : Callback → Reactor SocketOp Net → Reactor SocketOp Net
quiet c s = s

abbrev start : Net
start = record { watched = []; out = λ j. [] }

some_bytes_le : (b : List ℕ) → some_bytes b ≤ length b
some_bytes_le b = ground arith

count_of : Syscall ℕ → ℕ
count_of (value n) = n
count_of (errno e) = 0

net-Streams : Streams net_epoll net_sockets (λ w. w.out)
unfolding count_of
net-Streams = record {
  takes = λ fd b w w' n h.
      let e : some_bytes b ≡ n = ap (λ r. count_of r.1) h in
      (
        omega (arith, some_bytes_le b, e),
        ap (λ r. r.0.out fd) (sym h) ∙ rw (eqz_refl fd) (ap (λ (k : ℕ). w.out fd ++ take k b) e),
      );
  fails = λ fd b w w' e h. cc;
  keeps = λ c fd j i w. refl;
}

write_op-Progress_example :
    Progress net_epoll net_sockets quiet
      (λ w. w.out)
      (pos 3)
      (1 ∷ 2 ∷ 3 ∷ [])
      0
      9
      (reactor start)
      (call net_epoll net_sockets quiet
        (write_op (pos 3) (1 ∷ 2 ∷ 3 ∷ []) 0 9)
        success
        (reactor start))
write_op-Progress_example =
    write_op-Progress net_epoll net_sockets quiet (λ w. w.out) net-Streams (pos 3) (1 ∷ 2 ∷ 3 ∷ [])
      0 9 (reactor start)

-- EPOLLIN and EPOLLHUP
abbrev hangup : Event
hangup = record { events = 17; udata = pos 3 }

abbrev reading : Reactor SocketOp Net
reading = record (reactor start) {
  fd_opinfo_umap = (pos 3, record { read_op = some (read_op (pos 3) 64 9); write_op = none }) ∷ [];
}

-- A callback that makes a note of the error on the descriptor's stream.
abbrev noting : Callback → Reactor SocketOp Net → Reactor SocketOp Net
noting c s = record s { world = sent (pos 3) (1 ∷ []) s.world }

handle_event-Hangup_example : Hangup net_epoll net_sockets noting hangup reading
handle_event-Hangup_example =
    handle_event-Hangup net_epoll net_sockets noting (λ c s. refl) hangup reading refl
