-- ===== src/UdpSocket/Tests.antt =====
-- A concrete system, and the theorems at concrete reactors.
use lcy.Prelude.{ℕ, ◌≡◌, refl, sym, ap, ◌∙◌, List, [], ◌∷◌, ◌++◌, if◌then◌else◌, length}
use lcy.Prelude.Int.{ℤ, pos}
use lcy.Prelude.Assoc.{eqz, eqz_refl, lookup, ℤ_keys}
use lcy.Bytes.{little}
use lcy.Endpoint.{blank_endpoint}
use lcy.Reactor.{success, reads, Interest, ready, Epoll, Reactor, reactor, remove_operation}
use lcy.Reactor.Sample.{sample}
use lcy.TcpSocket.{Syscall, value, errno}
use lcy.UdpSocket.{
  Datagrams, UdpOp, read_op, write_op, Callback, on_read, stored, address, notify, call,
}
use lcy.UdpSocket.Datagram.{an_inet, Atomic, Sends, read_op-stored, write_op-Sends}

-- What epoll watches, and the datagrams that were sent over each descriptor.
record Net : Type 0 where
  watched : List (ℤ × Interest)
  out : ℤ → List (List ℕ × List ℕ)

abbrev net_epoll : Epoll Net
net_epoll = record {
  control = λ c fd i w. (
    record w { watched = (sample.control c fd i w.watched).0 },
    (sample.control c fd i w.watched).1,
  );
  wait = λ n w. (w, ready []);
  interest = λ w fd. lookup fd w.watched;
}

-- Port 8080 of 127.0.0.1
abbrev sender : List ℕ
sender = 2 ∷ 0 ∷ 31 ∷ 144 ∷ 127 ∷ 0 ∷ 0 ∷ 1 ∷ 0 ∷ 0 ∷ 0 ∷ 0 ∷ 0 ∷ 0 ∷ 0 ∷ 0 ∷ []

abbrev sent : ℤ → List ℕ → List ℕ → Net → Net
sent fd bytes a w = record w {
  out = λ j. if eqz fd j then w.out j ++ ((a, bytes) ∷ []) else w.out j;
}

abbrev net_sockets : Datagrams Net
net_sockets = record {
  recvfrom = λ fd n w. (w, value (7 ∷ 8 ∷ [], sender));
  sendto = λ fd bytes a w. (sent fd bytes a w, value (length bytes));
  socket = λ f w. (w, value (pos 3));
  bind = λ fd a w. (w, value tt);
  reuse_addr = λ fd w. (w, value tt);
  close = λ fd w. (w, value tt);
  shut = λ side fd w. (w, value tt);
}

abbrev quiet : Callback → Reactor UdpOp Net → Reactor UdpOp Net
quiet c s = s

abbrev start : Net
start = record { watched = []; out = λ j. [] }

count_of : Syscall ℕ → ℕ
count_of (value n) = n
count_of (errno e) = 0

net-Atomic : Atomic net_epoll net_sockets (λ w. w.out)
unfolding count_of
net-Atomic = record {
  takes = λ fd bytes a w w' n h.
      (ap (λ r. count_of r.1) (sym h), ap (λ r. r.0.out fd) (sym h) ∙ rw (eqz_refl fd) refl);
  fails = λ fd bytes a w w' e h. cc;
  keeps = λ c fd j i w. refl;
}

read_op-stored_example :
    (call little net_epoll net_sockets quiet
        (read_op (pos 3) 64 blank_endpoint 9)
        success
        (reactor start)
      ≡ quiet
          (on_read 9 success (7 ∷ 8 ∷ []) (stored blank_endpoint sender))
          (record (remove_operation net_epoll
            (notify little net_epoll net_sockets quiet)
            reads
            (pos 3)
            (reactor start)) { world = start }))
    × (address little (stored blank_endpoint sender) ≡ sender)
unfolding remove_operation lookup
read_op-stored_example =
    read_op-stored little net_epoll net_sockets quiet (pos 3) 64 blank_endpoint 9 (reactor start)
      start (7 ∷ 8 ∷ []) sender (an_inet (unfold lcy.Bytes.load in refl) refl) refl

write_op-Sends_example :
    Sends little net_epoll net_sockets quiet
      (λ w. w.out)
      (pos 3)
      (address little (stored blank_endpoint sender))
      (7 ∷ 8 ∷ [])
      0
      9
      (reactor start)
      (call little net_epoll net_sockets quiet
        (write_op (pos 3) (stored blank_endpoint sender) (7 ∷ 8 ∷ []) 0 9)
        success
        (reactor start))
write_op-Sends_example =
    write_op-Sends little net_epoll net_sockets quiet (λ w. w.out) net-Atomic (pos 3)
      (stored blank_endpoint sender) (7 ∷ 8 ∷ []) 0 9 (reactor start)
