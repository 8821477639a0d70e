-- ===== src/TcpSocket/Hangups.antt =====
-- What the operations of asio/src/ip/details/tcp_socket.cc do on a hang-up.
use lcy.Prelude.{◌≡◌, refl, ap, ◌∙◌, inl, inr, false, ◌==◌, Option-cases, Option, none, some}
use Prim.Native.Nat.{bit_and}
use lcy.Prelude.Int.{ℤ}
use lcy.Prelude.Assoc.{lookup, ℤ_keys}
use lcy.Reactor.{
  ErrCode, efdhup, Event, epollerr, Epoll, Side, reads, writes, Reactor, operation, or_new, info_of,
  do_operation, handle_event,
}
use lcy.TcpSocket.{
  Sockets, SocketOp, read_op, write_op, accept_op, connect_op, Callback, notify, call,
}

module _ {World : Type 0} (epoll : Epoll World) (sockets : Sockets World)
    (user : Callback → Reactor SocketOp World → Reactor SocketOp World) where
  -- An operation that there is is told of a hang-up.
  unfoldable pub told : Option SocketOp → Reactor SocketOp World → Reactor SocketOp World
  told none s = s
  told (some op) s = notify epoll sockets user op efdhup s

  -- Both operations of a descriptor, as some infos have them, the one that reads first.
  abbrev pub both_told :
      ℤ → Reactor SocketOp World → Reactor SocketOp World → Reactor SocketOp World
  both_told fd infos s = told (info_of fd infos).write_op (told (info_of fd infos).read_op s)

  -- What an event with a hang-up does, and then does again.
  pub record Hangup (e : Event) (s : Reactor SocketOp World) : Type 0 where
    pub calls : handle_event epoll (call epoll sockets user) e s ≡ both_told e.udata s s
    pub stay : (handle_event epoll (call epoll sockets user) e s).fd_opinfo_umap ≡ s.fd_opinfo_umap
    pub again :
        handle_event epoll
          (call epoll sockets user)
          e
          (handle_event epoll (call epoll sockets user) e s)
        ≡ both_told e.udata s (both_told e.udata s s)

  module _
      (keep : (c : Callback) (s : Reactor SocketOp World)
        → (user c s).fd_opinfo_umap ≡ s.fd_opinfo_umap) where
    notify_keeps :
        (op : SocketOp) (ec : ErrCode) (s : Reactor SocketOp World)
        → (notify epoll sockets user op ec s).fd_opinfo_umap ≡ s.fd_opinfo_umap
    unfolding notify
    notify_keeps (read_op fd n u) ec s = keep _ s
    notify_keeps (write_op fd cbuf sent u) ec s = keep _ s
    notify_keeps (accept_op fd u) ec s = keep _ s
    notify_keeps (connect_op fd u) ec s = keep _ s

    told_keeps :
        (o : Option SocketOp) (s : Reactor SocketOp World)
        → (told o s).fd_opinfo_umap ≡ s.fd_opinfo_umap
    unfolding told
    told_keeps none s = refl
    told_keeps (some op) s = notify_keeps op efdhup s

    both_told_keeps :
        (fd : ℤ) (infos s : Reactor SocketOp World)
        → (both_told fd infos s).fd_opinfo_umap ≡ s.fd_opinfo_umap
    both_told_keeps fd infos s =
        told_keeps (info_of fd infos).write_op (told (info_of fd infos).read_op s)
        ∙ told_keeps (info_of fd infos).read_op s

    do_told :
        (side : Side) (fd : ℤ) (s : Reactor SocketOp World)
        → do_operation epoll (call epoll sockets user) side fd efdhup s
          ≡ told (operation side (info_of fd s)) s
    unfolding do_operation call told
    do_told side fd s = elim (Option-cases (operation side (info_of fd s))) [
      | inl e ↦ rw e refl
      | inr (op, e) ↦ rw e refl
    ]

    hangup :
        (e : Event) (infos s : Reactor SocketOp World)
        → (bit_and e.events epollerr == 0) ≡ false
        → s.fd_opinfo_umap ≡ infos.fd_opinfo_umap
        → handle_event epoll (call epoll sockets user) e s ≡ both_told e.udata infos s
    unfolding handle_event
    hangup e infos s h same =
        let fd = e.udata in
        let after : Reactor SocketOp World = told (info_of fd s).read_op s in
        let at_write : (info_of fd after).write_op ≡ (info_of fd infos).write_op =
          ap (λ m. (or_new (lookup fd m)).write_op) (told_keeps (info_of fd s).read_op s ∙ same) in
        let at_read : (info_of fd s).read_op ≡ (info_of fd infos).read_op =
          ap (λ m. (or_new (lookup fd m)).read_op) same in
        rw h (
          ap (do_operation epoll (call epoll sockets user) writes fd efdhup) (do_told reads fd s)
          ∙ do_told writes fd after
          ∙ ap (λ o. told o after) at_write
          ∙ ap (λ o. told (info_of fd infos).write_op (told o s)) at_read)

    -- Where the user's callbacks register and remove no operation, whatever else they do, an event with
    -- an error or a hang-up has the operations of its descriptor called, the one that reads and then the
    -- one that writes, each with EFDHUP, and leaves all operations registered; so that the event, which
    -- the system repeats while it lasts, calls the same operations once more.
    pub handle_event-Hangup :
        (e : Event) (s : Reactor SocketOp World)
        → (bit_and e.events epollerr == 0) ≡ false
        → Hangup e s
    handle_event-Hangup e s h =
        let once = hangup e s s h refl in
        let kept = ap (λ r. r.fd_opinfo_umap) once ∙ both_told_keeps e.udata s s in
        record {
          calls = once;
          stay = kept;
          again =
              hangup e s (handle_event epoll (call epoll sockets user) e s) h kept
              ∙ ap (both_told e.udata s) once;
        }
