-- ===== src/Reactor.antt =====
-- The reactor of asio/src/details/reactor_service.cc: for each descriptor a read and a write
-- operation, the interest that epoll has in it, and the loop that calls operations. The
-- `OperationInfo` of a descriptor is made once and lives as long as the reactor, so that the pointer
-- that epoll gives back is named by its descriptor. What runs when an operation is called is a
-- parameter, `call`: it may use the reactor again. `World` is everything outside, epoll included.
pub mod Info
pub mod Watch
pub mod Serve
pub mod Remove
pub mod Loop
pub mod Stale
pub mod Sample
mod Tests
use Prim.Native.Nat.{bit_and, bit_or}
use lcy.Prelude.{
  ℕ, zero, suc, ◌+◌, ◌*◌, ◌≤◌, ◌≡◌, ◌≢◌, Bool, true, false, not, ◌&&◌, ◌||◌, Option, none, some,
  List, [], ◌∷◌, leb, ◌==◌, if◌then◌else◌, length,
}
use lcy.Prelude.Int.{ℤ, pos, negsuc}
use lcy.Prelude.Assoc.{eqz, lookup, put, ℤ_keys}
pub use Info.*

module _ {Op World : Type 0} where
  -- The constructor, in a world with a new epoll
  abbrev pub reactor : World → Reactor Op World
  reactor w = record { quit = true; event_array = 128; fd_opinfo_umap = []; world = w }

  abbrev pub info_of : ℤ → Reactor Op World → OperationInfo Op
  info_of fd s = or_new (lookup fd s.fd_opinfo_umap)

  abbrev pub put_info : ℤ → OperationInfo Op → Reactor Op World → Reactor Op World
  put_info fd i s = record s { fd_opinfo_umap = put fd i s.fd_opinfo_umap }

  -- `quit`
  abbrev pub quit : Reactor Op World → Reactor Op World
  quit s = record s { quit = true }

  -- The event array grows when it was full.
  abbrev pub grow : ℕ → Reactor Op World → Reactor Op World
  grow n s = if leb s.event_array n then record s { event_array = n * 2 } else s

  module _ (epoll : Epoll World) (call : Op → ErrCode → Reactor Op World → Reactor Op World) where
    -- The call of epoll by which an operation of a side is added: `epoll_register`, or
    -- `epoll_modify` where the descriptor has an operation of the other side.
    abbrev pub arm : Side → ℤ → OperationInfo Op → World → World × ℕ
    arm side fd i w =
        if has_operation (other side) i
        then epoll.control modify fd
            (record { events = bit_or (mask side) (mask (other side)); udata = fd }) w
        else epoll.control add fd (record { events = mask side; udata = fd }) w

    -- And by which it is taken away: `epoll_modify` or `epoll_remove`, whose error is not looked at
    abbrev pub disarm : Side → ℤ → OperationInfo Op → World → World × ℕ
    disarm side fd i w =
        if has_operation (other side) i
        then epoll.control modify fd (record { events = mask (other side); udata = fd }) w
        else epoll.control delete fd (record { events = 0; udata = fd }) w

    abbrev pub armed :
        Side → ℤ → Op → OperationInfo Op → Reactor Op World → World × ℕ → Reactor Op World
    armed side fd op i s (w, zero) =
        put_info fd (set_operation side (some op) i) (record s { world = w })
    armed side fd op i s (w, suc n) = call op (pos (suc n)) (record s { world = w })

    -- `registerReadOperation` and `registerWriteOperation`
    unfoldable pub register_operation : Side → ℤ → Op → Reactor Op World → Reactor Op World
    register_operation side fd op s =
        let i = info_of fd s in
        let s' = put_info fd i s in
        if has_operation side i
        then call op eopexists s'
        else armed side fd op i s' (arm side fd i s'.world)

    -- A descriptor's operation of a side is taken away from epoll and from its info.
    abbrev pub take_away : Side → ℤ → OperationInfo Op → Reactor Op World → Reactor Op World
    take_away side fd i s =
        put_info fd (set_operation side none i) (record s { world = (disarm side fd i s.world).0 })

    abbrev remove_found : Side → ℤ → Reactor Op World → Option (OperationInfo Op) → Reactor Op World
    remove_found side fd s none = s
    remove_found side fd s (some i) = if has_operation side i then take_away side fd i s else s

    -- `removeReadOperation` and `removeWriteOperation`
    unfoldable pub remove_operation : Side → ℤ → Reactor Op World → Reactor Op World
    remove_operation side fd s = remove_found side fd s (lookup fd s.fd_opinfo_umap)

    -- An operation is called with an error code where there is one, in a state.
    abbrev called : Option Op → ErrCode → Reactor Op World → Reactor Op World → Reactor Op World
    called none ec s s' = s
    called (some op) ec s s' = call op ec s'

    abbrev cancel_found : Side → ℤ → Reactor Op World → Option (OperationInfo Op) → Reactor Op World
    cancel_found side fd s none = s
    cancel_found side fd s (some i) =
        called (operation side i) eopcanceled s (take_away side fd i s)

    -- `cancelReadOperation` and `cancelWriteOperation` of the service
    unfoldable pub cancel_operation : Side → ℤ → Reactor Op World → Reactor Op World
    cancel_operation side fd s = cancel_found side fd s (lookup fd s.fd_opinfo_umap)

    -- Those of `OperationInfo`, which look at the info as it is then
    unfoldable pub cancel_info : Side → ℤ → Reactor Op World → Reactor Op World
    cancel_info side fd s =
        called (operation side (info_of fd s)) eopcanceled s
          (put_info fd (set_operation side none (info_of fd s)) s)

    -- `epoll_remove`
    abbrev pub remove_fd : ℤ → Reactor Op World → Reactor Op World
    remove_fd fd s = record s {
      world = (epoll.control delete fd (record { events = 0; udata = fd }) s.world).0;
    }

    abbrev remove_all_found : ℤ → Reactor Op World → Option (OperationInfo Op) → Reactor Op World
    remove_all_found fd s none = s
    remove_all_found fd s (some i) =
        if has_any i then put_info fd no_operation (remove_fd fd s) else s

    -- `removeAllOperations`
    unfoldable pub remove_all_operations : ℤ → Reactor Op World → Reactor Op World
    remove_all_operations fd s = remove_all_found fd s (lookup fd s.fd_opinfo_umap)

    abbrev cancel_all_found : ℤ → Reactor Op World → Option (OperationInfo Op) → Reactor Op World
    cancel_all_found fd s none = s
    cancel_all_found fd s (some i) =
        if has_any i then cancel_info writes fd (cancel_info reads fd (remove_fd fd s)) else s

    -- `cancelAllOperations`
    unfoldable pub cancel_all_operations : ℤ → Reactor Op World → Reactor Op World
    cancel_all_operations fd s = cancel_all_found fd s (lookup fd s.fd_opinfo_umap)

    -- `doReadOperation` and `doWriteOperation`
    unfoldable pub do_operation : Side → ℤ → ErrCode → Reactor Op World → Reactor Op World
    do_operation side fd ec s = called (operation side (info_of fd s)) ec s s

    -- A round of the loop over the events
    unfoldable pub handle_event : Event → Reactor Op World → Reactor Op World
    handle_event e s =
        if not (bit_and e.events epollerr == 0)
        then do_operation writes e.udata efdhup (do_operation reads e.udata efdhup s)
        else let s' =
            if bit_and e.events epollin == 0 then s else do_operation reads e.udata success s in
          if bit_and e.events epollout == 0 then s' else do_operation writes e.udata success s'

    unfoldable pub handle_events : List Event → Reactor Op World → Reactor Op World
    handle_events [] s = s
    handle_events (e ∷ es) s = handle_events es (handle_event e s)

    abbrev pub waited :
        (Reactor Op World → Looped Op World) → Reactor Op World → World × Waited → Looped Op World
    waited next s (w, failed n) =
        if n == 4 then next (record s { world = w }) else returned (pos n) (record s { world = w })
    waited next s (w, ready es) =
        next (grow (length es) (handle_events es (record s { world = w })))

    -- The `while` loop of `loop_wait`, for as many rounds as the fuel says; it ends by itself only
    -- when `quit_` is set, or by an error other than EINTR.
    unfoldable pub loop : ℕ → Reactor Op World → Looped Op World
    loop zero s = running s
    loop (suc fuel) s =
        if s.quit
        then returned success s
        else waited (λ s'. loop fuel s') s (epoll.wait s.event_array s.world)

    -- `loop_wait`
    unfoldable pub loop_wait : ℕ → Reactor Op World → Looped Op World
    loop_wait fuel s = loop fuel (record s { quit = false })

    -- The members of the service, each with its name in the source
    abbrev pub register_read_operation : ℤ → Op → Reactor Op World → Reactor Op World
    register_read_operation fd op s = register_operation reads fd op s

    abbrev pub register_write_operation : ℤ → Op → Reactor Op World → Reactor Op World
    register_write_operation fd op s = register_operation writes fd op s

    abbrev pub remove_read_operation : ℤ → Reactor Op World → Reactor Op World
    remove_read_operation fd s = remove_operation reads fd s

    abbrev pub remove_write_operation : ℤ → Reactor Op World → Reactor Op World
    remove_write_operation fd s = remove_operation writes fd s

    abbrev pub cancel_read_operation : ℤ → Reactor Op World → Reactor Op World
    cancel_read_operation fd s = cancel_operation reads fd s

    abbrev pub cancel_write_operation : ℤ → Reactor Op World → Reactor Op World
    cancel_write_operation fd s = cancel_operation writes fd s
