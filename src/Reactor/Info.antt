-- ===== src/Reactor/Info.antt =====
-- The data of the reactor of asio/src/details/reactor_service.cc: error codes, what epoll knows and
-- reports, and the two operations of a descriptor.
use lcy.Prelude.{ℕ, Bool, true, false, ◌||◌, Option, none, some, List}
use lcy.Prelude.Int.{ℤ, pos, negsuc}

-- An error code: zero, an `errno`, or one of `enum err`, which is negative.
abbrev pub ErrCode : Type 0
ErrCode = ℤ

abbrev pub success : ErrCode
success = pos 0

abbrev pub efdhup : ErrCode
efdhup = negsuc 1000

abbrev pub eopcanceled : ErrCode
eopcanceled = negsuc 1001

abbrev pub eopexists : ErrCode
eopexists = negsuc 1002

-- What `epoll_ctl` is asked to do, and what epoll knows of a descriptor: a mask of events, and the
-- pointer that goes with it.
pub data Control : Type 0 where
  add modify delete : Control

pub record Interest : Type 0 where
  pub events : ℕ
  pub udata : ℤ

-- An event, with the pointer of its descriptor.
pub record Event : Type 0 where
  pub events : ℕ
  pub udata : ℤ

-- What `epoll_wait` returns: events, or an `errno`.
pub data Waited : Type 0 where
  ready : List Event → Waited
  failed : ℕ → Waited

-- The system's epoll: `epoll_ctl`, with the `errno` or zero, `epoll_wait` with the room for events,
-- and the interest in a descriptor.
pub record Epoll (World : Type 0) : Type 0 where
  pub control : Control → ℤ → Interest → World → World × ℕ
  pub wait : ℕ → World → World × Waited
  pub interest : World → ℤ → Option Interest

-- `EPOLLIN | EPOLLPRI`, `EPOLLOUT` and `EPOLLERR | EPOLLHUP`
abbrev pub epollin : ℕ
epollin = 3

abbrev pub epollout : ℕ
epollout = 4

abbrev pub epollerr : ℕ
epollerr = 24

pub data Side : Type 0 where
  reads writes : Side

abbrev pub other : Side → Side
other reads = writes
other writes = reads

abbrev pub mask : Side → ℕ
mask reads = epollin
mask writes = epollout

pub record OperationInfo (Op : Type 0) : Type 0 where
  pub read_op : Option Op
  pub write_op : Option Op

pub record Reactor (Op World : Type 0) : Type 0 where
  pub quit : Bool
  pub event_array : ℕ
  pub fd_opinfo_umap : List (ℤ × OperationInfo Op)
  pub world : World

-- What `loop_wait` returns, or that it runs on.
pub data Looped (Op World : Type 0) : Type 0 where
  returned : ErrCode → Reactor Op World → Looped Op World
  running : Reactor Op World → Looped Op World

module _ {Op : Type 0} where
  abbrev pub no_operation : OperationInfo Op
  no_operation = record { read_op = none; write_op = none }

  abbrev pub operation : Side → OperationInfo Op → Option Op
  operation reads i = i.read_op
  operation writes i = i.write_op

  -- `setReadOperation` and `setWriteOperation`, and with `none` the two removals
  abbrev pub set_operation : Side → Option Op → OperationInfo Op → OperationInfo Op
  set_operation reads op i = record i { read_op = op }
  set_operation writes op i = record i { write_op = op }

  abbrev pub is_set : Option Op → Bool
  is_set none = false
  is_set (some op) = true

  -- `hasReadOperation` and `hasWriteOperation`, and `hasOperation`
  abbrev pub has_operation : Side → OperationInfo Op → Bool
  has_operation side i = is_set (operation side i)

  abbrev pub has_any : OperationInfo Op → Bool
  has_any i = has_operation reads i || has_operation writes i

  abbrev pub or_new : Option (OperationInfo Op) → OperationInfo Op
  or_new none = no_operation
  or_new (some i) = i
