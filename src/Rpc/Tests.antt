-- ===== src/Rpc/Tests.antt =====
-- Runs of the connection, and the theorems at concrete inputs.
use lcy.Prelude.Assoc.{lookup, put, str_eq}
use lcy.Prelude.{none, true}
use lcy.Rpc.Message.{Request, Message, empty}
use lcy.Rpc.Server.{Server, fill_methods, service_info, register_service}
use lcy.Rpc.Channel.{MethodInfo, Channel}
use lcy.Rpc.Call.{Repeated, call-Repeated, Gives, RoundTrip, call-RoundTrip}
use lcy.Acceptor.{Calls}
use lcy.Reactor.{success}
use lcy.TcpSocket.{value, errno}
use lcy.Rpc.Accept.{Outcome, new_server, then_server, accept_all, start}
use lcy.Rpc.Accept.Turns.{accepted, any_error, dealt, reported, accept_all-dealt}
use lcy.Rpc.Sample.{sample_codec, sample_services, twice}
use lcy.Prelude.Int.{pos}
use lcy.Prelude.{
  ℕ, suc, ◌+◌, ◌%◌, ◌≡◌, if◌then◌else◌, refl, some, inl, List, [], ◌∷◌, ◌++◌, length, arith, ap,
}
use lcy.Bytes.{Host, image, to_net}
use lcy.DynamicBuffer.{fresh}
use lcy.DynamicBuffer.Inv.{content, fresh-IsValid}
use lcy.DynamicBuffer.Reserve.{Reserved, reserve-Reserved}
use lcy.Rpc.Connection.{frame, async_write, Connection, send, start_deque_send, on_send_completed}
use lcy.Rpc.Connection.Frames.{frames}
use lcy.Rpc.Connection.Stream.{Ready, stream, ReceivedAll, receive_pieces-frames}
use lcy.Rpc.Connection.Send.{Event, sends, completes, step, run, in_turn, SentAll, run-SentAll}

-- Room for the socket in a new buffer.
abbrev reserved : Reserved (fresh 1024) 4096
reserved = reserve-Reserved (fresh 1024) 4096 (fresh-IsValid 1024 (omega arith)) (omega arith)

abbrev connection : Connection
connection = record { read_buf = reserved.buffer; send_buf_deque = [] }

connection-Ready : Ready 3 connection.read_buf
connection-Ready = record {
  valid = reserved.valid;
  room = reserved.room;
  space = omega (arith, reserved.grown, reserved.expand, ap (λ (k : ℕ). 3 + k) reserved.expand);
}

no_content : content connection.read_buf ≡ []
no_content = reserved.same

-- Two messages, in three pieces that are cut inside a length and inside a message.
abbrev messages : List (List ℕ)
messages = (104 ∷ 105 ∷ []) ∷ (33 ∷ []) ∷ []

abbrev pieces : List (List ℕ)
pieces = (0 ∷ 0 ∷ []) ∷ (0 ∷ 2 ∷ 104 ∷ []) ∷ (105 ∷ 0 ∷ 0 ∷ 0 ∷ 1 ∷ 33 ∷ []) ∷ []

pieces_joined : content connection.read_buf ++ stream pieces ≡ frames Host.little messages
unfolding stream frames frame image to_net
pieces_joined = ap (λ (l : List ℕ). l ++ stream pieces) no_content

receive_pieces-frames_example : ReceivedAll Host.little connection pieces messages
receive_pieces-frames_example =
    receive_pieces-frames Host.little connection pieces messages connection-Ready
      (inl (omega (arith, ap length no_content)))
      ((omega arith, omega arith), ((omega arith, omega arith), ((omega arith, omega arith), tt)))
      (omega arith, (omega arith, tt)) pieces_joined

abbrev turns : List Event
turns = sends (1 ∷ []) ∷ sends (2 ∷ []) ∷ completes ∷ sends (3 ∷ []) ∷ completes ∷ []

in_order :
    run turns (record { read_buf = fresh 1024; send_buf_deque = [] })
    ≡ some (
      record { read_buf = fresh 1024; send_buf_deque = (3 ∷ []) ∷ [] },
      async_write (1 ∷ []) ∷ async_write (2 ∷ []) ∷ async_write (3 ∷ []) ∷ [],
    )
unfolding run step send start_deque_send on_send_completed
in_order = refl

run-SentAll_example : SentAll turns (record { read_buf = fresh 1024; send_buf_deque = [] })
unfolding in_turn
run-SentAll_example = run-SentAll turns (record { read_buf = fresh 1024; send_buf_deque = [] }) refl

abbrev idle : Connection
idle = record { read_buf = fresh 1024; send_buf_deque = [] }

abbrev server : Server ℕ ℕ
server = register_service sample_services 7 (record { name_service_info_umap = [] })

abbrev channel : Channel
channel = record { is_connected = true; id_allocator = 4; conn = idle; id_method_umap = [] }

abbrev info : MethodInfo
info = record { response = 1; done = 2 }

abbrev request : Request
request = record { service_name = 115 ∷ []; service_method = 109 ∷ []; arguments = 5 ∷ 6 ∷ [] }

gives : Gives sample_services Host.little sample_codec server request (5 ∷ 6 ∷ 5 ∷ 6 ∷ [])
unfolding register_service fill_methods lookup put str_eq twice
gives = record {
  info = service_info sample_services 7;
  method = 0;
  arguments = 5 ∷ 6 ∷ [];
  has_service = refl;
  has_method = refl;
  parses = refl;
  calls = refl;
}

call-RoundTrip_example :
    RoundTrip sample_services Host.little sample_codec server info request
      (5 ∷ 6 ∷ 5 ∷ 6 ∷ [])
      channel
      idle
call-RoundTrip_example =
    call-RoundTrip sample_services Host.little sample_codec server info request (5 ∷ 6 ∷ 5 ∷ 6 ∷ [])
      channel idle (omega arith) gives

abbrev wrong_method : Message
wrong_method = record empty { id = 9; request = record request { service_method = [] } }

-- The answer of a server, and one that it has no such method.
abbrev reply_4 : Message
reply_4 = record empty { id = 4; tp = 1; response = record { errcode = 0; arguments = 7 ∷ [] } }

abbrev no_method_reply : Message
no_method_reply = record empty { id = 4; tp = 1; response = record { errcode = 2; arguments = [] } }

call-Repeated_example :
    Repeated Host.little sample_codec info request channel reply_4 no_method_reply
call-Repeated_example =
    call-Repeated Host.little sample_codec info request channel reply_4 no_method_reply
      (omega arith) refl refl refl refl

-- A system that refuses to bind, with EADDRINUSE, and counts the calls.
abbrev busy : Calls ℕ ℕ
busy = record {
  family = λ a. 2;
  open_socket = λ family n. (suc n, success);
  set_reuse_addr = λ n. (suc n, success);
  bind = λ a n. (suc n, pos 98);
  listen = λ backlog n. (suc n, success);
  set_delay = λ n. (suc n, success);
  set_keep_alive = λ n. (suc n, success);
}

-- Three connections, then too many open files, then one more connection.
abbrev outcomes : List Outcome
outcomes =
    (value (pos 7), success)
    ∷ (value (pos 8), success)
    ∷ (value (pos 9), success)
    ∷ (errno 24, success)
    ∷ (value (pos 10), success)
    ∷ []

accept_all-dealt_example :
    (s : lcy.Rpc.Accept.Server) × (then_server
        (start busy 0 0 success (new_server 2 true)).1
        (λ s'. accept_all outcomes s')
      ≡ some s)
    × (s.receiving ≡ dealt 2 0 (accepted success outcomes))
    × (s.connected ≡ reported true (accepted success outcomes))
    × (s.accepting ≡ (
        if any_error success outcomes then none else some (length (accepted success outcomes) % 2)))
accept_all-dealt_example = accept_all-dealt busy 0 0 2 true success outcomes (omega arith)
