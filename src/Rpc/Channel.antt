-- ===== src/Rpc/Channel.antt =====
-- The client of rpc/src/channel.cc: calls that wait for their response, by id.
use lcy.Prelude.{
  ℕ, zero, suc, ◌+◌, ◌%◌, ◌^◌, Bool, true, false, Option, none, some, List, [], ◌∷◌, ◌==◌,
  if◌then◌else◌, ◌>>=◌,
}
use lcy.Prelude.Int.{ℤ, pos, negsuc}
use lcy.Prelude.Assoc.{lookup, put, erase, ℕ_keys}
use lcy.Bytes.{Host}
use lcy.Rpc.Message.{request_type, response_type, Request, Message, empty, Codec}
use lcy.Rpc.Connection.{Connection, Action, frame, send, start_recv}

-- The caller's objects that `MethodInfo` points to; the controller and the request go unused.
pub record MethodInfo : Type 0 where
  pub response : ℕ
  pub done : ℕ

pub record Channel : Type 0 where
  pub is_connected : Bool
  pub id_allocator : ℕ
  pub conn : Connection
  pub id_method_umap : List (ℕ × MethodInfo)

-- The end of a call: the response is parsed from a text, and `done` is run.
pub record Completion : Type 0 where
  pub info : MethodInfo
  pub arguments : List ℕ

-- `onConnectOp`: the error code is zero where there is none.
unfoldable pub on_connect_op : ℤ → Channel → Option (Channel × List Action)
on_connect_op (pos zero) c = do
  (conn, actions) ← start_recv c.conn
  some (record c { is_connected = true; conn = conn }, actions)
on_connect_op (pos (suc n)) c = some (c, [])
on_connect_op (negsuc n) c = some (c, [])

-- `shutdown`, with what it asks of the connection
unfoldable pub shutdown : Channel → Channel × List Action
shutdown c = (record c { is_connected = false }, Action.shut_down ∷ [])

-- The message of a call: the names of the service and the method, and the text of the request.
abbrev pub call_message : ℕ → Request → Message
call_message id request = record empty { tp = request_type; id = id; request = request }

-- `CallMethod`; `none` is a fault of the connection.
unfoldable pub call_method :
    Host → Codec → MethodInfo → Request → Channel → Option (Channel × List Action)
call_method h codec info request c = do
  (conn, actions) ← send c.conn (frame h (codec.serialize (call_message c.id_allocator request)))
  some (
    record c {
      id_allocator = (c.id_allocator + 1) % 2 ^ 64;
      conn = conn;
      id_method_umap = put c.id_allocator info c.id_method_umap;
    },
    actions,
  )

abbrev on_found : Message → Channel → Option MethodInfo → Option (Channel × List Completion)
on_found m c none = none
on_found m c (some info) = some (
  record c { id_method_umap = erase m.id c.id_method_umap },
  record { info = info; arguments = m.response.arguments } ∷ [],
)

abbrev on_parsed : Channel → Option Message → Option (Channel × List Completion)
on_parsed c none = some (c, [])
on_parsed c (some m) =
    if m.tp == response_type then on_found m c (lookup m.id c.id_method_umap) else some (c, [])

-- `onMessageOp`; `none` is a fault: for an id with no call, `operator[]` makes a `MethodInfo` of
-- null pointers, and the response is parsed through one.
unfoldable pub on_message_op : Codec → List ℕ → Channel → Option (Channel × List Completion)
on_message_op codec text c = on_parsed c (codec.parse text)
