-- ===== src/Rpc/Connection.antt =====
-- The connection of rpc/src/details/connection.cc: messages behind their lengths, in four bytes in
-- network order. What the connection asks of its socket and the calls of the message operation are
-- recorded, in order; `none` is a fault of the buffer.
pub mod Frames
pub mod Receive
pub mod Stream
pub mod Send
use lcy.Prelude.{
  ℕ, zero, suc, ◌+◌, ◌^◌, ◌%◌, Bool, true, false, Option, none, some, List, [], ◌∷◌, ◌++◌, map, ltb,
  ◌==◌, if◌then◌else◌, ◌>>=◌, length,
}
use lcy.Bytes.{Host, image, load, to_net}
use lcy.DynamicBuffer.{
  DynamicBuffer, add_size, read_begin, write_begin, slice, put, read, write, data_bytes,
  available_bytes, reserve,
}

-- The length that goes before a message, and the two: what channel.cc and server.cc send.
unfoldable pub frame : Host → List ℕ → List ℕ
frame h text = image h 4 (to_net h 4 (length text % 2 ^ 32)) ++ text

-- A request to the socket, or a call of the message operation.
pub data Action : Type 0 where
  async_read : ℕ → Action
  async_write : List ℕ → Action
  shut_down : Action
  message : List ℕ → Action

pub record Connection : Type 0 where
  pub read_buf : DynamicBuffer
  pub send_buf_deque : List (List ℕ)

-- `start_recv`: room for the socket's bytes, and the request to read them
unfoldable pub start_recv : Connection → Option (Connection × List Action)
start_recv c = do
  b ← reserve c.read_buf 4096
  i ← write_begin b
  some (record c { read_buf = b }, async_read (available_bytes b) ∷ [])

-- The loop of `onRecvMessage`: the messages it hands over, in order.
unfoldable pub recv_loop : Host → ℕ → DynamicBuffer → Option (DynamicBuffer × List (List ℕ))
recv_loop h zero b = none
recv_loop h (suc fuel) b = if ltb (data_bytes b) 4 then some (b, []) else (do
  i ← read_begin b
  bytes ← slice b.char_vector i 4
  let len = to_net h 4 (load h bytes)
  if ltb (data_bytes b) (add_size len 4) then some (b, []) else (do
    j ← read_begin b
    text ← slice b.char_vector (j + 4) len
    (b', messages) ← recv_loop h fuel (read b (add_size len 4))
    some (b', text ∷ messages)))

-- The bytes that the socket stores from `writeBegin` on, before it calls back.
unfoldable pub fill : DynamicBuffer → List ℕ → Option DynamicBuffer
fill b bytes = do v ← put b.char_vector b.write_index bytes; some (record b { char_vector = v })

-- `onRecvMessage` with the message operation set or not: an error ends it, no bytes close the
-- socket, else the messages that are complete are handed over and the socket reads on.
unfoldable pub on_recv_message :
    Host → Bool → Bool → ℕ → Connection → Option (Connection × List Action)
on_recv_message h message_op true nbytes c = some (c, [])
on_recv_message h message_op false nbytes c = if nbytes == 0 then some (c, shut_down ∷ []) else (do
  let b = write c.read_buf nbytes
  (b', messages) ← recv_loop h (suc (data_bytes b)) b
  (c', actions) ← start_recv (record c { read_buf = b' })
  some (c', (if message_op then map message messages else []) ++ actions))

abbrev front : List (List ℕ) → Option (List ℕ)
front [] = none
front (text ∷ rest) = some text

abbrev is_empty : List (List ℕ) → Bool
is_empty [] = true
is_empty (text ∷ rest) = false

-- `start_deque_send`; `front` of an empty deque is a fault.
unfoldable pub start_deque_send : Connection → Option (List Action)
start_deque_send c = do text ← front c.send_buf_deque; some (async_write text ∷ [])

-- `send`
unfoldable pub send : Connection → List ℕ → Option (Connection × List Action)
send c text =
    let c' = record c { send_buf_deque = c.send_buf_deque ++ (text ∷ []) } in
    if is_empty c.send_buf_deque
    then (do actions ← start_deque_send c'; some (c', actions))
    else some (c', [])

abbrev sent : Connection → List (List ℕ) → Option (Connection × List Action)
sent c [] = none
sent c (text ∷ rest) =
    let c' = record c { send_buf_deque = rest } in
    if is_empty rest then some (c', []) else (do actions ← start_deque_send c'; some (c', actions))

-- `onSendCompleted`, whose error and size go unused; `pop_front` of an empty deque is a fault.
unfoldable pub on_send_completed : Connection → Option (Connection × List Action)
on_send_completed c = sent c c.send_buf_deque
