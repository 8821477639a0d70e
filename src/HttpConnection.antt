-- ===== src/HttpConnection.antt =====
-- The connection of examples/protocol_examples/http_examples/http_connection.cc: a server's end of
-- a connection that reads requests and sends a response to each. What it asks of its socket is
-- recorded, in order; `none` is a fault. What the user's `http_op_` makes of a request and a blank
-- response is an argument.
pub mod Serves
pub mod Session
pub mod Writes
mod Tests
use lcy.Prelude.{
  ℕ, zero, suc, ◌+◌, Bool, true, false, Option, none, some, List, [], ◌∷◌, ◌++◌, ◌==◌,
  if◌then◌else◌, ◌>>=◌, length,
}
use lcy.Prelude.Int.{pos}
use lcy.Prelude.Assoc.{eqz}
use lcy.DynamicBuffer.{
  DynamicBuffer, read_begin, write_begin, slice, put, read, write, data_bytes, available_bytes,
  reserve,
}
use lcy.Reactor.{ErrCode, success, eopcanceled}
use lcy.Http.Text.{codes}
use lcy.Http.Version.{Version, http_err, http_1_0, http_1_1}
use lcy.Http.Message.{
  Request, blank_request, Response, blank_response, Target, a_request, a_response, an_unknown,
  crlf_bytes, dump_response,
}
use lcy.Http.Parser.{RetCode, Parser, ret, fault, out_of_fuel, fresh, Outcome, nparse, reset, parse}

-- A request to the socket.
pub data Action : Type 0 where
  async_read : ℕ → Action
  async_write : List ℕ → Action
  shut_down : Action

-- A response in the queue goes with whether the socket is shut down behind it.
pub record HttpConnection : Type 0 where
  pub buffer : DynamicBuffer
  pub parser : Parser
  pub request : Request
  pub response_op_deque : List (List ℕ × Bool)

-- A new connection; `e` is the size by which its buffer grows.
abbrev pub new_connection : ℕ → HttpConnection
new_connection e = record {
  buffer = lcy.DynamicBuffer.fresh e;
  parser = fresh;
  request = blank_request;
  response_op_deque = [];
}

-- What a step leaves.
abbrev pub Step : Type 0
Step = Option (HttpConnection × List Action)

-- `start_read`: room for the socket's bytes, and the request to read them
unfoldable pub start_read : HttpConnection → Step
start_read c = do
  b ← reserve c.buffer 8192
  i ← write_begin b
  some (record c { buffer = b }, async_read (available_bytes b) ∷ [])

-- `start_send_impl`; `front` of an empty deque is a fault.
abbrev pub start_send_impl : List (List ℕ × Bool) → Option (List Action)
start_send_impl [] = none
start_send_impl ((text, op) ∷ rest) = some (async_write text ∷ [])

abbrev pub is_empty : List (List ℕ × Bool) → Bool
is_empty [] = true
is_empty (r ∷ rest) = false

abbrev pub queued : List (List ℕ × Bool) → List ℕ → Bool → HttpConnection → Step
queued old text op c =
    let deque = old ++ ((text, op) ∷ []) in
    if is_empty old
    then (do
      actions ← start_send_impl deque
      some (record c { response_op_deque = deque }, actions))
    else some (record c { response_op_deque = deque }, [])

-- `start_send`
unfoldable pub start_send : List ℕ → Bool → HttpConnection → Step
start_send text op c = queued c.response_op_deque text op c

abbrev sent : List (List ℕ × Bool) → HttpConnection → Bool → Step
sent rest c true = some (record c { response_op_deque = rest }, shut_down ∷ [])
sent [] c false = some (record c { response_op_deque = [] }, [])
sent (r ∷ rest) c false = do
  actions ← start_send_impl (r ∷ rest)
  some (record c { response_op_deque = r ∷ rest }, actions)

abbrev popped : List (List ℕ × Bool) → Option (List (List ℕ × Bool))
popped [] = none
popped (r ∷ rest) = some rest

-- What both callbacks do about an error.
abbrev on_error : ErrCode → HttpConnection → Step
on_error ec c = if eqz ec eopcanceled then some (c, []) else some (c, shut_down ∷ [])

-- The callback of the write that `start_send_impl` asks for, which has kept the flag of its response.
unfoldable pub on_write : ErrCode → Bool → HttpConnection → Step
on_write ec op c =
    if eqz ec success then (do rest ← popped c.response_op_deque; sent rest c op) else on_error ec c

abbrev pub request_of : Target → Request
request_of (a_request r) = r
request_of (a_response r) = blank_request
request_of (an_unknown m) = blank_request

abbrev is_http_1_0 : Version → Bool
is_http_1_0 http_err = false
is_http_1_0 http_1_0 = true
is_http_1_0 http_1_1 = false

abbrev pub bad_request : List ℕ
bad_request = codes "HTTP/1.1 400 Bad Request" ++ (crlf_bytes ++ crlf_bytes)

-- `http_op` of main.cc beside it
abbrev pub http_op : Request → Response → Response
http_op request response = record response {
  message = record response.message { version = request.message.version };
  state = pos 200;
}

-- One step, and what the next asks for behind it.
abbrev pub and_then : Step → (HttpConnection → Step) → Step
and_then m next = do (c, actions) ← m; (c', actions') ← next c; some (c', actions ++ actions')

module _ (user_op : Request → Response → Response) where
  -- What follows when a request is complete.
  abbrev pub answer : Request → HttpConnection → Step
  answer r c =
      let text = dump_response (user_op r blank_response) in
      if is_http_1_0 r.message.version
      then start_send text true c
      else and_then (start_send text false c) (λ c'. start_read (record c' {
        buffer = read c'.buffer (nparse c'.parser);
        request = blank_request;
        parser = reset c'.parser;
      }))

  -- The three ways on from a call of the parser, which stores its parser and request.
  abbrev pub parsed : HttpConnection → Outcome → Step
  parsed c (ret RetCode.error (p, t)) =
      start_send bad_request true (record c { parser = p; request = request_of t })
  parsed c (ret RetCode.waiting_data (p, t)) =
      start_read (record c { parser = p; request = request_of t })
  parsed c (ret RetCode.ready (p, t)) =
      answer (request_of t) (record c { parser = p; request = request_of t })
  parsed c fault = none
  parsed c out_of_fuel = none

  -- The callback of the read that `start_read` asks for
  unfoldable pub on_read : ErrCode → ℕ → HttpConnection → Step
  on_read ec nread c =
      if eqz ec success
      then (if nread == 0 then some (c, shut_down ∷ []) else (do
        let b = write c.buffer nread
        i ← read_begin b
        bytes ← slice b.char_vector i (data_bytes b)
        parsed (record c { buffer = b }) (parse c.parser bytes (a_request c.request))))
      else on_error ec c

  -- The socket stores bytes from `writeBegin` on, and calls back.
  unfoldable pub receive : List ℕ → HttpConnection → Step
  receive bytes c = do
    v ← put c.buffer.char_vector c.buffer.write_index bytes
    on_read success (length bytes) (record c { buffer = record c.buffer { char_vector = v } })

  -- So it does with one piece after the other.
  unfoldable pub receive_pieces : List (List ℕ) → HttpConnection → Step
  receive_pieces [] c = some (c, [])
  receive_pieces (bytes ∷ pieces) c = and_then (receive bytes c) (λ c'. receive_pieces pieces c')

  -- And with the pieces of one request after the other.
  unfoldable pub receive_requests : List (List (List ℕ)) → HttpConnection → Step
  receive_requests [] c = some (c, [])
  receive_requests (pieces ∷ later) c =
      and_then (receive_pieces pieces c) (λ c'. receive_requests later c')
