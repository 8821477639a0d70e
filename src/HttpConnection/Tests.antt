-- ===== src/HttpConnection/Tests.antt =====
-- A session with the example's operation.
use lcy.Prelude.{
  ℕ, ◌≡◌, refl, ap, ◌∙◌, Bool, true, false, some, List, [], ◌∷◌, ◌++◌, map, take, drop, arith,
  append-nil, take-append-drop, length-take, length-drop,
}
use lcy.Http.Message.{dump_request}
use lcy.Http.Sample.{post, post_length, post-IsSendable}
use lcy.HttpConnection.{new_connection, start_read, http_op, and_then, receive_requests}
use lcy.HttpConnection.Serves.{reply, Leaves}
use lcy.HttpConnection.Writes.{writes_end, successive, lost, writes_end-successive}
use lcy.HttpConnection.Session.{joined, Sent, IsSent, pieces_of, session-Leaves}

-- A request that comes in two pieces.
abbrev pieces : List (List ℕ)
pieces = take 20 (dump_request post) ∷ drop 20 (dump_request post) ∷ []

pieces-IsSent : IsSent (post, pieces)
unfolding joined
pieces-IsSent = (
  record { sendable = post-IsSendable; version = refl },
  (
    omega (arith, post_length, length-take 20 (dump_request post)),
    (omega (arith, post_length, length-drop 20 (dump_request post)), tt),
  ),
  ap (λ x. take 20 (dump_request post) ++ x) (append-nil (drop 20 (dump_request post)))
      ∙ take-append-drop 20 (dump_request post),
)

abbrev todo : List Sent
todo = (post, pieces) ∷ (post, pieces) ∷ []

session-Leaves_example :
    Leaves
      (and_then
        (start_read (new_connection 1024))
        (λ c. receive_requests http_op (map (λ x. x.1) todo) c))
      0
      []
      []
      (map (λ x. reply http_op x.0) todo)
unfolding pieces_of
session-Leaves_example =
    session-Leaves http_op 1024 todo (omega arith) (omega arith)
      (pieces-IsSent, (pieces-IsSent, tt))

-- Two responses, the second of which is to be the last, and one behind it.
abbrev waiting : List (List ℕ × Bool)
waiting = (97 ∷ [], false) ∷ (98 ∷ [], true) ∷ (99 ∷ [], false) ∷ []

writes_end-successive_example :
    writes_end waiting (record (new_connection 1024) { response_op_deque = waiting })
    ≡ some (record (new_connection 1024) { response_op_deque = lost waiting }, successive waiting)
writes_end-successive_example = writes_end-successive waiting (new_connection 1024)
