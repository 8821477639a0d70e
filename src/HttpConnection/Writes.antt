-- ===== src/HttpConnection/Writes.antt =====
-- The responses of http_connection.cc are written one after the other.
use lcy.Prelude.{ℕ, ◌≡◌, refl, Bool, true, false, some, List, [], ◌∷◌}
use lcy.Reactor.{success}
use lcy.HttpConnection.{Action, async_write, shut_down, HttpConnection, Step, and_then, on_write}

-- The writes end without an error, each followed by the write that its end starts, until the deque is
-- empty or the socket is shut down: a closed socket calls back no more.
unfoldable pub writes_end : List (List ℕ × Bool) → HttpConnection → Step
writes_end [] c = some (c, [])
writes_end ((text, true) ∷ rest) c = on_write success true c
writes_end ((text, false) ∷ rest) c = and_then (on_write success false c) (λ c'. writes_end rest c')

-- What is asked of the socket when the write of the first response is going on: the writes of the
-- others, in order, up to one that is to be the last, and then to shut down.
unfoldable pub successive : List (List ℕ × Bool) → List Action
successive [] = []
successive ((text, true) ∷ rest) = shut_down ∷ []
successive ((text, false) ∷ []) = []
successive ((text, false) ∷ (next, op) ∷ rest) = async_write next ∷ successive ((next, op) ∷ rest)

-- The responses behind the one that is to be the last.
unfoldable pub lost : List (List ℕ × Bool) → List (List ℕ × Bool)
lost [] = []
lost ((text, true) ∷ rest) = rest
lost ((text, false) ∷ rest) = lost rest

-- When the write of the first response in the deque is going on, and the writes end without an error:
-- the other responses are written, each once and in order, up to one that is to be the last; behind
-- that one the socket is shut down, and only the responses behind it are not written and stay.
pub writes_end-successive :
    (deque : List (List ℕ × Bool)) (c : HttpConnection)
    → writes_end deque (record c { response_op_deque = deque })
      ≡ some (record c { response_op_deque = lost deque }, successive deque)
unfolding writes_end successive lost on_write
writes_end-successive [] c = refl
writes_end-successive ((text, true) ∷ rest) c = refl
writes_end-successive ((text, false) ∷ []) c = refl
writes_end-successive ((text, false) ∷ (next, op) ∷ rest) c =
    rw (writes_end-successive ((next, op) ∷ rest) c) refl
