-- ===== src/HttpConnection/Session.antt =====
-- A client's session with the connection of http_connection.cc: one request after the other, each in
-- pieces.
use lcy.Prelude.{
  ℕ, suc, ◌+◌, ◌*◌, ◌^◌, ◌<◌, ◌≡◌, refl, sym, ap, ◌∙◌, Bool, some, List, [], ◌∷◌, ◌++◌, map, All,
  length, arith, append-nil, append_assoc, length-append, subst,
}
use lcy.Http.Message.{Request, Response, a_request, blank_request, dump_request}
use lcy.Http.Parser.{RetCode, fresh, done, parse}
use lcy.Http.Parser.RoundTrip.{IsSendable, finished, parse-dump_request}
use lcy.HttpConnection.{
  HttpConnection, new_connection, Step, start_read, and_then, receive, receive_pieces,
  receive_requests,
}
use lcy.HttpConnection.Serves.{
  visible, visible-append, Mid, Asks, Small, reply, started, started-nil, Leaves, start-Leaves,
  receive_part, receive_rest,
}

-- The bytes of pieces.
unfoldable pub joined : List (List ℕ) → List ℕ
joined [] = []
joined (bytes ∷ pieces) = bytes ++ joined pieces

started-append :
    (old a b : List (List ℕ × Bool)) → started old a ++ started (old ++ a) b ≡ started old (a ++ b)
unfolding started
started-append [] [] b = refl
started-append [] (r ∷ a) b = refl
started-append (r ∷ old) a b = refl

-- One step behind another.
then-Leaves :
    (step : Step) (next : HttpConnection → Step) (n k : ℕ) (old a b : List (List ℕ × Bool))
    (left left' : List ℕ)
    → Leaves step n old left a
    → ((c' : HttpConnection)
        → Mid n c' left
        → c'.response_op_deque ≡ old ++ a
        → Leaves (next c') k (old ++ a) left' b)
    → Leaves (and_then step next) k old left' (a ++ b)
then-Leaves step next n k old a b left left' (c', actions, e, m, q, v) h =
    let (c'', actions', e', m', q', v') = h c' m q in
    (
      c'',
      actions ++ actions',
      rw (e, e') refl,
      m',
      q' ∙ append_assoc old a b,
      visible-append actions actions' ∙ rw (v, v') (started-append old a b),
    )

no_step-Leaves :
    (n : ℕ) (c : HttpConnection) (old : List (List ℕ × Bool)) (d : List ℕ)
    → Mid n c d
    → c.response_op_deque ≡ old
    → Leaves (some (c, [])) n old d []
unfolding visible
no_step-Leaves n c old d m q = (c, [], refl, m, q ∙ sym (append-nil old), started-nil old)

-- A request that has come in full would not be waited for.
not_in_full :
    (n : ℕ) (c : HttpConnection) (d : List ℕ) (r : Request)
    → Mid n c d
    → IsSendable r
    → d ≡ dump_request r
    → {A : Type 0} → A
not_in_full n c d r m ok e =
    let ready : parse fresh d (a_request blank_request)
        ≡ done RetCode.ready (finished r) (a_request r) =
      ap (λ z. parse fresh z (a_request blank_request)) (e ∙ sym (append-nil (dump_request r)))
      ∙ parse-dump_request r [] ok in
    absurd (let no = sym m.waits ∙ ready in cc)

-- What a client sends: a request, and the pieces in which it comes.
abbrev pub Sent : Type 0
Sent = Request × List (List ℕ)

abbrev pub IsSent : Sent → Type 0
IsSent x = Asks x.0 × All Small x.1 × (joined x.1 ≡ dump_request x.0)

unfoldable pub pieces_of : List Sent → ℕ
pieces_of [] = 0
pieces_of ((r, pieces) ∷ later) = length pieces + pieces_of later

module _ (http_op : Request → Response → Response) where
  receive_request :
      (pieces : List (List ℕ)) (n : ℕ) (c : HttpConnection) (d : List ℕ) (r : Request)
      → Mid (length pieces + n) c d
      → All Small pieces
      → Asks r
      → d ++ joined pieces ≡ dump_request r
      → Leaves (receive_pieces http_op pieces c) n c.response_op_deque [] (reply http_op r ∷ [])
  unfolding receive_pieces joined
  receive_request [] n c d r m small ask e =
      not_in_full (0 + n) c d r m ask.sendable (sym (append-nil d) ∙ e)
  receive_request (bytes ∷ []) n c d r m (s, small) ask e =
      then-Leaves (receive http_op bytes c) (λ c'. some (c', [])) n n c.response_op_deque
        (reply http_op r ∷ []) [] [] []
        (receive_rest http_op n c d bytes (subst (λ k. Mid k c d) (omega arith) m) s r ask
          (ap (λ x. d ++ x) (sym (append-nil bytes)) ∙ e))
        (λ c' m' q'. no_step-Leaves n c' (c.response_op_deque ++ (reply http_op r ∷ [])) [] m' q')
  receive_request (bytes ∷ b ∷ pieces) n c d r m (s, small) ask e =
      let rest = length (b ∷ pieces) + n in
      let here = append_assoc d bytes (joined (b ∷ pieces)) ∙ e in
      then-Leaves (receive http_op bytes c) (λ c'. receive_pieces http_op (b ∷ pieces) c') rest n
        c.response_op_deque [] (reply http_op r ∷ []) (d ++ bytes) []
        (receive_part http_op rest c d bytes (subst (λ k. Mid k c d) (omega arith) m) s r
          (joined (b ∷ pieces)) ask (omega (arith, length-append b (joined pieces), small.0.0))
          here)
        (λ c' m' q'.
          subst
            (λ old. Leaves (receive_pieces http_op (b ∷ pieces) c') n old [] (reply http_op r ∷ []))
            q' (receive_request (b ∷ pieces) n c' (d ++ bytes) r m' small ask here))

  -- From a connection that is between two requests.
  receive_requests-Leaves :
      (todo : List Sent) (n : ℕ) (c : HttpConnection)
      → Mid (pieces_of todo + n) c []
      → All IsSent todo
      → Leaves
          (receive_requests http_op (map (λ x. x.1) todo) c)
          n
          c.response_op_deque
          []
          (map (λ x. reply http_op x.0) todo)
  unfolding receive_requests pieces_of
  receive_requests-Leaves [] n c m h =
      no_step-Leaves n c c.response_op_deque [] (subst (λ k. Mid k c []) (omega arith) m) refl
  receive_requests-Leaves ((r, pieces) ∷ later) n c m ((ask, small, e), h) =
      then-Leaves (receive_pieces http_op pieces c)
        (λ c'. receive_requests http_op (map (λ x. x.1) later) c') (pieces_of later + n) n
        c.response_op_deque (reply http_op r ∷ []) (map (λ x. reply http_op x.0) later) [] []
        (receive_request pieces (pieces_of later + n) c [] r
          (subst (λ k. Mid k c []) (omega arith) m) small ask e)
        (λ c' m' q'.
          subst
            (λ old.
              Leaves (receive_requests http_op (map (λ x. x.1) later) c') n old []
                (map (λ x. reply http_op x.0) later))
            q' (receive_requests-Leaves later n c' m' h))

  -- A new connection that starts, and then receives from a client one request after the other, in
  -- version 1.1 and such as the format can carry, each in any pieces of 1 to 8192 bytes, the next
  -- when the last has come in full: while there is address space for its buffer, no step faults, no
  -- request is refused and the socket is not shut down. Its deque holds just the responses that the
  -- user's operation makes of the requests, in their order; it has started the write of the first;
  -- its buffer is empty and it is ready for a next request.
  pub session-Leaves :
      (e : ℕ) (todo : List Sent)
      → 0 < e
      → 1 + suc (pieces_of todo) * (8192 + e) < 2 ^ 64
      → All IsSent todo
      → Leaves
          (and_then
            (start_read (new_connection e))
            (λ c. receive_requests http_op (map (λ x. x.1) todo) c))
          0
          []
          []
          (map (λ x. reply http_op x.0) todo)
  session-Leaves e todo h space sent =
      then-Leaves (start_read (new_connection e))
        (λ c. receive_requests http_op (map (λ x. x.1) todo) c) (pieces_of todo) 0 [] []
        (map (λ x. reply http_op x.0) todo) [] [] (start-Leaves (pieces_of todo) e h space)
        (λ c m q.
          subst
            (λ old.
              Leaves (receive_requests http_op (map (λ x. x.1) todo) c) 0 old []
                (map (λ x. reply http_op x.0) todo))
            q (receive_requests-Leaves todo 0 c (subst (λ k. Mid k c []) (omega arith) m) sent))
