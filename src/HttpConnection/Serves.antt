-- ===== src/HttpConnection/Serves.antt =====
-- The connection of http_connection.cc answers the requests that a client sends, each in whatever
-- pieces it comes.
use lcy.Prelude.{
  ℕ, suc, ◌+◌, ◌*◌, ◌^◌, ◌≤◌, ◌<◌, ◌≡◌, refl, sym, ap, ◌∙◌, Bool, true, false, some, List, [], ◌∷◌,
  ◌++◌, ◌==◌, length, arith, append-nil, length-append, drop_all,
}
use lcy.DynamicBuffer.{DynamicBuffer, read, write, data_bytes, available_bytes}
use lcy.DynamicBuffer.Inv.{
  IsValid, fresh-IsValid, content, length-content, read-IsValid, content-read, read_begin_lem,
}
use lcy.DynamicBuffer.Refine.{read-Keeps}
use lcy.DynamicBuffer.Room.{
  HasRoom, Restocked, restock, filled, filled-IsValid, content-filled, length-filled, put-filled,
  slice-content,
}
use lcy.Http.Version.{Version, http_1_1}
use lcy.Http.Message.{
  Request, blank_request, Response, blank_response, Target, a_request, a_response, an_unknown,
  dump_request, dump_response,
}
use lcy.Http.Parser.{RetCode, fresh, done, parse}
use lcy.Http.Parser.HeaderResume.{shown}
use lcy.Http.Parser.Resume.{parse_resume_whole}
use lcy.Http.Parser.Pieces.{fresh-Between, shown-waits, shown-ready}
use lcy.Http.Parser.RoundTrip.{IsSendable, finished, parse-dump_request}
use lcy.Http.Parser.Prefix.{parse_prefix}
use lcy.Http.Parser.PrefixBody.{is_request}
use lcy.Http.Lexer.{crlf}
use lcy.HttpConnection.{
  Action, async_read, async_write, shut_down, HttpConnection, new_connection, Step, start_read,
  queued, start_send, and_then, is_http_1_0, request_of, on_read, receive, receive_pieces,
}

-- What was asked of the socket beside reads.
unfoldable pub visible : List Action → List Action
visible [] = []
visible (async_read n ∷ rest) = visible rest
visible (async_write text ∷ rest) = async_write text ∷ visible rest
visible (shut_down ∷ rest) = shut_down ∷ visible rest

pub visible-append : (a b : List Action) → visible (a ++ b) ≡ visible a ++ visible b
unfolding visible
visible-append [] b = refl
visible-append (async_read n ∷ a) b = visible-append a b
visible-append (async_write text ∷ a) b = ap (◌∷◌ (async_write text)) (visible-append a b)
visible-append (shut_down ∷ a) b = ap (◌∷◌ shut_down) (visible-append a b)

-- A connection in the middle of a request, of which it has received some bytes: they stand in its
-- buffer, and its parser and request are what one call on them leaves. The socket was told to read,
-- and there is address space for `n` more reads.
pub record Mid (n : ℕ) (c : HttpConnection) (received : List ℕ) : Type 0 where
  pub room : HasRoom 8192 n c.buffer
  pub holds : content c.buffer ≡ received
  pub waits :
      parse fresh received (a_request blank_request)
      ≡ done RetCode.waiting_data c.parser (a_request c.request)
  pub plain : c.parser.chunked_transfer ≡ false

-- A request that a client of the connection can send, in version 1.1.
pub record Asks (r : Request) : Type 0 where
  pub sendable : IsSendable r
  pub version : r.message.version ≡ http_1_1

abbrev pub Small : List ℕ → Type 0
Small bytes = (0 < length bytes) × (length bytes ≤ 8192)

-- What the deque holds for a request, and the write that it starts where the deque was empty.
abbrev pub reply : (Request → Response → Response) → Request → List ℕ × Bool
reply http_op r = (dump_response (http_op r blank_response), false)

unfoldable pub started : List (List ℕ × Bool) → List (List ℕ × Bool) → List Action
started [] [] = []
started [] ((text, op) ∷ new) = async_write text ∷ []
started (r ∷ old) new = []

-- What a step leaves: what is received of a next request, and responses behind those in the deque.
abbrev pub Leaves : Step → ℕ → List (List ℕ × Bool) → List ℕ → List (List ℕ × Bool) → Type 0
Leaves step n old left new =
    (c' : HttpConnection) × (actions : List Action) × (step ≡ some (c', actions))
    × Mid n c' left
    × (c'.response_op_deque ≡ old ++ new)
    × (visible actions ≡ started old new)

-- The next call of the parser is as a first call on all bytes.
next_call :
    (c : HttpConnection) (n : ℕ) (d bytes : List ℕ)
    → Mid n c d
    → length (d ++ bytes) < 2 ^ 64
    → shown (parse c.parser (d ++ bytes) (a_request c.request))
      ≡ shown (parse fresh (d ++ bytes) (a_request blank_request))
next_call c n d bytes m h =
    parse_resume_whole fresh d bytes (a_request blank_request) c.parser (a_request c.request)
      (fresh-Between d) h m.plain m.waits

is_request-request_of : (u : Target) → is_request u ≡ true → u ≡ a_request (request_of u)
is_request-request_of (a_request r) e = refl
is_request-request_of (a_response r) e = cc
is_request-request_of (an_unknown x) e = cc

pub started-nil : (old : List (List ℕ × Bool)) → [] ≡ started old []
unfolding started
started-nil [] = refl
started-nil (r ∷ old) = refl

visible-started : (old new : List (List ℕ × Bool)) → visible (started old new) ≡ started old new
unfolding visible started
visible-started [] [] = refl
visible-started [] ((text, op) ∷ new) = refl
visible-started (r ∷ old) new = refl

pub nothing_waits :
    parse fresh [] (a_request blank_request)
    ≡ done RetCode.waiting_data fresh (a_request blank_request)
unfolding parse crlf
nothing_waits = refl

queued-started :
    (old : List (List ℕ × Bool)) (text : List ℕ) (op : Bool) (c : HttpConnection)
    → queued old text op c
      ≡ some
          (record c { response_op_deque = old ++ ((text, op) ∷ []) }, started old ((text, op) ∷ []))
unfolding started
queued-started [] text op c = refl
queued-started (r ∷ old) text op c = refl

-- A response is put behind those in the deque, and a write is started where there is none.
start_send-started :
    (text : List ℕ) (op : Bool) (c : HttpConnection)
    → start_send text op c
      ≡ some (
        record c { response_op_deque = c.response_op_deque ++ ((text, op) ∷ []) },
        started c.response_op_deque ((text, op) ∷ []),
      )
unfolding start_send started
start_send-started text op c = queued-started c.response_op_deque text op c

keeps_alive : (v : Version) → v ≡ http_1_1 → is_http_1_0 v ≡ false
keeps_alive v e = ap is_http_1_0 e

-- A new connection that starts to read.
pub start-Leaves :
    (n e : ℕ)
    → 0 < e
    → 1 + suc n * (8192 + e) < 2 ^ 64
    → Leaves (start_read (new_connection e)) n [] [] []
unfolding start_read visible started
start-Leaves n e h space =
    let x : Restocked 8192 n (lcy.DynamicBuffer.fresh e) =
      restock 8192 n (lcy.DynamicBuffer.fresh e) (fresh-IsValid e h) space in
    (
      record (new_connection e) { buffer = x.buffer },
      async_read (available_bytes x.buffer) ∷ [],
      rw (x.result, x.begins) refl,
      record { room = x.ready; holds = x.same; waits = nothing_waits; plain = refl },
      refl,
      refl,
    )

module _ (http_op : Request → Response → Response) (n : ℕ) (c : HttpConnection) (d bytes : List ℕ)
    (m : Mid (suc n) c d) (small : Small bytes) where
  -- The buffer with the new bytes.
  abbrev full : DynamicBuffer
  full = filled 8192 (suc n) c.buffer m.room bytes small.0 small.1

  full-IsValid : IsValid full
  full-IsValid = filled-IsValid 8192 (suc n) c.buffer m.room bytes small.0 small.1

  full_holds : content full ≡ d ++ bytes
  full_holds =
      content-filled 8192 (suc n) c.buffer m.room bytes small.0 small.1
      ∙ ap (λ x. x ++ bytes) m.holds

  full_size : length full.char_vector ≡ length c.buffer.char_vector
  full_size = length-filled 8192 (suc n) c.buffer m.room bytes small.0 small.1

  -- A read comes down to what follows the parser.
  receive-parsed :
      receive http_op bytes c
      ≡ lcy.HttpConnection.parsed http_op
          (record c { buffer = full })
          (parse c.parser (d ++ bytes) (a_request c.request))
  unfolding receive on_read
  receive-parsed =
      let come : (length bytes == 0) ≡ false = ground (arith, small.0) in
      rw
        (
          put-filled 8192 (suc n) c.buffer m.room bytes small.0 small.1,
          come,
          read_begin_lem full-IsValid,
          slice-content full full-IsValid,
          full_holds,
        )
        refl

  -- More of the request is still to come.
  pub receive_part :
      (r : Request) (more : List ℕ)
      → Asks r
      → 0 < length more
      → (d ++ bytes) ++ more ≡ dump_request r
      → Leaves (receive http_op bytes c) n c.response_op_deque (d ++ bytes) []
  unfolding start_read visible shown
  receive_part r more ask hm e =
      let (p, u, w, plain, kind) = parse_prefix r (d ++ bytes) more ask.sendable hm e in
      let size : length (d ++ bytes) < 2 ^ 64 =
        omega (arith, ap length e, length-append (d ++ bytes) more, ask.sendable.is_size) in
      let here : parse c.parser (d ++ bytes) (a_request c.request) ≡ done RetCode.waiting_data p u =
        shown-waits (parse c.parser (d ++ bytes) (a_request c.request)) p u
          (next_call c (suc n) d bytes m size ∙ ap shown w) in
      let x : Restocked 8192 n full =
        restock 8192 n full full-IsValid (omega (arith, m.room.space, full_size)) in
      (
        record c { buffer = x.buffer; parser = p; request = request_of u },
        async_read (available_bytes x.buffer) ∷ [],
        receive-parsed ∙ rw (here, x.result, x.begins) refl,
        record {
          room = x.ready;
          holds = x.same ∙ full_holds;
          waits = w ∙ ap (λ v. done RetCode.waiting_data p v) (is_request-request_of u kind);
          plain = plain;
        },
        sym (append-nil c.response_op_deque),
        started-nil c.response_op_deque,
      )

  -- The request is complete.
  pub receive_rest :
      (r : Request)
      → Asks r
      → d ++ bytes ≡ dump_request r
      → Leaves (receive http_op bytes c) n c.response_op_deque [] (reply http_op r ∷ [])
  unfolding start_read visible shown
  receive_rest r ask e =
      let size : length (d ++ bytes) < 2 ^ 64 = omega (arith, ap length e, ask.sendable.is_size) in
      let here : parse c.parser (d ++ bytes) (a_request c.request)
          ≡ done RetCode.ready (finished r) (a_request r) =
        shown-ready (parse c.parser (d ++ bytes) (a_request c.request)) (finished r) (a_request r) (
          next_call c (suc n) d bytes m size
          ∙ ap shown (
              ap (λ z. parse fresh z (a_request blank_request))
                (e ∙ sym (append-nil (dump_request r)))
              ∙ parse-dump_request r [] ask.sendable)) in
      let held : length (content full) ≡ length (dump_request r) =
        ap length full_holds ∙ ap length e in
      let used_up : length (dump_request r) ≤ data_bytes full =
        omega (arith, held, length-content full-IsValid) in
      let left = read full (length (dump_request r)) in
      let keeps = read-Keeps full (length (dump_request r)) in
      let x : Restocked 8192 n left =
        restock 8192 n left (read-IsValid full-IsValid (length (dump_request r)) used_up) (
          omega (
            arith,
            m.room.space,
            ap length keeps.0 ∙ full_size,
            ap (λ (k : ℕ). suc n * (8192 + k)) keeps.1,
          )) in
      (
        record c {
          buffer = x.buffer;
          parser = fresh;
          request = blank_request;
          response_op_deque = c.response_op_deque ++ (reply http_op r ∷ []);
        },
        started c.response_op_deque (reply http_op r ∷ [])
            ++ (async_read (available_bytes x.buffer) ∷ []),
        receive-parsed
            ∙ rw
                (
                  here,
                  keeps_alive r.message.version ask.version,
                  start_send-started (dump_response (http_op r blank_response)) false
                      (record c { buffer = full; parser = finished r; request = r }),
                  x.result,
                  x.begins,
                )
                refl,
        record {
          room = x.ready;
          holds =
              x.same
              ∙ content-read full-IsValid (length (dump_request r)) used_up
              ∙ drop_all (length (dump_request r)) (content full) (omega (arith, held));
          waits = nothing_waits;
          plain = refl;
        },
        refl,
        visible-append (started c.response_op_deque (reply http_op r ∷ []))
              (async_read (available_bytes x.buffer) ∷ [])
            ∙ append-nil (visible (started c.response_op_deque (reply http_op r ∷ [])))
            ∙ visible-started c.response_op_deque (reply http_op r ∷ []),
      )
