-- ===== src/Rpc/Call.antt =====
-- A call from rpc/src/channel.cc through rpc/src/server.cc and back.
use lcy.Prelude.{
  ℕ, ◌+◌, ◌<◌, ◌%◌, ◌^◌, ◌≡◌, refl, sym, subst, ap, ◌∙◌, true, false, Option, none, some, List, [],
  ◌∷◌, ◌++◌, ◌==◌,
}
use lcy.Prelude.Assoc.{lookup, put, erase, lookup-put, lookup-erase, ℕ_keys, text_keys, ==-refl}
use lcy.Bytes.{Host}
use lcy.Rpc.Message.{response_type, Request, Message, Codec, Services}
use lcy.Rpc.Connection.{Connection, Action, frame}
use lcy.Rpc.Server.{ServiceInfo, Server, get_method, result_message, on_connection_message}
use lcy.Rpc.Channel.{MethodInfo, Channel, Completion, call_message, call_method, on_message_op}
use lcy.Rpc.Answers.{Sends, send-Sends}

-- The channel without the call of an id, and the end of a call.
abbrev pub forget : ℕ → Channel → Channel
forget id c = record c { id_method_umap = erase id c.id_method_umap }

abbrev pub completed : Channel → ℕ → MethodInfo → List ℕ → Option (Channel × List Completion)
completed c id info text = some (forget id c, record { info = info; arguments = text } ∷ [])

module _ (codec : Codec) (c : Channel) (m : Message) (is_id : m.id < 2 ^ 64)
    (reply : m.tp ≡ response_type) where
  is_reply : (m.tp == response_type) ≡ true
  is_reply = ap (λ (t : ℕ). t == response_type) reply

  -- A response with the id of a call that waits, whatever error code it has, ends that call: it is
  -- erased, the caller's response is parsed from the response's arguments, and `done` is run, once.
  pub on_message_op-completed :
      (info : MethodInfo)
      → lookup m.id c.id_method_umap ≡ some info
      → on_message_op codec (codec.serialize m) c ≡ completed c m.id info m.response.arguments
  unfolding on_message_op
  on_message_op-completed info e = rw (codec.parse-serialize m is_id, is_reply, e) refl

  -- A response with an id under which no call waits is a fault.
  on_message_op_unknown :
      lookup m.id c.id_method_umap ≡ none → on_message_op codec (codec.serialize m) c ≡ none
  unfolding on_message_op
  on_message_op_unknown e = rw (codec.parse-serialize m is_id, is_reply, e) refl

-- What `CallMethod` leaves.
record Called (h : Host) (codec : Codec) (info : MethodInfo) (request : Request) (c : Channel)
    : Type 0 where
  after : Channel
  actions : List Action
  result : call_method h codec info request c ≡ some (after, actions)
  sent :
      after.conn.send_buf_deque
      ≡ c.conn.send_buf_deque
        ++ (frame h (codec.serialize (call_message c.id_allocator request)) ∷ [])
  waits : lookup c.id_allocator after.id_method_umap ≡ some info
  others :
      (i : ℕ)
      → (c.id_allocator == i) ≡ false
      → lookup i after.id_method_umap ≡ lookup i c.id_method_umap

call_method-Called :
    (h : Host) (codec : Codec) (info : MethodInfo) (request : Request) (c : Channel)
    → Called h codec info request c
unfolding call_method
call_method-Called h codec info request c =
    let (conn, actions, e, d) =
      send-Sends c.conn (frame h (codec.serialize (call_message c.id_allocator request))) in
    record {
      after = record c {
        id_allocator = (c.id_allocator + 1) % 2 ^ 64;
        conn = conn;
        id_method_umap = put c.id_allocator info c.id_method_umap;
      };
      actions = actions;
      result = rw e refl;
      sent = d;
      waits =
          rw
            (lookup-put c.id_allocator c.id_allocator info c.id_method_umap, ==-refl c.id_allocator)
            refl;
      others = λ i h. rw (lookup-put i c.id_allocator info c.id_method_umap, h) refl;
    }

-- Two responses to one call.
pub record Repeated (h : Host) (codec : Codec) (info : MethodInfo) (request : Request) (c : Channel)
    (m m' : Message) : Type 0 where
  pub called : Channel
  pub actions : List Action
  pub call_result : call_method h codec info request c ≡ some (called, actions)
  pub ends :
      on_message_op codec (codec.serialize m) called
      ≡ completed called c.id_allocator info m.response.arguments
  pub faults : on_message_op codec (codec.serialize m') (forget c.id_allocator called) ≡ none

-- A call, and then two responses with its id, whatever their error codes and arguments: the first ends
-- the call with its arguments, and erases it; the second is a fault of the client, which follows a null
-- pointer.
pub call-Repeated :
    (h : Host) (codec : Codec) (info : MethodInfo) (request : Request) (c : Channel)
    (m m' : Message)
    → c.id_allocator < 2 ^ 64
    → m.id ≡ c.id_allocator
    → m'.id ≡ c.id_allocator
    → m.tp ≡ response_type
    → m'.tp ≡ response_type
    → Repeated h codec info request c m m'
call-Repeated h codec info request c m m' b own own' reply reply' =
    let x = call_method-Called h codec info request c in
    let erased : lookup m'.id (erase c.id_allocator x.after.id_method_umap) ≡ none =
      ap (λ i. lookup i (erase c.id_allocator x.after.id_method_umap)) own'
      ∙ lookup-erase c.id_allocator c.id_allocator x.after.id_method_umap
      ∙ rw (==-refl c.id_allocator) refl in
    record {
      called = x.after;
      actions = x.actions;
      call_result = x.result;
      ends =
          on_message_op-completed codec x.after m (subst (λ i. i < 2 ^ 64) (sym own) b) reply info
            (ap (λ i. lookup i x.after.id_method_umap) own ∙ x.waits)
          ∙ ap (λ i. completed x.after i info m.response.arguments) own;
      faults =
          on_message_op_unknown codec (forget c.id_allocator x.after) m'
            (subst (λ i. i < 2 ^ 64) (sym own') b) reply' erased;
    }

module _ {Service Method Arguments Result : Type 0} (lib : Services Service Method Arguments Result)
    (h : Host) (codec : Codec) (server : Server Service Method) where
  -- The server has a method under the names of a request, and the method gives a result for its
  -- arguments.
  pub record Gives (request : Request) (result : Result) : Type 0 where
    pub info : ServiceInfo Service Method
    pub method : Method
    pub arguments : Arguments
    pub has_service : lookup request.service_name server.name_service_info_umap ≡ some info
    pub has_method : get_method lib info request.service_method ≡ some method
    pub parses : lib.parse_arguments info.service method request.arguments ≡ some arguments
    pub calls : lib.call info.service method arguments ≡ some result

  answer-result :
      (conn : Connection) (id : ℕ) (request : Request) (result : Result)
      → id < 2 ^ 64
      → Gives request result
      → Sends conn (frame h (codec.serialize (result_message lib id result))) (
          on_connection_message lib h codec server conn (codec.serialize (call_message id request)))
  unfolding on_connection_message
  answer-result conn id request result b g =
      rw
        (
          codec.parse-serialize (call_message id request) b,
          g.has_service,
          g.has_method,
          g.parses,
          g.calls,
        )
        (send-Sends conn (frame h (codec.serialize (result_message lib id result))))

  -- What a call leaves at both ends.
  pub record RoundTrip (info : MethodInfo) (request : Request) (result : Result) (c : Channel)
      (conn : Connection) : Type 0 where
    pub called : Channel
    pub actions : List Action
    pub call_result : call_method h codec info request c ≡ some (called, actions)
    pub request_sent :
        called.conn.send_buf_deque
        ≡ c.conn.send_buf_deque
          ++ (frame h (codec.serialize (call_message c.id_allocator request)) ∷ [])
    pub answered :
        Sends conn (frame h (codec.serialize (result_message lib c.id_allocator result))) (
          on_connection_message lib h codec server conn
            (codec.serialize (call_message c.id_allocator request)))
    pub waits : lookup c.id_allocator called.id_method_umap ≡ some info
    pub ends :
        (later : Channel)
        → lookup c.id_allocator later.id_method_umap ≡ some info
        → on_message_op codec (codec.serialize (result_message lib c.id_allocator result)) later
          ≡ completed later c.id_allocator info (lib.serialize_result result)
    pub others :
        (i : ℕ)
        → (c.id_allocator == i) ≡ false
        → lookup i (forget c.id_allocator called).id_method_umap ≡ lookup i c.id_method_umap

  -- A call of a method that the server has, and that gives a result for the arguments: the client
  -- sends the request behind its length; given that request, the server sends the result behind its
  -- length; given that response, and while the call waits, the client ends just this call with the
  -- result of the method. Calls with other ids wait as before.
  pub call-RoundTrip :
      (info : MethodInfo) (request : Request) (result : Result) (c : Channel) (conn : Connection)
      → c.id_allocator < 2 ^ 64
      → Gives request result
      → RoundTrip info request result c conn
  call-RoundTrip info request result c conn b g =
      let x = call_method-Called h codec info request c in
      record {
        called = x.after;
        actions = x.actions;
        call_result = x.result;
        request_sent = x.sent;
        answered = answer-result conn c.id_allocator request result b g;
        waits = x.waits;
        ends = λ later e.
            on_message_op-completed codec later (result_message lib c.id_allocator result) b refl
              info e;
        others = λ i n. rw (lookup-erase i c.id_allocator x.after.id_method_umap, n) (x.others i n);
      }
