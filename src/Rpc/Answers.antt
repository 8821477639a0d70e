-- ===== src/Rpc/Answers.antt =====
-- What rpc/src/server.cc answers to a message.
use lcy.Prelude.{ℕ, ◌≡◌, ◌≢◌, refl, Option, none, some, List, [], ◌∷◌, ◌++◌}
use lcy.Prelude.Assoc.{lookup, ℕ_keys, text_keys}
use lcy.Bytes.{Host}
use lcy.Rpc.Message.{
  request_type, no_service, no_method, invalid_request, not_support, Message, Codec, Services,
}
use lcy.Rpc.Connection.{Connection, Action, async_write, frame, send, start_deque_send}
use lcy.Rpc.Server.{ServiceInfo, Server, get_method, error_message, result_message}

-- `send` puts a text behind those that wait.
abbrev pub Sends : Connection → List ℕ → Option (Connection × List Action) → Type 0
Sends c text r =
    (c' : Connection) × (actions : List Action) × (r ≡ some (c', actions))
    × (c'.send_buf_deque ≡ c.send_buf_deque ++ (text ∷ []))

send-from :
    (c : Connection) (text : List ℕ) (q : List (List ℕ))
    → c.send_buf_deque ≡ q
    → Sends c text (send c text)
unfolding send start_deque_send
send-from c text [] e = (
  record c { send_buf_deque = c.send_buf_deque ++ (text ∷ []) },
  async_write text ∷ [],
  rw e refl,
  refl,
)
send-from c text (d ∷ ds) e =
    (record c { send_buf_deque = c.send_buf_deque ++ (text ∷ []) }, [], rw e refl, refl)

pub send-Sends : (c : Connection) (text : List ℕ) → Sends c text (send c text)
send-Sends c text = send-from c text c.send_buf_deque refl

module _ {Service Method Arguments Result : Type 0}
    (lib : Services Service Method Arguments Result) where
  -- What a server answers to a message: an error with the message's id, or the result of the
  -- method that the message names, or nothing where the method does not run `done`.
  pub data Answers (server : Server Service Method) (m : Message) : Option Message → Type 0 where
    refuses : m.tp ≢ request_type → Answers server m (some (error_message lib m.id not_support))
    misses_service :
        m.tp ≡ request_type
        → lookup m.request.service_name server.name_service_info_umap ≡ none
        → Answers server m (some (error_message lib m.id no_service))
    misses_method :
        (info : ServiceInfo Service Method)
        → m.tp ≡ request_type
        → lookup m.request.service_name server.name_service_info_umap ≡ some info
        → get_method lib info m.request.service_method ≡ none
        → Answers server m (some (error_message lib m.id no_method))
    rejects :
        (info : ServiceInfo Service Method) (method : Method)
        → m.tp ≡ request_type
        → lookup m.request.service_name server.name_service_info_umap ≡ some info
        → get_method lib info m.request.service_method ≡ some method
        → lib.parse_arguments info.service method m.request.arguments ≡ none
        → Answers server m (some (error_message lib m.id invalid_request))
    keeps_silent :
        (info : ServiceInfo Service Method) (method : Method) (arguments : Arguments)
        → m.tp ≡ request_type
        → lookup m.request.service_name server.name_service_info_umap ≡ some info
        → get_method lib info m.request.service_method ≡ some method
        → lib.parse_arguments info.service method m.request.arguments ≡ some arguments
        → lib.call info.service method arguments ≡ none
        → Answers server m none
    replies :
        (info : ServiceInfo Service Method) (method : Method) (arguments : Arguments)
        (result : Result)
        → m.tp ≡ request_type
        → lookup m.request.service_name server.name_service_info_umap ≡ some info
        → get_method lib info m.request.service_method ≡ some method
        → lib.parse_arguments info.service method m.request.arguments ≡ some arguments
        → lib.call info.service method arguments ≡ some result
        → Answers server m (some (result_message lib m.id result))

  module _ (h : Host) (codec : Codec) where
    -- The connection sends an answer, or does nothing.
    abbrev pub Sent : Connection → Option Message → Option (Connection × List Action) → Type 0
    Sent conn none r = r ≡ some (conn, [])
    Sent conn (some m) r = Sends conn (frame h (codec.serialize m)) r

    abbrev pub Answered :
        Server Service Method → Message → Connection → Option (Connection × List Action) → Type 0
    Answered server m conn r =
        (answer : Option Message) × Answers server m answer × Sent conn answer r
