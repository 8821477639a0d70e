-- ===== src/Rpc/Server.antt =====
-- The server of rpc/src/server.cc: registered services, and the answer to a request.
use lcy.Prelude.{ℕ, Option, none, some, List, [], ◌∷◌, ◌==◌, if◌then◌else◌}
use lcy.Prelude.Assoc.{lookup, put, text_keys}
use lcy.Bytes.{Host}
use lcy.Rpc.Message.{
  request_type, response_type, Err, success, no_service, no_method, invalid_request, not_support,
  Message, empty, Codec, Services,
}
use lcy.Rpc.Connection.{Connection, Action, frame, send}

-- `Server::ServiceInfo`
pub record ServiceInfo (Service Method : Type 0) : Type 0 where
  pub service : Service
  pub name_methods_umap : List (List ℕ × Method)

pub record Server (Service Method : Type 0) : Type 0 where
  pub name_service_info_umap : List (List ℕ × ServiceInfo Service Method)

module _ {Service Method Arguments Result : Type 0}
    (lib : Services Service Method Arguments Result) where
  -- The loop of the constructor of `ServiceInfo`
  unfoldable pub fill_methods :
      List (List ℕ × Method) → List (List ℕ × Method) → List (List ℕ × Method)
  fill_methods [] m = m
  fill_methods ((name, method) ∷ rest) m = fill_methods rest (put name method m)

  abbrev pub service_info : Service → ServiceInfo Service Method
  service_info s = record { service = s; name_methods_umap = fill_methods (lib.methods s) [] }

  -- `registerService`
  unfoldable pub register_service : Service → Server Service Method → Server Service Method
  register_service s server = record {
    name_service_info_umap = put (lib.name s) (service_info s) server.name_service_info_umap;
  }

  abbrev pub get_method : ServiceInfo Service Method → List ℕ → Option Method
  get_method info name = lookup name info.name_methods_umap

  abbrev pub error_message : ℕ → Err → Message
  error_message id code = record empty {
    id = id;
    tp = response_type;
    response = record { errcode = code; arguments = [] };
  }

  abbrev pub result_message : ℕ → Result → Message
  result_message id result = record empty {
    id = id;
    tp = response_type;
    response = record { errcode = success; arguments = lib.serialize_result result };
  }

  module _ (h : Host) (codec : Codec) where
    -- The end of `send_error_response`, and of the closure that `done` runs.
    abbrev pub send_response : Connection → Message → Option (Connection × List Action)
    send_response conn m = send conn (frame h (codec.serialize m))

    -- `send_error_response`
    abbrev pub send_error_response : Connection → ℕ → Err → Option (Connection × List Action)
    send_error_response conn id code = send_response conn (error_message id code)

    -- `CallMethod`, and the closure if it is run
    abbrev on_called : Connection → ℕ → Option Result → Option (Connection × List Action)
    on_called conn id none = some (conn, [])
    on_called conn id (some result) = send_response conn (result_message id result)

    abbrev on_arguments :
        Connection → ℕ → Service → Method → Option Arguments → Option (Connection × List Action)
    on_arguments conn id s method none = send_error_response conn id invalid_request
    on_arguments conn id s method (some arguments) = on_called conn id (lib.call s method arguments)

    abbrev on_method :
        Connection → Message → Service → Option Method → Option (Connection × List Action)
    on_method conn m s none = send_error_response conn m.id no_method
    on_method conn m s (some method) =
        on_arguments conn m.id s method (lib.parse_arguments s method m.request.arguments)

    abbrev on_service :
        Connection
        → Message
        → Option (ServiceInfo Service Method)
        → Option (Connection × List Action)
    on_service conn m none = send_error_response conn m.id no_service
    on_service conn m (some info) =
        on_method conn m info.service (get_method info m.request.service_method)

    abbrev on_parsed :
        Server Service Method → Connection → Option Message → Option (Connection × List Action)
    on_parsed server conn none = some (conn, [])
    on_parsed server conn (some m) =
        if m.tp == request_type
        then on_service conn m (lookup m.request.service_name server.name_service_info_umap)
        else send_error_response conn m.id not_support

    -- `onConnectionMessage`; `none` is a fault of the connection.
    unfoldable pub on_connection_message :
        Server Service Method → Connection → List ℕ → Option (Connection × List Action)
    on_connection_message server conn text = on_parsed server conn (codec.parse text)
