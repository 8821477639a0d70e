-- ===== src/Rpc/Message.antt =====
-- The messages of rpc/rpc.proto and what the library takes from protobuf. The code that protobuf
-- generates, and the services that a user writes, are parameters.
use lcy.Prelude.{ℕ, ◌<◌, ◌^◌, ◌≡◌, Option, some, List, []}

-- Enumerations are open: a number that has no name is kept. `type`, and `err` below
abbrev pub MessageType : Type 0
MessageType = ℕ

abbrev pub request_type : MessageType
request_type = 0

abbrev pub response_type : MessageType
response_type = 1

abbrev pub Err : Type 0
Err = ℕ

abbrev pub success : Err
success = 0

abbrev pub no_service : Err
no_service = 1

abbrev pub no_method : Err
no_method = 2

abbrev pub invalid_request : Err
invalid_request = 3

abbrev pub not_support : Err
not_support = 4

pub record Request : Type 0 where
  pub service_name : List ℕ
  pub service_method : List ℕ
  pub arguments : List ℕ

pub record Response : Type 0 where
  pub errcode : Err
  pub arguments : List ℕ

-- A part that is not set reads as its default.
pub record Message : Type 0 where
  pub id : ℕ
  pub tp : MessageType
  pub request : Request
  pub response : Response

abbrev pub empty : Message
empty = record {
  id = 0;
  tp = request_type;
  request = record { service_name = []; service_method = []; arguments = [] };
  response = record { errcode = success; arguments = [] };
}

-- `SerializeToString` and `ParseFromString` of the generated class: what is written is read back.
pub record Codec : Type 0 where
  pub serialize : Message → List ℕ
  pub parse : List ℕ → Option Message
  pub parse-serialize : (m : Message) → m.id < 2 ^ 64 → parse (serialize m) ≡ some m

-- A user's service: its descriptor, with its name and its methods under their names; the parse of
-- a method's arguments; what `CallMethod` leaves in the response when it runs `done`, or `none`
-- when it does not; and the text of a response.
pub record Services (Service Method Arguments Result : Type 0) : Type 0 where
  pub name : Service → List ℕ
  pub methods : Service → List (List ℕ × Method)
  pub parse_arguments : Service → Method → List ℕ → Option Arguments
  pub call : Service → Method → Arguments → Option Result
  pub serialize_result : Result → List ℕ
