-- ===== src/Rpc/Sample.antt =====
-- A concrete codec and a concrete service, for the runs of Tests.
use lcy.Prelude.{
  ℕ, ◌<◌, ◌^◌, ◌≡◌, refl, Option, none, some, List, [], ◌∷◌, ◌++◌, length, take, drop,
  take-append_length, drop-append_length,
}
use lcy.Rpc.Message.{Message, Codec, Services}

-- The numbers, the lengths of the first three texts, and the four texts.
unfoldable pub write_message : Message → List ℕ
write_message m =
    m.id
    ∷ m.tp
    ∷ m.response.errcode
    ∷ length m.request.service_name
    ∷ length m.request.service_method
    ∷ length m.request.arguments
    ∷ (m.request.service_name
        ++ (m.request.service_method ++ (m.request.arguments ++ m.response.arguments)))

unfoldable pub read_message : List ℕ → Option Message
read_message (id ∷ tp ∷ code ∷ a ∷ b ∷ c ∷ rest) = some (record {
  id = id;
  tp = tp;
  request = record {
    service_name = take a rest;
    service_method = take b (drop a rest);
    arguments = take c (drop b (drop a rest));
  };
  response = record { errcode = code; arguments = drop c (drop b (drop a rest)) };
})
read_message _ = none

pub read-write_message : (m : Message) → m.id < 2 ^ 64 → read_message (write_message m) ≡ some m
unfolding read_message write_message
read-write_message m h =
    rw
      (
        take-append_length m.request.service_name
            (m.request.service_method ++ (m.request.arguments ++ m.response.arguments)),
        drop-append_length m.request.service_name
            (m.request.service_method ++ (m.request.arguments ++ m.response.arguments)),
        take-append_length m.request.service_method (m.request.arguments ++ m.response.arguments),
        drop-append_length m.request.service_method (m.request.arguments ++ m.response.arguments),
        take-append_length m.request.arguments m.response.arguments,
        drop-append_length m.request.arguments m.response.arguments,
      )
      refl

unfoldable pub sample_codec : Codec
sample_codec = record {
  serialize = write_message;
  parse = read_message;
  parse-serialize = read-write_message;
}

-- A service "s" with a method "m" that gives its arguments twice, and not for the empty ones.
unfoldable pub twice : List ℕ → Option (List ℕ)
twice [] = none
twice (a ∷ t) = some ((a ∷ t) ++ (a ∷ t))

abbrev pub sample_services : Services ℕ ℕ (List ℕ) (List ℕ)
sample_services = record {
  name = λ s. 115 ∷ [];
  methods = λ s. (109 ∷ [], 0) ∷ [];
  parse_arguments = λ s m text. some text;
  call = λ s m arguments. twice arguments;
  serialize_result = λ r. r;
}
