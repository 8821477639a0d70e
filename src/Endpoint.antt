-- ===== src/Endpoint.antt =====
-- asio/src/ip/endpoint.cc: an address of a socket, as the bytes of the union of `sockaddr_in` and
-- `sockaddr_in6` on Linux. The machine's order of bytes is an argument, and so are `inet_pton` and
-- `inet_ntop`.
pub mod Laws
mod Tests
use lcy.Prelude.{
  ℕ, ◌+◌, Bool, true, false, not, Option, none, some, List, [], ◌∷◌, ◌++◌, ◌==◌, ltb, if◌then◌else◌,
  length, take, drop, replicate,
}
use lcy.Bytes.{Host, image, load, to_net}
use lcy.Http.Text.{take_while, str_eq}

abbrev pub af_inet : ℕ
af_inet = 2

abbrev pub af_inet6 : ℕ
af_inet6 = 10

-- `inet_pton` of the two families, which gives the bytes of an address or fails, and `inet_ntop`,
-- which gives the text.
pub record AddressText : Type 0 where
  pub pton4 : List ℕ → Option (List ℕ)
  pub pton6 : List ℕ → Option (List ℕ)
  pub ntop4 : List ℕ → List ℕ
  pub ntop6 : List ℕ → List ℕ

-- `data_`, 28 bytes: the family, the port, the address of a `sockaddr_in` from 4 on and that of a
-- `sockaddr_in6` from 8 on.
pub record Endpoint : Type 0 where
  pub native : List ℕ

-- What a constructor comes to: an endpoint, an exception, or a read behind the bytes it is given.
pub data Made : Type 0 where
  made : Endpoint → Made
  error_addr : Made
  out_of_bounds : Made

-- Some bytes are stored from an offset on.
abbrev pub overlay : ℕ → List ℕ → List ℕ → List ℕ
overlay i bytes memory = take i memory ++ (bytes ++ drop (i + length bytes) memory)

abbrev pub blank_data : List ℕ
blank_data = replicate 28 0

-- `Endpoint()`
abbrev pub blank_endpoint : Endpoint
blank_endpoint = record { native = blank_data }

-- What `c_str` shows of a string
abbrev pub c_str : List ℕ → List ℕ
c_str s = take_while (λ c. not (c == 0)) s

-- The text and its terminator are stored in a string of zero bytes that keeps its size.
abbrev pub network_to_ipv4 : AddressText → List ℕ → List ℕ
network_to_ipv4 text src = overlay 0 (text.ntop4 (take 4 src) ++ (0 ∷ [])) (replicate 16 0)

abbrev pub network_to_ipv6 : AddressText → List ℕ → List ℕ
network_to_ipv6 text src = overlay 0 (text.ntop6 (take 16 src) ++ (0 ∷ [])) (replicate 46 0)

module _ (h : Host) where
  abbrev pub family_of : List ℕ → ℕ
  family_of memory = load h (take 2 memory)

  -- `Endpoint(const void*)`, of the bytes there
  unfoldable pub from_native : List ℕ → Made
  from_native memory =
      if ltb (length memory) 2
      then out_of_bounds
      else if family_of memory == af_inet
      then (if ltb (length memory) 16
          then out_of_bounds
          else made (record { native = overlay 0 (take 16 memory) blank_data }))
      else if family_of memory == af_inet6
      then (if ltb (length memory) 28
          then out_of_bounds
          else made (record { native = overlay 0 (take 28 memory) blank_data }))
      else error_addr

  -- The family, then the port, are stored in front of an address.
  abbrev pub with_port : ℕ → ℕ → List ℕ → Endpoint
  with_port family port memory = record {
    native = overlay 2 (image h 2 (to_net h 2 port)) (overlay 0 (image h 2 family) memory);
  }

  -- `Endpoint(const std::string&, port_type)`
  unfoldable pub from_text : AddressText → List ℕ → ℕ → Made
  from_text text ip port = elim (text.pton4 (c_str ip)) [
    | some a ↦ made (with_port af_inet port (overlay 4 a blank_data))
    | none ↦ elim (text.pton6 (c_str ip)) [
      | some a ↦ made (with_port af_inet6 port (overlay 8 a blank_data))
      | none ↦ error_addr
    ]
  ]

  abbrev pub port_of : Endpoint → ℕ
  port_of e = to_net h 2 (load h (take 2 (drop 2 e.native)))

  abbrev pub is_v4 : Endpoint → Bool
  is_v4 e = family_of e.native == af_inet

  abbrev pub is_v6 : Endpoint → Bool
  is_v6 e = family_of e.native == af_inet6

  -- `length`
  abbrev pub sock_length : Endpoint → ℕ
  sock_length e = if is_v4 e then 16 else if is_v6 e then 28 else 0

  unfoldable pub ip_of : AddressText → Endpoint → List ℕ
  ip_of text e =
      if is_v4 e
      then network_to_ipv4 text (drop 4 e.native)
      else if is_v6 e
      then network_to_ipv6 text (drop 8 e.native)
      else []

-- `operator==`
abbrev pub same_endpoint : Endpoint → Endpoint → Bool
same_endpoint e e' = str_eq e.native e'.native
