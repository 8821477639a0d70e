-- ===== src/Endpoint/Laws.antt =====
-- What an endpoint of asio/src/ip/endpoint.cc that is made of a text carries.
use lcy.Prelude.{
  ℕ, ◌+◌, ◌-◌, ◌^◌, ◌<◌, ◌≡◌, refl, sym, ap, ◌∙◌, Bool, true, false, none, some, List, [], ◌∷◌,
  ◌++◌, length, take, drop, replicate, arith, take-append_eq, drop-append_eq, length-append,
  length-take, take-take, take_all, drop-drop, append-nil, take-append-drop, append_assoc, inl, inr,
  Option-cases, ◌≤◌, zero, suc, not, ◌==◌, if◌then◌else◌,
}
use lcy.Bytes.{Host, little, big, image, load, to_net}
use lcy.Bytes.Laws.{image-to_net, to_net-load, length-image, load-image}
use lcy.Endpoint.{
  af_inet, af_inet6, AddressText, Endpoint, Made, made, overlay, blank_data, from_native, with_port,
  c_str, from_text, port_of, is_v4, is_v6, sock_length, ip_of, network_to_ipv4, network_to_ipv6,
  error_addr, family_of,
}

-- What the manual says of `inet_pton` and `inet_ntop`: an address has 4 or 16 bytes, and its text with
-- the terminator fits in INET_ADDRSTRLEN or INET6_ADDRSTRLEN bytes.
pub record Manual (text : AddressText) : Type 0 where
  pub size4 : (s a : List ℕ) → text.pton4 s ≡ some a → length a ≡ 4
  pub size6 : (s a : List ℕ) → text.pton6 s ≡ some a → length a ≡ 16
  pub fits4 : (a : List ℕ) → length a ≡ 4 → length (text.ntop4 a) < 16
  pub fits6 : (a : List ℕ) → length a ≡ 16 → length (text.ntop6 a) < 46

-- The bytes in memory, written down as a whole.
abbrev head4 : Host → ℕ → ℕ → List ℕ
head4 h family port = image h 2 family ++ image h 2 (to_net h 2 port)

abbrev pub laid4 : Host → ℕ → List ℕ → List ℕ
laid4 h port a = head4 h af_inet port ++ (a ++ replicate 20 0)

with_port4 :
    (h : Host) (port : ℕ) (a : List ℕ)
    → length a ≡ 4
    → with_port h af_inet port (overlay 4 a blank_data) ≡ record { native = laid4 h port a }
unfolding image
with_port4 little port a e = rw e refl
with_port4 big port a e = rw e refl

abbrev pub laid6 : Host → ℕ → List ℕ → List ℕ
laid6 h port a = head4 h af_inet6 port ++ (replicate 4 0 ++ (a ++ replicate 4 0))

with_port6 :
    (h : Host) (port : ℕ) (a : List ℕ)
    → length a ≡ 16
    → with_port h af_inet6 port (overlay 8 a blank_data) ≡ record { native = laid6 h port a }
unfolding image
with_port6 little port a e = rw e refl
with_port6 big port a e = rw e refl

-- What the members read of such bytes.
module _ (h : Host) (family port : ℕ) (rest : List ℕ) (bf : family < 2 ^ 16)
    (bp : port < 2 ^ 16) where
  abbrev whole : List ℕ
  whole = head4 h family port ++ rest

  abbrev low : List ℕ
  low = image h 2 family

  abbrev high : List ℕ
  high = image h 2 (to_net h 2 port)

  whole_assoc : whole ≡ low ++ (high ++ rest)
  whole_assoc = append_assoc low high rest

  family_read : family_of h whole ≡ family
  family_read =
      ap (λ x. load h (take 2 x)) whole_assoc
      ∙ ap (load h) (take-append_eq 2 low (high ++ rest) (length-image h 2 family))
      ∙ load-image h 2 family (omega (arith, bf))

  port_read : port_of h (record { native = whole }) ≡ port
  port_read =
      ap (λ x. to_net h 2 (load h (take 2 (drop 2 x)))) whole_assoc
      ∙ ap (λ x. to_net h 2 (load h (take 2 x)))
          (drop-append_eq 2 low (high ++ rest) (length-image h 2 family))
      ∙ ap (λ x. to_net h 2 (load h x))
          (take-append_eq 2 high rest (length-image h 2 (to_net h 2 port)))
      ∙ ap (λ x. to_net h 2 (load h x)) (image-to_net h 2 port)
      ∙ to_net-load h 2 port (omega (arith, bp))

  head_length : length (head4 h family port) ≡ 4
  head_length =
      omega
        (arith, length-append low high, length-image h 2 family, length-image h 2 (to_net h 2 port))

  behind : drop 4 whole ≡ rest
  behind = drop-append_eq 4 (head4 h family port) rest head_length

drop-replicate : (k n : ℕ) → drop k (replicate {A = ℕ} n 0) ≡ replicate (n - k) 0
drop-replicate zero n = ap (λ i. replicate i 0) (omega arith)
drop-replicate (suc k) zero = ap (λ i. replicate i 0) (let e : 0 ≡ 0 - suc k = omega arith in e)
drop-replicate (suc k) (suc n) =
    drop-replicate k n ∙ ap (λ i. replicate i 0) (let e : n - k ≡ suc n - suc k = omega arith in e)

-- A text in a string of a size, with zero bytes behind it.
abbrev pub padded : ℕ → List ℕ → List ℕ
padded n s = s ++ replicate (n - length s) 0

overlay-text :
    (n : ℕ) (s : List ℕ) → length s < n → overlay 0 (s ++ (0 ∷ [])) (replicate n 0) ≡ padded n s
overlay-text n s h =
    let room : suc (n - length (s ++ (0 ∷ []))) ≡ n - length s =
      omega (arith, length-append s (0 ∷ []), h) in
    ap (λ (x : List ℕ). (s ++ (0 ∷ [])) ++ x)
      (ap (λ (k : ℕ). drop k (replicate {A = ℕ} n 0))
          (let e : 0 + length (s ++ (0 ∷ [])) ≡ length (s ++ (0 ∷ [])) = omega arith in e)
        ∙ drop-replicate (length (s ++ (0 ∷ []))) n)
    ∙ append_assoc s (0 ∷ []) (replicate (n - length (s ++ (0 ∷ []))) 0)
    ∙ ap (λ i. s ++ replicate i 0) room

-- An endpoint of the bytes of another, as many as its family has.
module _ (h : Host) (memory : List ℕ) (size : length memory ≡ 28) where
  family-take : (n : ℕ) → 2 ≤ n → family_of h (take n memory) ≡ family_of h memory
  family-take n le = ap (load h) (take-take 2 n memory le)

  copied4 :
      family_of h memory ≡ af_inet
      → drop 16 memory ≡ replicate 12 0
      → from_native h (take 16 memory) ≡ made (record { native = memory })
  unfolding from_native
  copied4 family zeros =
      let count : length (take 16 memory) ≡ 16 = omega (arith, length-take 16 memory, size) in
      let all : take 16 (take 16 memory) ≡ take 16 memory = take-take 16 16 memory (omega arith) in
      let back : take 16 memory ++ replicate 12 0 ≡ memory =
        ap (λ x. take 16 memory ++ x) (sym zeros) ∙ take-append-drop 16 memory in
      rw (count, family-take 16 (omega arith), family, all, count)
        (ap (λ x. made (record { native = x })) back)

  copied6 :
      family_of h memory ≡ af_inet6
      → from_native h (take 28 memory) ≡ made (record { native = memory })
  unfolding from_native
  copied6 family =
      let all : take 28 memory ≡ memory = take_all 28 memory (omega (arith, size)) in
      rw (all, size, family, all, size) (ap (λ x. made (record { native = x })) (append-nil memory))

-- What an endpoint shows: its family, port and address, and that an endpoint which is made of the bytes
-- that its own `native` and `length` give to a call of the system is the same.
pub record Carries (h : Host) (text : AddressText) (v4 : Bool) (a : List ℕ) (p : ℕ) (e : Endpoint)
    : Type 0 where
  pub family4 : is_v4 h e ≡ v4
  pub family6 : is_v6 h e ≡ not v4
  pub port : port_of h e ≡ p
  pub ip : ip_of h text e ≡ (if v4 then padded 16 (text.ntop4 a) else padded 46 (text.ntop6 a))
  pub native : from_native h (take (sock_length h e) e.native) ≡ made e

module _ (h : Host) (text : AddressText) (manual : Manual text) (port : ℕ) (a : List ℕ)
    (bp : port < 2 ^ 16) where
  laid4-Carries : length a ≡ 4 → Carries h text true a port (record { native = laid4 h port a })
  unfolding ip_of
  laid4-Carries size =
      let rest = a ++ replicate 20 0 in
      let all = laid4 h port a in
      let family = family_read h af_inet port rest (omega arith) bp in
      let after : drop 4 all ≡ rest = behind h af_inet port rest (omega arith) bp in
      let count : length all ≡ 28 = omega (
        arith,
        length-append (head4 h af_inet port) rest,
        head_length h af_inet port rest (omega arith) bp,
        length-append a (replicate 20 0),
        size,
      ) in
      let zeros : drop 16 all ≡ replicate 12 0 =
        sym (drop-drop 12 4 all)
        ∙ ap (drop 12) after
        ∙ sym (drop-drop 8 4 rest)
        ∙ ap (drop 8) (drop-append_eq 4 a (replicate 20 0) size) in
      let four : is_v4 h (record { native = all }) ≡ true = ap (λ f. f == 2) family in
      record {
        family4 = four;
        family6 = ap (λ f. f == 10) family;
        port = port_read h af_inet port rest (omega arith) bp;
        ip = rw four (
            ap (network_to_ipv4 text) after
            ∙ ap (λ x. overlay 0 (text.ntop4 x ++ (0 ∷ [])) (replicate 16 0))
                (take-append_eq 4 a (replicate 20 0) size)
            ∙ overlay-text 16 (text.ntop4 a) (manual.fits4 a size));
        native = rw four (copied4 h all count family zeros);
      }

  laid6-Carries : length a ≡ 16 → Carries h text false a port (record { native = laid6 h port a })
  unfolding ip_of
  laid6-Carries size =
      let rest = replicate 4 0 ++ (a ++ replicate 4 0) in
      let all = laid6 h port a in
      let family = family_read h af_inet6 port rest (omega arith) bp in
      let after : drop 8 all ≡ a ++ replicate 4 0 =
        sym (drop-drop 4 4 all) ∙ ap (drop 4) (behind h af_inet6 port rest (omega arith) bp) in
      let count : length all ≡ 28 = omega (
        arith,
        length-append (head4 h af_inet6 port) rest,
        head_length h af_inet6 port rest (omega arith) bp,
        length-append a (replicate 4 0),
        size,
      ) in
      let four : is_v4 h (record { native = all }) ≡ false = ap (λ f. f == 2) family in
      let six : is_v6 h (record { native = all }) ≡ true = ap (λ f. f == 10) family in
      record {
        family4 = four;
        family6 = six;
        port = port_read h af_inet6 port rest (omega arith) bp;
        ip =
            rw (four, six)
              (ap (network_to_ipv6 text) after
                ∙ ap (λ x. overlay 0 (text.ntop6 x ++ (0 ∷ [])) (replicate 46 0))
                    (take-append_eq 16 a (replicate 4 0) size)
                ∙ overlay-text 46 (text.ntop6 a) (manual.fits6 a size));
        native = rw (four, six) (copied6 h all count family);
      }

-- What comes of a text: an endpoint of the first family that takes it, or an exception.
pub data FromText (h : Host) (text : AddressText) (s : List ℕ) (p : ℕ) : Made → Type 0 where
  v4_text :
      (a : List ℕ) (e : Endpoint)
      → text.pton4 (c_str s) ≡ some a
      → Carries h text true a p e
      → FromText h text s p (made e)
  v6_text :
      (a : List ℕ) (e : Endpoint)
      → text.pton4 (c_str s) ≡ none
      → text.pton6 (c_str s) ≡ some a
      → Carries h text false a p e
      → FromText h text s p (made e)
  no_text :
      text.pton4 (c_str s) ≡ none → text.pton6 (c_str s) ≡ none → FromText h text s p error_addr

-- An endpoint is made of just the texts that `inet_pton` takes, as an address of version 4 before one of
-- version 6, and else an exception is thrown. It shows the port it was made with and one family, its
-- `ip` is the text of `inet_ntop` with zero bytes behind it up to 16 or 46, and its bytes, as many as
-- its `length`, make the same endpoint again.
pub from_text-FromText :
    (h : Host) (text : AddressText) (s : List ℕ) (port : ℕ)
    → Manual text
    → port < 2 ^ 16
    → FromText h text s port (from_text h text s port)
unfolding from_text
from_text-FromText h text s port manual bp = elim (Option-cases (text.pton4 (c_str s))) [
  | inr (a, e) ↦
      let size = manual.size4 (c_str s) a e in
      rw (from_text, e, with_port4 h port a size)
        (v4_text a _ e (laid4-Carries h text manual port a bp size))
  | inl e ↦ elim (Option-cases (text.pton6 (c_str s))) [
    | inr (a, e') ↦
        let size = manual.size6 (c_str s) a e' in
        rw (from_text, e, e', with_port6 h port a size)
          (v6_text a _ e e' (laid6-Carries h text manual port a bp size))
    | inl e' ↦ rw (from_text, e, e') (no_text e e')
  ]
]
