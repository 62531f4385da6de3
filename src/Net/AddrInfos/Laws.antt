-- ===== src/Net/AddrInfos/Laws.antt =====
-- src/net/addrinfo.rs: the list is read whole and freed whole, and the hints keep their numbers.
use libuv_rs.Common.{
  ℕ, ◌%◌, ◌^◌, ◌<◌, ◌≡◌, ◌==◌, refl, Option, none, some, List, ltb, if◌then◌else◌, inl, inr,
  Bool-cases, arith,
}
use libuv_rs.Common.Int.{ℤ, is_neg}
use libuv_rs.Error.{Error, from_inner as error_from_inner}
use libuv_rs.Memory.{UvAddrInfo}
use libuv_rs.Memory.Effect.{
  Env, World, done, uv, parse_error, Result, ok, err, give_back, attempt_run, uvret, and_then, pure,
  ◌>>=◌,
}
use libuv_rs.Fs.{as_i32}
use libuv_rs.Net.{SocketAddr, v4, v6, AddrInfo}
use libuv_rs.Socket.Address.{UvAddress, from_be, parsed, build_socketaddr}
use libuv_rs.Net.AddrInfos.{as_u32, into_addrinfo, result_ok, addr_ok, from_addrinfo}

module _ (env : Env) (address : UvAddress) where
  abbrev parsed_as : (List ℕ → SocketAddr) → Option (List ℕ) → Result SocketAddr
  parsed_as f (some ip) = ok (f ip)
  parsed_as f none = err parse_error

  abbrev named : (List ℕ → SocketAddr) → ℤ × List ℕ → (List ℕ → Option (List ℕ)) → Result SocketAddr
  named f answer parse =
      if is_neg answer.0
      then err (uv (error_from_inner env.errno answer.0))
      else parsed_as f (parse answer.1)

  -- Reading an address does not change the state, nor depend on it.
  abbrev pub built : List ℕ → Result SocketAddr
  built s =
      if address.sa_family s == address.af_inet
      then named (λ ip. v4 ip (from_be address.little_endian (address.sin_port s)))
          (address.uv_ip4_name s 16) address.parse_v4
      else if address.sa_family s == address.af_inet6
      then named (λ ip. v6 ip (from_be address.little_endian (address.sin6_port s)) 0 0)
          (address.uv_ip6_name s 46) address.parse_v6
      else err (uv Error.enotsup)

  -- How a name is read, for both versions.
  named_lem :
      (f : List ℕ → SocketAddr) (answer : ℤ × List ℕ) (parse : List ℕ → Option (List ℕ)) (w : World)
      → and_then (uvret env answer.0 w) (λ _. parsed (parse answer.1) >>= λ ip. pure (f ip))
        ≡ give_back (named f answer parse) w
  unfolding uvret
  named_lem f answer parse w = elim (Bool-cases (is_neg answer.0)) [
    | inl bad ↦ simp bad
    | inr good ↦ rw good (by_parse (parse answer.1))
  ]
    where
      by_parse :
          (o : Option (List ℕ))
          → and_then (parsed o w) (λ ip. pure (f ip)) ≡ give_back (parsed_as f o) w
      by_parse none = refl
      by_parse (some ip) = refl

  pub build_socketaddr_lem :
      (s : List ℕ) (w : World) → build_socketaddr env address s w ≡ give_back (built s) w
  unfolding build_socketaddr
  build_socketaddr_lem s w = elim (Bool-cases (address.sa_family s == address.af_inet)) [
    | inl four ↦ rw four (named_lem _ (address.uv_ip4_name s 16) address.parse_v4 w)
    | inr other ↦ elim (Bool-cases (address.sa_family s == address.af_inet6)) [
      | inl six ↦ rw (other, six) (named_lem _ (address.uv_ip6_name s 46) address.parse_v6 w)
      | inr neither ↦ rw (other, neither) refl
    ]
  ]

  abbrev pub addr_of : Option (List ℕ) → Option SocketAddr
  addr_of none = none
  addr_of (some sockaddr) = result_ok (built sockaddr)

  -- The entry of a node.
  abbrev pub info_of : UvAddrInfo → AddrInfo
  info_of a = record {
    flags = as_u32 a.ai_flags;
    family = as_u32 a.ai_family;
    socktype = as_u32 a.ai_socktype;
    protocol = as_u32 a.ai_protocol;
    canonical_name = a.ai_canonname;
    addr = addr_of a.ai_addr;
  }

  addr_ok_lem : (o : Option (List ℕ)) (w : World) → addr_ok env address o w ≡ done (addr_of o) w
  unfolding addr_ok
  addr_ok_lem none w = refl
  addr_ok_lem (some s) w = rw (build_socketaddr_lem s w) (by_result (built s))
    where
      by_result :
          (r : Result SocketAddr)
          → and_then (attempt_run (give_back r w)) (λ x. pure (result_ok x)) ≡ done (result_ok r) w
      by_result (ok a) = refl
      by_result (err e) = refl

  pub from_addrinfo_lem :
      (a : UvAddrInfo) (w : World) → from_addrinfo env address a w ≡ done (info_of a) w
  unfolding from_addrinfo
  from_addrinfo_lem a w = rw (addr_ok_lem a.ai_addr w) refl

as_i32-as_u32 : (n : ℕ) → n < 2 ^ 32 → as_u32 (as_i32 n) ≡ n
unfolding as_u32 as_i32
as_i32-as_u32 n h = elim (Bool-cases (ltb (n % 2 ^ 32) (2 ^ 31))) [
  | inl low ↦ rw low (omega arith)
  | inr high ↦ rw high (ground arith)
]

-- The numbers of hints.
pub from_addrinfo-into_addrinfo :
    (env : Env) (address : UvAddress) (info : AddrInfo) (w : World)
    → info.flags < 2 ^ 32
    → info.family < 2 ^ 32
    → info.socktype < 2 ^ 32
    → info.protocol < 2 ^ 32
    → from_addrinfo env address (into_addrinfo info) w
      ≡ done (record info { canonical_name = none; addr = none }) w
unfolding into_addrinfo
from_addrinfo-into_addrinfo env address info w a b c d = simp (
  from_addrinfo_lem,
  as_i32-as_u32 info.flags a,
  as_i32-as_u32 info.family b,
  as_i32-as_u32 info.socktype c,
  as_i32-as_u32 info.protocol d,
)
