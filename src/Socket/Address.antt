-- ===== src/Socket/Address.antt =====
-- src/inner.rs: `build_socketaddr`, which reads a structure `sockaddr`; and the names of the two
-- ends of a socket, in src/handles/streams/tcp.rs, src/handles/streams/pipe.rs and
-- src/handles/streams/udp.rs.
pub mod RoundTrip
use libuv_rs.Common.{ℕ, ◌+◌, ◌*◌, ◌/◌, ◌%◌, ◌==◌, Bool, Option, none, some, List, if◌then◌else◌}
use libuv_rs.Common.Int.{ℤ}
use libuv_rs.Error.{Error}
use libuv_rs.Memory.{Ptr}
use libuv_rs.Memory.Effect.{
  World, Eff, uv, parse_error, pure, throw, ◌>>=◌, ◌>>◌, attempt, Result, ok, err, Env, ask, uvret,
}
use libuv_rs.Socket.{SocketAddr, v4, v6}

-- What the bindings know of the layout of a structure, the bytes of which are a list, and what
-- libuv prints of it. A port is a number of 16 bits in network byte order. `parse_v4` and
-- `parse_v6` are `from_str` of the standard library, followed by printing.
pub record UvAddress : Type 0 where
  pub little_endian : Bool
  pub af_inet : ℕ
  pub af_inet6 : ℕ
  pub sa_family : List ℕ → ℕ
  pub sin_port : List ℕ → ℕ
  pub sin6_port : List ℕ → ℕ
  pub uv_ip4_name : List ℕ → (size : ℕ) → ℤ × List ℕ
  pub uv_ip6_name : List ℕ → (size : ℕ) → ℤ × List ℕ
  pub parse_v4 : List ℕ → Option (List ℕ)
  pub parse_v6 : List ℕ → Option (List ℕ)

-- `u16::swap_bytes`, and `u16::from_be`.
unfoldable pub swap_bytes : ℕ → ℕ
swap_bytes n = n % 256 * 256 + n / 256 % 256

unfoldable pub from_be : Bool → ℕ → ℕ
unfolding swap_bytes
from_be little_endian n = if little_endian then swap_bytes n else n

-- `Ipv4Addr::from_str(s)?`.
abbrev pub parsed : Option (List ℕ) → Eff (List ℕ)
parsed (some ip) = pure ip
parsed none = throw parse_error

module _ (env : Env) (libuv : UvAddress) where
  unfoldable pub build_v4 : List ℕ → Eff SocketAddr
  unfolding uvret from_be
  build_v4 sockaddr = do
    let port = from_be libuv.little_endian (libuv.sin_port sockaddr)
    uvret env (libuv.uv_ip4_name sockaddr 16).0
    ip ← parsed (libuv.parse_v4 (libuv.uv_ip4_name sockaddr 16).1)
    pure (v4 ip port)

  -- `SocketAddr::new` has no flow information and no scope.
  unfoldable pub build_v6 : List ℕ → Eff SocketAddr
  unfolding uvret from_be
  build_v6 sockaddr = do
    let port = from_be libuv.little_endian (libuv.sin6_port sockaddr)
    uvret env (libuv.uv_ip6_name sockaddr 46).0
    ip ← parsed (libuv.parse_v6 (libuv.uv_ip6_name sockaddr 46).1)
    pure (v6 ip port 0 0)

  -- The arms are tried in order.
  unfoldable pub build_socketaddr : List ℕ → Eff SocketAddr
  unfolding build_v4 build_v6
  build_socketaddr sockaddr =
      if libuv.sa_family sockaddr == libuv.af_inet
      then build_v4 sockaddr
      else if libuv.sa_family sockaddr == libuv.af_inet6
      then build_v6 sockaddr
      else throw (uv Error.enotsup)

-- The six calls that write the address of an end of a socket into a zeroed structure.
pub data NameCall : Type 0 where
  uv_tcp_getsockname uv_tcp_getpeername uv_udp_getsockname uv_udp_getpeername : NameCall
  uv_pipe_getsockname uv_pipe_getpeername : NameCall

pub record UvNames : Type 0 where
  pub uv_name : World → (handle : Ptr) → NameCall → ℤ × List ℕ

module _ (env : Env) (address : UvAddress) (libuv : UvNames) (handle : Ptr) where
  -- The body that the six functions share.
  unfoldable pub name_of : NameCall → Eff SocketAddr
  unfolding ask uvret build_socketaddr
  name_of c = do
    answer ← ask (λ w. libuv.uv_name w handle c)
    uvret env answer.0
    build_socketaddr env address answer.1

  unfoldable pub tcp_getsockname : Eff SocketAddr
  unfolding name_of
  tcp_getsockname = name_of uv_tcp_getsockname

  unfoldable pub tcp_getpeername : Eff SocketAddr
  unfolding name_of
  tcp_getpeername = name_of uv_tcp_getpeername

  unfoldable pub udp_getsockname : Eff SocketAddr
  unfolding name_of
  udp_getsockname = name_of uv_udp_getsockname

  unfoldable pub udp_getpeername : Eff SocketAddr
  unfolding name_of
  udp_getpeername = name_of uv_udp_getpeername

  unfoldable pub pipe_getsockname : Eff SocketAddr
  unfolding name_of
  pipe_getsockname = name_of uv_pipe_getsockname

  unfoldable pub pipe_getpeername : Eff SocketAddr
  unfolding name_of
  pipe_getpeername = name_of uv_pipe_getpeername
