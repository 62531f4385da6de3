-- ===== src/Socket.antt =====
-- src/inner.rs, src/handles/streams/tcp.rs, src/handles/streams/pipe.rs and
-- src/handles/streams/udp.rs: connecting and sending. The calls of libuv are a parameter.
pub mod Address
pub mod Laws
pub mod Options
pub mod TrySend
use libuv_rs.Common.{ℕ, Option, some, none, List, [], length, ltb, if◌then◌else◌}
pub use libuv_rs.Net.{SocketAddr, v4, v6}
use libuv_rs.Common.Int.{ℤ, pos}
use libuv_rs.Memory.{Ptr, Callback, CCallback, UvBuf}
use libuv_rs.Memory.Effect.{
  Eff, Fault, crash, pure, ◌>>=◌, ◌>>◌, attempt, is_err, when, Env, uvret, owe, c_string_new,
}
use libuv_rs.Req.Connect
use libuv_rs.Req.UdpSend
use libuv_rs.Fs.{map_ok}

-- A structure `sockaddr` is the list of its bytes, the null pointer none. The sizes of the three
-- structures come from the bindings.
pub record UvSocket : Type 0 where
  pub size_of_sockaddr : ℕ
  pub size_of_sockaddr_in : ℕ
  pub size_of_sockaddr_in6 : ℕ
  pub uv_ip4_addr : List ℕ → ℕ → ℤ × List ℕ
  pub uv_ip6_addr : List ℕ → ℕ → ℤ × List ℕ
  pub uv_tcp_connect : (handle : Ptr) → List ℕ → ℤ
  pub uv_udp_send : (handle : Ptr) (bufs : Ptr) (nbufs : ℕ) → Option (List ℕ) → ℤ

-- A call that writes a structure of this size into so much room.
abbrev pub written_into : (room size : ℕ) → Eff (Unit {0})
written_into room size = if ltb room size then crash Fault.out_of_bounds else pure tt

module _ (env : Env) (libuv : UvSocket) where
  -- `room` is the size of the structure that the pointer leads to. libuv writes the whole
  -- structure of the version, whatever it returns.
  unfoldable pub fill_sockaddr : (room : ℕ) → SocketAddr → Eff (List ℕ)
  unfolding c_string_new uvret
  fill_sockaddr room (v4 ip port) = do
    s ← c_string_new ip
    written_into room libuv.size_of_sockaddr_in
    uvret env (libuv.uv_ip4_addr s port).0
    pure (libuv.uv_ip4_addr s port).1
  fill_sockaddr room (v6 ip port flowinfo scope_id) = do
    s ← c_string_new ip
    written_into room libuv.size_of_sockaddr_in6
    uvret env (libuv.uv_ip6_addr s port).0
    pure (libuv.uv_ip6_addr s port).1

  -- `if let Some(addr) = addr { fill_sockaddr(&mut sockaddr, addr)?; ... }`.
  abbrev pub fill_optional : Option SocketAddr → Eff (Option (List ℕ))
  unfolding fill_sockaddr
  fill_optional none = pure none
  fill_optional (some addr) = do s ← fill_sockaddr libuv.size_of_sockaddr addr; pure (some s)

  module _ (handle : Ptr) where
    -- `TcpHandle::connect`.
    unfoldable pub connect : SocketAddr → Callback → Eff Ptr
    unfolding uvret
    connect addr f = do
      req ← Connect.new env f
      sockaddr ← fill_sockaddr libuv.size_of_sockaddr addr
      let code = libuv.uv_tcp_connect handle sockaddr
      owe req (some CCallback.uv_connect_cb) code
      result ← attempt (uvret env code)
      when (is_err result) (Connect.destroy req)
      map_ok req result

    -- `PipeHandle::connect`: libuv reports every outcome through the callback.
    unfoldable pub pipe_connect : List ℕ → Callback → Eff Ptr
    pipe_connect name f = do
      req ← Connect.new env f
      _ ← c_string_new name
      owe req (some CCallback.uv_connect_cb) (pos 0)
      pure req

    -- `UdpHandle::send`.
    unfoldable pub send : Option SocketAddr → List UvBuf → Callback → Eff UdpSend.UdpSendReq
    unfolding uvret
    send addr bufs f = do
      r ← UdpSend.new env bufs f
      sockaddr_ptr ← fill_optional addr
      let code = libuv.uv_udp_send handle r.bufs_ptr (length bufs) sockaddr_ptr
      owe r.req (some CCallback.uv_udp_send_cb) code
      result ← attempt (uvret env code)
      when (is_err result) (UdpSend.destroy r)
      map_ok r result
