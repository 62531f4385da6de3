-- ===== src/Socket/Options.antt =====
-- src/handles/streams/tcp.rs, src/handles/streams/udp.rs and src/handles/streams/pipe.rs: binding,
-- connecting without a request, and the options of sockets. An enable flag is 1 or 0.
pub mod Laws
use libuv_rs.Common.{ℕ, Bool, Option, none, some, List, if◌then◌else◌, not, ◌==◌}
use libuv_rs.Common.Int.{ℤ}
use libuv_rs.Memory.{Ptr, null, Callback, CCallback}
use libuv_rs.Memory.Effect.{World, Eff, pure, ◌>>=◌, ◌>>◌, when, Env, ask, uvret, owe, c_string_new}
use libuv_rs.Handle.{get_data, set_close_cb}
use libuv_rs.Socket.{SocketAddr, UvSocket, fill_sockaddr}

pub data SocketCall : Type 0 where
  uv_tcp_nodelay uv_tcp_simultaneous_accepts : (enable : ℕ) → SocketCall
  uv_tcp_keepalive : (enable delay : ℕ) → SocketCall
  uv_tcp_bind uv_udp_bind : (sockaddr : List ℕ) (flags : ℕ) → SocketCall
  uv_tcp_close_reset : SocketCall
  uv_udp_connect : (sockaddr : Option (List ℕ)) → SocketCall
  uv_udp_set_membership : (multicast_addr interface_addr : List ℕ) (membership : ℕ) → SocketCall
  uv_udp_set_source_membership :
      (multicast_addr interface_addr source_addr : List ℕ) (membership : ℕ) → SocketCall
  uv_udp_set_multicast_loop uv_udp_set_broadcast : (on : ℕ) → SocketCall
  uv_udp_set_multicast_ttl uv_udp_set_ttl : (ttl : ℤ) → SocketCall
  uv_udp_set_multicast_interface : (interface_addr : List ℕ) → SocketCall
  uv_pipe_open : (file : ℤ) → SocketCall
  uv_pipe_bind : (name : List ℕ) → SocketCall
  uv_pipe_chmod : (flags : ℕ) → SocketCall

pub record UvSocketCalls : Type 0 where
  pub uv_socket : World → (handle : Ptr) → SocketCall → ℤ

-- The operations but `close_reset`, as one family.
pub data SocketOp : Type 0 where
  op_nodelay op_simultaneous_accepts op_multicast_loop op_broadcast : Bool → SocketOp
  op_keepalive : Bool → ℕ → SocketOp
  op_membership : List ℕ → List ℕ → ℕ → SocketOp
  op_source_membership : List ℕ → List ℕ → List ℕ → ℕ → SocketOp
  op_multicast_ttl op_ttl op_pipe_open : ℤ → SocketOp
  op_multicast_interface op_pipe_bind : List ℕ → SocketOp
  op_chmod : ℕ → SocketOp
  op_tcp_bind op_udp_bind : SocketAddr → ℕ → SocketOp
  op_udp_connect : Option SocketAddr → SocketOp

abbrev pub flag_of : Bool → ℕ
flag_of enable = if enable then 1 else 0

module _ (env : Env) (libuv : UvSocketCalls) (handle : Ptr) where
  -- `uvret(...)` of a call on the socket.
  unfoldable pub socket_code : SocketCall → Eff (Unit {0})
  unfolding ask uvret
  socket_code c = do code ← ask (λ w. libuv.uv_socket w handle c); uvret env code

  unfoldable pub nodelay : Bool → Eff (Unit {0})
  nodelay enable = socket_code (uv_tcp_nodelay (flag_of enable))

  unfoldable pub keepalive : Bool → ℕ → Eff (Unit {0})
  keepalive enable delay = socket_code (uv_tcp_keepalive (flag_of enable) delay)

  unfoldable pub simultaneous_accepts : Bool → Eff (Unit {0})
  simultaneous_accepts enable = socket_code (uv_tcp_simultaneous_accepts (flag_of enable))

  -- The closure is stored before libuv is asked, which calls it only if it accepts.
  unfoldable pub close_reset : Callback → Eff (Unit {0})
  unfolding get_data set_close_cb ask uvret
  close_reset f = do
    dataptr ← get_data handle
    when (not (dataptr == null)) (set_close_cb f dataptr)
    code ← ask (λ w. libuv.uv_socket w handle uv_tcp_close_reset)
    owe handle (some CCallback.uv_close_cb) code
    uvret env code

  unfoldable pub set_membership : List ℕ → List ℕ → ℕ → Eff (Unit {0})
  set_membership multicast_addr interface_addr membership = do
    m ← c_string_new multicast_addr
    i ← c_string_new interface_addr
    socket_code (uv_udp_set_membership m i membership)

  unfoldable pub set_source_membership : List ℕ → List ℕ → List ℕ → ℕ → Eff (Unit {0})
  set_source_membership multicast_addr interface_addr source_addr membership = do
    m ← c_string_new multicast_addr
    i ← c_string_new interface_addr
    s ← c_string_new source_addr
    socket_code (uv_udp_set_source_membership m i s membership)

  unfoldable pub set_multicast_loop : Bool → Eff (Unit {0})
  set_multicast_loop enable = socket_code (uv_udp_set_multicast_loop (flag_of enable))

  unfoldable pub set_multicast_ttl : ℤ → Eff (Unit {0})
  set_multicast_ttl ttl = socket_code (uv_udp_set_multicast_ttl ttl)

  unfoldable pub set_multicast_interface : List ℕ → Eff (Unit {0})
  set_multicast_interface interface_addr = do
    i ← c_string_new interface_addr
    socket_code (uv_udp_set_multicast_interface i)

  unfoldable pub set_broadcast : Bool → Eff (Unit {0})
  set_broadcast enable = socket_code (uv_udp_set_broadcast (flag_of enable))

  unfoldable pub set_ttl : ℤ → Eff (Unit {0})
  set_ttl ttl = socket_code (uv_udp_set_ttl ttl)

  unfoldable pub pipe_open : ℤ → Eff (Unit {0})
  pipe_open file = socket_code (uv_pipe_open file)

  unfoldable pub pipe_bind : List ℕ → Eff (Unit {0})
  pipe_bind name = do s ← c_string_new name; socket_code (uv_pipe_bind s)

  unfoldable pub chmod : ℕ → Eff (Unit {0})
  chmod flags = socket_code (uv_pipe_chmod flags)

  module _ (sockets : UvSocket) where
    unfoldable pub tcp_bind : SocketAddr → ℕ → Eff (Unit {0})
    tcp_bind addr flags = do
      sockaddr ← fill_sockaddr env sockets sockets.size_of_sockaddr addr
      socket_code (uv_tcp_bind sockaddr flags)

    unfoldable pub udp_bind : SocketAddr → ℕ → Eff (Unit {0})
    udp_bind addr flags = do
      sockaddr ← fill_sockaddr env sockets sockets.size_of_sockaddr addr
      socket_code (uv_udp_bind sockaddr flags)

    unfoldable pub udp_connect : Option SocketAddr → Eff (Unit {0})
    udp_connect (some addr) = do
      sockaddr ← fill_sockaddr env sockets sockets.size_of_sockaddr addr
      socket_code (uv_udp_connect (some sockaddr))
    udp_connect none = socket_code (uv_udp_connect none)

    unfoldable pub run_op : SocketOp → Eff (Unit {0})
    unfolding nodelay simultaneous_accepts set_multicast_loop set_broadcast keepalive set_membership
        set_source_membership set_multicast_ttl set_ttl pipe_open set_multicast_interface pipe_bind
        chmod tcp_bind udp_bind udp_connect
    run_op (op_nodelay b) = nodelay b
    run_op (op_simultaneous_accepts b) = simultaneous_accepts b
    run_op (op_multicast_loop b) = set_multicast_loop b
    run_op (op_broadcast b) = set_broadcast b
    run_op (op_keepalive b d) = keepalive b d
    run_op (op_membership m i k) = set_membership m i k
    run_op (op_source_membership m i s k) = set_source_membership m i s k
    run_op (op_multicast_ttl t) = set_multicast_ttl t
    run_op (op_ttl t) = set_ttl t
    run_op (op_pipe_open f) = pipe_open f
    run_op (op_multicast_interface i) = set_multicast_interface i
    run_op (op_pipe_bind n) = pipe_bind n
    run_op (op_chmod f) = chmod f
    run_op (op_tcp_bind a f) = tcp_bind a f
    run_op (op_udp_bind a f) = udp_bind a f
    run_op (op_udp_connect a) = udp_connect a
