-- ===== src/Handle/Udp.antt =====
-- src/handles/streams/udp.rs: making a UDP handle and receiving. A pointer to a sockaddr is its
-- bytes, the null pointer none. A set of flags is its bits, and `all_flags` the bits that have a
-- name.
use libuv_rs.Common.{ℕ, Option, none, some, List}
use Prim.Native.Nat.{bit_and}
use libuv_rs.Common.Int.{ℤ}
use libuv_rs.HandleType.{HandleType}
use libuv_rs.Memory.{
  Ptr, Layout, Callback, nil, CCallback, UvBuf, AddlStreamData, AddlHandleData, stream_data,
  udp_data,
}
use libuv_rs.Memory.Effect.{
  Eff, Fault, crash, pure, ◌>>=◌, ◌>>◌, attempt, Result, ok, err, Env, use_c_callback, call_with,
  status_of, Args,
}
use libuv_rs.Net.{SocketAddr}
use libuv_rs.Socket.Address.{UvAddress, build_socketaddr}
use libuv_rs.Handle.{UvHandle, InitCall, StartCall, CodeCall, new_handle, start_code, code_of}
use libuv_rs.Handle.Conversion.{Conversion, convert}
use libuv_rs.Stream.Data.{with_stream_data, update_stream_data}

abbrev pub set_alloc_recv_cb : Callback → Callback → AddlHandleData → AddlHandleData
set_alloc_recv_cb f g (stream_data a c r (udp_data _)) = stream_data f c r (udp_data g)
set_alloc_recv_cb f g (stream_data a c r AddlStreamData.no_addl_stream_data) =
    stream_data f c r AddlStreamData.no_addl_stream_data
set_alloc_recv_cb f g d = d

-- The address that the pointer leads to, which is followed without a test.
unfoldable pub load_sockaddr : Option (List ℕ) → Eff (List ℕ)
load_sockaddr none = crash Fault.null_pointer
load_sockaddr (some sockaddr) = pure sockaddr

module _ (env : Env) (address : UvAddress) (all_flags : ℕ) where
  -- `if let Ok(sockaddr) = sockaddr`.
  abbrev pub call_recv :
      (f : Callback) (nread : ℤ) (buf : UvBuf) (flags : ℕ) (handle : Ptr)
      → Result SocketAddr
      → Eff (Unit {0})
  call_recv f nread buf flags handle (ok addr) =
      call_with f handle (some (status_of env nread))
        (Args.recv_args buf addr (bit_and flags all_flags))
  call_recv f nread buf flags handle (err e) = pure tt

  unfoldable pub run_recv_cb :
      ℤ → UvBuf → (addr : Option (List ℕ)) → ℕ → Ptr → AddlHandleData → Eff (Unit {0})
  unfolding load_sockaddr build_socketaddr
  run_recv_cb nread buf addr flags handle (stream_data a c r (udp_data f)) = do
    sockaddr ← load_sockaddr addr
    result ← attempt (build_socketaddr env address sockaddr)
    call_recv f nread buf flags handle result
  run_recv_cb nread buf addr flags handle _ = pure tt

  -- The C callback: without an address that can be read, the closure is not called.
  unfoldable pub uv_udp_recv_cb : Ptr → ℤ → UvBuf → (addr : Option (List ℕ)) → ℕ → Eff (Unit {0})
  unfolding with_stream_data run_recv_cb
  uv_udp_recv_cb handle nread buf addr flags =
      with_stream_data handle (run_recv_cb nread buf addr flags handle)

unfoldable pub try_from : UvHandle → Ptr → Eff Conversion
unfolding convert
try_from libuv handle = convert libuv HandleType.udp handle

module _ (libuv : UvHandle) (env : Env) where
  unfoldable pub new : Ptr → Eff Ptr
  unfolding new_handle
  new lp =
      new_handle libuv env lp Layout.uv_udp_t InitCall.uv_udp_init
        (stream_data nil nil nil (udp_data nil))

  unfoldable pub new_ex : Ptr → ℕ → Eff Ptr
  unfolding new_handle
  new_ex lp flags =
      new_handle libuv env lp Layout.uv_udp_t (InitCall.uv_udp_init_ex flags)
        (stream_data nil nil nil (udp_data nil))

  unfoldable pub recv_start : Ptr → Callback → Callback → Eff (Unit {0})
  unfolding update_stream_data start_code
  recv_start handle alloc_cb recv_cb = do
    let uv_alloc_cb = use_c_callback CCallback.uv_alloc_cb alloc_cb
    let uv_recv_cb = use_c_callback CCallback.uv_udp_recv_cb recv_cb
    update_stream_data handle (set_alloc_recv_cb alloc_cb recv_cb)
    start_code libuv env handle (StartCall.uv_udp_recv_start uv_alloc_cb) uv_recv_cb

  unfoldable pub recv_stop : Ptr → Eff (Unit {0})
  unfolding code_of
  recv_stop handle = code_of libuv env handle CodeCall.uv_udp_recv_stop
