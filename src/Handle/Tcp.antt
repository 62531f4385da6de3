-- ===== src/Handle/Tcp.antt =====
-- src/handles/streams/tcp.rs: making the handle.
use libuv_rs.Common.{ℕ}
use libuv_rs.HandleType.{HandleType}
use libuv_rs.Memory.{Ptr, Layout, nil, AddlStreamData, stream_data}
use libuv_rs.Memory.Effect.{Eff, Env}
use libuv_rs.Handle.{UvHandle, InitCall, new_handle}
use libuv_rs.Handle.Conversion.{Conversion, convert}

unfoldable pub try_from : UvHandle → Ptr → Eff Conversion
unfolding convert
try_from libuv handle = convert libuv HandleType.tcp handle

module _ (libuv : UvHandle) (env : Env) where
  unfoldable pub new : Ptr → Eff Ptr
  unfolding new_handle
  new lp =
      new_handle libuv env lp Layout.uv_tcp_t InitCall.uv_tcp_init
        (stream_data nil nil nil AddlStreamData.no_addl_stream_data)

  unfoldable pub new_ex : Ptr → ℕ → Eff Ptr
  unfolding new_handle
  new_ex lp flags =
      new_handle libuv env lp Layout.uv_tcp_t (InitCall.uv_tcp_init_ex flags)
        (stream_data nil nil nil AddlStreamData.no_addl_stream_data)
