-- ===== src/Handle/Pipe.antt =====
-- src/handles/streams/pipe.rs: making the handle.
use libuv_rs.Common.{Bool}
use libuv_rs.HandleType.{HandleType}
use libuv_rs.Memory.{Ptr, Layout, nil, AddlStreamData, stream_data}
use libuv_rs.Memory.Effect.{Eff, Env}
use libuv_rs.Handle.{UvHandle, InitCall, new_handle}
use libuv_rs.Handle.Conversion.{Conversion, convert}

unfoldable pub try_from : UvHandle → Ptr → Eff Conversion
unfolding convert
try_from libuv handle = convert libuv HandleType.named_pipe handle

module _ (libuv : UvHandle) (env : Env) where
  unfoldable pub new : Ptr → Bool → Eff Ptr
  unfolding new_handle
  new lp ipc =
      new_handle libuv env lp Layout.uv_pipe_t (InitCall.uv_pipe_init ipc)
        (stream_data nil nil nil AddlStreamData.no_addl_stream_data)
