-- ===== src/Stream/Data.antt =====
-- src/handles/streams/stream.rs: the data of a stream, its C callbacks, listening and reading.
use libuv_rs.Common.{Bool, some}
use libuv_rs.Common.Int.{ℤ}
use libuv_rs.Memory.{
  Ptr, Callback, nil, CCallback, UvBuf, AddlStreamData, AddlHandleData, stream_data,
}
use libuv_rs.Memory.Effect.{
  Eff, pure, ◌>>=◌, ◌>>◌, Env, use_c_callback, call, call_with, status_of, Args,
}
use libuv_rs.Handle.{
  UvHandle, StartCall, CodeCall, get_data, load_data, set_addl, initialize_data, start_code,
  code_of,
}
use libuv_rs.Handle

unfoldable pub initialize_stream_data : Env → Ptr → AddlStreamData → Eff (Unit {0})
unfolding initialize_data
initialize_stream_data env stream addl =
    Handle.initialize_data env stream (stream_data nil nil nil addl)

-- `StreamHandle::get_data` reads the data box without a test for null: a stream without data is a
-- fault, the data of another kind of handle is passed over.
unfoldable pub with_stream_data : Ptr → (AddlHandleData → Eff (Unit {0})) → Eff (Unit {0})
unfolding get_data load_data
with_stream_data stream body = do
  dataptr ← Handle.get_data stream
  d ← Handle.load_data dataptr
  body d.addl

unfoldable pub update_stream_data : Ptr → (AddlHandleData → AddlHandleData) → Eff (Unit {0})
unfolding get_data set_addl
update_stream_data stream f = do dataptr ← Handle.get_data stream; set_addl f dataptr

abbrev pub set_connection_cb : Callback → AddlHandleData → AddlHandleData
set_connection_cb f (stream_data a c r x) = stream_data a f r x
set_connection_cb f d = d

abbrev pub set_alloc_read_cb : Callback → Callback → AddlHandleData → AddlHandleData
set_alloc_read_cb f g (stream_data a c r x) = stream_data f c g x
set_alloc_read_cb f g d = d

module _ (env : Env) where
  unfoldable pub run_connection_cb : ℤ → Ptr → AddlHandleData → Eff (Unit {0})
  unfolding call status_of
  run_connection_cb status stream (stream_data a c r x) =
      call c stream (some (status_of env status))
  run_connection_cb status stream _ = pure tt

  unfoldable pub uv_connection_cb : Ptr → ℤ → Eff (Unit {0})
  unfolding with_stream_data run_connection_cb
  uv_connection_cb stream status = with_stream_data stream (run_connection_cb status stream)

  unfoldable pub run_read_cb : ℤ → UvBuf → Ptr → AddlHandleData → Eff (Unit {0})
  unfolding call_with status_of
  run_read_cb nread buf stream (stream_data a c r x) =
      call_with r stream (some (status_of env nread)) (Args.read_args buf)
  run_read_cb nread buf stream _ = pure tt

  unfoldable pub uv_read_cb : Ptr → ℤ → UvBuf → Eff (Unit {0})
  unfolding with_stream_data run_read_cb
  uv_read_cb stream nread buf = with_stream_data stream (run_read_cb nread buf stream)

module _ (libuv : UvHandle) (env : Env) where
  unfoldable pub listen : Ptr → ℤ → Callback → Eff (Unit {0})
  unfolding update_stream_data start_code
  listen stream backlog f = do
    let uv_cb = use_c_callback CCallback.uv_connection_cb f
    update_stream_data stream (set_connection_cb f)
    start_code libuv env stream (StartCall.uv_listen backlog) uv_cb

  unfoldable pub accept : Ptr → Ptr → Eff (Unit {0})
  unfolding code_of
  accept stream client = code_of libuv env stream (CodeCall.uv_accept client)

  unfoldable pub read_start : Ptr → Callback → Callback → Eff (Unit {0})
  unfolding update_stream_data start_code
  read_start stream alloc_cb read_cb = do
    let uv_alloc_cb = use_c_callback CCallback.uv_alloc_cb alloc_cb
    let uv_read_cb = use_c_callback CCallback.uv_read_cb read_cb
    update_stream_data stream (set_alloc_read_cb alloc_cb read_cb)
    start_code libuv env stream (StartCall.uv_read_start uv_alloc_cb) uv_read_cb

  unfoldable pub read_stop : Ptr → Eff (Unit {0})
  unfolding code_of
  read_stop stream = code_of libuv env stream CodeCall.uv_read_stop

  unfoldable pub set_blocking : Ptr → Bool → Eff (Unit {0})
  unfolding code_of
  set_blocking stream blocking = code_of libuv env stream (CodeCall.uv_stream_set_blocking blocking)
