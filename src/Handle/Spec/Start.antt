-- ===== src/Handle/Spec/Start.antt =====
-- src/handles: what a start stores and which call of libuv it makes, for every kind of handle.
use libuv_rs.Common.{ℕ, Option, List, [], if◌then◌else◌}
use libuv_rs.Common.Int.{ℤ, is_neg}
use libuv_rs.Error.{from_inner as error_from_inner}
use libuv_rs.Memory.{Ptr, CCallback, AddlHandleData, stream_data, udp_data}
use libuv_rs.Memory.Effect.{Env, World, Run, done, fails, uv, nul_error, use_c_callback, has_nul}
use libuv_rs.Handle.{UvHandle, StartCall}
use libuv_rs.Handle.Ops.{
  StartOp, start_timer, start_check, start_prepare, start_idle, start_signal, start_signal_oneshot,
  start_poll, start_fs_event, start_fs_poll, start_listen, start_read, start_recv,
}

-- What a start stores, by the data of the handle.
abbrev pub stored : StartOp → AddlHandleData → AddlHandleData
stored (start_timer _ _ f) (AddlHandleData.timer_data _) = AddlHandleData.timer_data f
stored (start_check f) (AddlHandleData.check_data _) = AddlHandleData.check_data f
stored (start_prepare f) (AddlHandleData.prepare_data _) = AddlHandleData.prepare_data f
stored (start_idle f) (AddlHandleData.idle_data _) = AddlHandleData.idle_data f
stored (start_signal _ f) (AddlHandleData.signal_data _) = AddlHandleData.signal_data f
stored (start_signal_oneshot _ f) (AddlHandleData.signal_data _) = AddlHandleData.signal_data f
stored (start_poll _ f) (AddlHandleData.poll_data _) = AddlHandleData.poll_data f
stored (start_fs_event _ _ f) (AddlHandleData.fs_event_data _) = AddlHandleData.fs_event_data f
stored (start_fs_poll _ _ f) (AddlHandleData.fs_poll_data _) = AddlHandleData.fs_poll_data f
stored (start_listen _ f) (stream_data a c r x) = stream_data a f r x
stored (start_read a' f) (stream_data a c r x) = stream_data a' c f x
stored (start_recv a' f) (stream_data a c r (udp_data _)) = stream_data a' c r (udp_data f)
stored (start_recv a' f) (stream_data a c r x) = stream_data a' c r x
stored _ d = d

-- The path that a start needs as a C string.
abbrev pub path_of : StartOp → List ℕ
path_of (start_fs_event path _ _) = path
path_of (start_fs_poll path _ _) = path
path_of _ = []

abbrev pub start_call_of : StartOp → StartCall × Option CCallback
start_call_of (start_timer t r f) =
    (StartCall.uv_timer_start t r, use_c_callback CCallback.uv_timer_cb f)
start_call_of (start_check f) = (StartCall.uv_check_start, use_c_callback CCallback.uv_check_cb f)
start_call_of (start_prepare f) =
    (StartCall.uv_prepare_start, use_c_callback CCallback.uv_prepare_cb f)
start_call_of (start_idle f) = (StartCall.uv_idle_start, use_c_callback CCallback.uv_idle_cb f)
start_call_of (start_signal signum f) =
    (StartCall.uv_signal_start signum, use_c_callback CCallback.uv_signal_cb f)
start_call_of (start_signal_oneshot signum f) =
    (StartCall.uv_signal_start_oneshot signum, use_c_callback CCallback.uv_signal_cb f)
start_call_of (start_poll events f) =
    (StartCall.uv_poll_start events, use_c_callback CCallback.uv_poll_cb f)
start_call_of (start_fs_event path flags f) =
    (StartCall.uv_fs_event_start path flags, use_c_callback CCallback.uv_fs_event_cb f)
start_call_of (start_fs_poll path interval f) =
    (StartCall.uv_fs_poll_start path interval, use_c_callback CCallback.uv_fs_poll_cb f)
start_call_of (start_listen backlog f) =
    (StartCall.uv_listen backlog, use_c_callback CCallback.uv_connection_cb f)
start_call_of (start_read a f) = (
  StartCall.uv_read_start (use_c_callback CCallback.uv_alloc_cb a),
  use_c_callback CCallback.uv_read_cb f,
)
start_call_of (start_recv a f) = (
  StartCall.uv_udp_recv_start (use_c_callback CCallback.uv_alloc_cb a),
  use_c_callback CCallback.uv_udp_recv_cb f,
)

module _ (libuv : UvHandle) (env : Env) where
  -- The code that libuv gives in the state `v`.
  abbrev pub start_answer : StartOp → Ptr → World → ℤ
  start_answer op p v = libuv.uv_start v p (start_call_of op).0 (start_call_of op).1

  -- A path with an inner zero byte is refused first; the closure is stored before libuv is asked,
  -- and stays when libuv refuses.
  abbrev pub start_spec : StartOp → Ptr → (w v : World) → Run (Unit {0})
  start_spec op p w v =
      if has_nul (path_of op)
      then fails nul_error w
      else if is_neg (start_answer op p v)
      then fails (uv (error_from_inner env.errno (start_answer op p v))) v
      else done tt v
