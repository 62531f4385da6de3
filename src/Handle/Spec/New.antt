-- ===== src/Handle/Spec/New.antt =====
-- src/handles: the layout, the call of libuv and the data of a new handle, of every kind.
use libuv_rs.Common.{Bool, true, false, ◌==◌, if◌then◌else◌}
use libuv_rs.Common.Int.{ℤ, is_neg}
use libuv_rs.Error.{Error, from_inner as error_from_inner}
use libuv_rs.HandleType.{UvHandleType}
use libuv_rs.Memory.{
  Ptr, null, Layout, nil, CCallback, AddlStreamData, AddlHandleData, Fields, Heap, handle_data,
  stream_data, udp_data,
}
use libuv_rs.Memory.Effect.{Env, World, Run, done, fails, uv, use_c_callback}
use libuv_rs.Memory.Boxed.{fresh_ptr, fresh_box, fresh_heap, without_box}
use libuv_rs.Handle.{UvHandle, InitCall}
use libuv_rs.Handle.Make.{fresh_data}
use libuv_rs.Handle.Ops.{
  NewOp, new_timer, new_check, new_prepare, new_idle, new_signal, new_fs_event, new_fs_poll,
  new_tcp, new_udp, new_poll, new_poll_socket, new_tty, new_tcp_ex, new_udp_ex, new_pipe, new_async,
}

abbrev pub layout_of_new : NewOp → Layout
layout_of_new new_timer = Layout.uv_timer_t
layout_of_new new_check = Layout.uv_check_t
layout_of_new new_prepare = Layout.uv_prepare_t
layout_of_new new_idle = Layout.uv_idle_t
layout_of_new new_signal = Layout.uv_signal_t
layout_of_new new_fs_event = Layout.uv_fs_event_t
layout_of_new new_fs_poll = Layout.uv_fs_poll_t
layout_of_new new_tcp = Layout.uv_tcp_t
layout_of_new new_udp = Layout.uv_udp_t
layout_of_new (new_poll _) = Layout.uv_poll_t
layout_of_new (new_poll_socket _) = Layout.uv_poll_t
layout_of_new (new_tty _) = Layout.uv_tty_t
layout_of_new (new_tcp_ex _) = Layout.uv_tcp_t
layout_of_new (new_udp_ex _) = Layout.uv_udp_t
layout_of_new (new_pipe _) = Layout.uv_pipe_t
layout_of_new (new_async _) = Layout.uv_async_t

abbrev pub init_call_of : NewOp → InitCall
init_call_of new_timer = InitCall.uv_timer_init
init_call_of new_check = InitCall.uv_check_init
init_call_of new_prepare = InitCall.uv_prepare_init
init_call_of new_idle = InitCall.uv_idle_init
init_call_of new_signal = InitCall.uv_signal_init
init_call_of new_fs_event = InitCall.uv_fs_event_init
init_call_of new_fs_poll = InitCall.uv_fs_poll_init
init_call_of new_tcp = InitCall.uv_tcp_init
init_call_of new_udp = InitCall.uv_udp_init
init_call_of (new_poll fd) = InitCall.uv_poll_init fd
init_call_of (new_poll_socket fd) = InitCall.uv_poll_init_socket fd
init_call_of (new_tty fd) = InitCall.uv_tty_init fd
init_call_of (new_tcp_ex flags) = InitCall.uv_tcp_init_ex flags
init_call_of (new_udp_ex flags) = InitCall.uv_udp_init_ex flags
init_call_of (new_pipe ipc) = InitCall.uv_pipe_init ipc
init_call_of (new_async f) = InitCall.uv_async_init (use_c_callback CCallback.uv_async_cb f)

abbrev pub plain_stream : AddlHandleData
plain_stream = stream_data nil nil nil AddlStreamData.no_addl_stream_data

abbrev pub addl_of_new : NewOp → AddlHandleData
addl_of_new new_timer = AddlHandleData.timer_data nil
addl_of_new new_check = AddlHandleData.check_data nil
addl_of_new new_prepare = AddlHandleData.prepare_data nil
addl_of_new new_idle = AddlHandleData.idle_data nil
addl_of_new new_signal = AddlHandleData.signal_data nil
addl_of_new new_fs_event = AddlHandleData.fs_event_data nil
addl_of_new new_fs_poll = AddlHandleData.fs_poll_data nil
addl_of_new new_tcp = plain_stream
addl_of_new new_udp = stream_data nil nil nil (udp_data nil)
addl_of_new (new_poll _) = AddlHandleData.poll_data nil
addl_of_new (new_poll_socket _) = AddlHandleData.poll_data nil
addl_of_new (new_tty _) = plain_stream
addl_of_new (new_tcp_ex _) = plain_stream
addl_of_new (new_udp_ex _) = stream_data nil nil nil (udp_data nil)
addl_of_new (new_pipe _) = plain_stream
addl_of_new (new_async f) = AddlHandleData.async_data f

-- An async handle gets its data before libuv is asked, the others afterwards.
abbrev pub is_async : NewOp → Bool
is_async (new_async _) = true
is_async _ = false

-- The type that libuv documents for each call.
abbrev pub type_of_call : InitCall → UvHandleType
type_of_call (InitCall.uv_async_init _) = UvHandleType.async
type_of_call InitCall.uv_check_init = UvHandleType.check
type_of_call InitCall.uv_fs_event_init = UvHandleType.fs_event
type_of_call InitCall.uv_fs_poll_init = UvHandleType.fs_poll
type_of_call InitCall.uv_idle_init = UvHandleType.idle
type_of_call InitCall.uv_prepare_init = UvHandleType.prepare
type_of_call InitCall.uv_signal_init = UvHandleType.signal
type_of_call InitCall.uv_timer_init = UvHandleType.timer
type_of_call InitCall.uv_tcp_init = UvHandleType.tcp
type_of_call InitCall.uv_udp_init = UvHandleType.udp
type_of_call (InitCall.uv_tcp_init_ex _) = UvHandleType.tcp
type_of_call (InitCall.uv_udp_init_ex _) = UvHandleType.udp
type_of_call (InitCall.uv_pipe_init _) = UvHandleType.named_pipe
type_of_call (InitCall.uv_tty_init _) = UvHandleType.tty
type_of_call (InitCall.uv_poll_init _) = UvHandleType.poll
type_of_call (InitCall.uv_poll_init_socket _) = UvHandleType.poll

module _ (libuv : UvHandle) (env : Env) (lp : Ptr) (op : NewOp) (w : World) where
  abbrev pub made_ptr : Ptr
  made_ptr = fresh_ptr env (layout_of_new op) env.garbage w.heap

  -- The memory in which libuv is asked.
  abbrev pub asked_heap : Heap
  asked_heap =
      if is_async op
      then fresh_heap env (layout_of_new op) env.garbage w.heap
          (handle_data (fresh_data (addl_of_new op))) env.garbage
      else without_box env (layout_of_new op) env.garbage w.heap

  abbrev pub made_answer : ℤ × Fields
  made_answer =
      libuv.uv_init (record w { heap = asked_heap }) lp made_ptr (init_call_of op) env.garbage

  -- The fields when the box is allocated.
  abbrev pub boxed_fields : Fields
  boxed_fields = if is_async op then env.garbage else made_answer.1

  abbrev pub made_box : Ptr
  made_box = fresh_box env (layout_of_new op) boxed_fields w.heap

  abbrev pub made_heap : Heap
  made_heap =
      fresh_heap env (layout_of_new op) boxed_fields w.heap
        (handle_data (fresh_data (addl_of_new op))) made_answer.1

  abbrev pub make_spec : Run Ptr
  make_spec =
      if made_ptr == null
      then fails (uv Error.enomem) w
      else if is_neg made_answer.0
      then fails (uv (error_from_inner env.errno made_answer.0)) w
      else done made_ptr (record w { heap = made_heap })
