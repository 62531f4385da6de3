-- ===== src/Handle/Signal.antt =====
-- src/handles/signal.rs.
use libuv_rs.Common.{none}
use libuv_rs.Common.Int.{ℤ}
use libuv_rs.HandleType.{HandleType}
use libuv_rs.Memory.{Ptr, Layout, Callback, nil, CCallback, AddlHandleData}
use libuv_rs.Memory.Effect.{Eff, pure, ◌>>◌, Env, call_with, use_c_callback, Args}
use libuv_rs.Handle.{
  UvHandle, InitCall, StartCall, CodeCall, with_addl, update_addl, new_handle, start_code, code_of,
}
use libuv_rs.Handle.Conversion.{Conversion, convert}

abbrev pub set_signal_cb : Callback → AddlHandleData → AddlHandleData
set_signal_cb f (AddlHandleData.signal_data _) = AddlHandleData.signal_data f
set_signal_cb f d = d

unfoldable pub run_signal_cb : (signum : ℤ) → Ptr → AddlHandleData → Eff (Unit {0})
unfolding call_with
run_signal_cb signum handle (AddlHandleData.signal_data f) =
    call_with f handle none (Args.signal_args signum)
run_signal_cb _ handle _ = pure tt

-- The C callback.
unfoldable pub uv_signal_cb : Ptr → (signum : ℤ) → Eff (Unit {0})
unfolding with_addl run_signal_cb
uv_signal_cb handle signum = with_addl handle (run_signal_cb signum handle)

unfoldable pub try_from : UvHandle → Ptr → Eff Conversion
unfolding convert
try_from libuv handle = convert libuv HandleType.signal handle

module _ (libuv : UvHandle) (env : Env) where
  unfoldable pub new : Ptr → Eff Ptr
  unfolding new_handle
  new lp =
      new_handle libuv env lp Layout.uv_signal_t InitCall.uv_signal_init
        (AddlHandleData.signal_data nil)

  unfoldable pub start : Ptr → (signum : ℤ) → Callback → Eff (Unit {0})
  unfolding update_addl start_code
  start handle signum f = do
    let uv_cb = use_c_callback CCallback.uv_signal_cb f
    update_addl handle (set_signal_cb f)
    start_code libuv env handle (StartCall.uv_signal_start signum) uv_cb

  unfoldable pub start_oneshot : Ptr → (signum : ℤ) → Callback → Eff (Unit {0})
  unfolding update_addl start_code
  start_oneshot handle signum f = do
    let uv_cb = use_c_callback CCallback.uv_signal_cb f
    update_addl handle (set_signal_cb f)
    start_code libuv env handle (StartCall.uv_signal_start_oneshot signum) uv_cb

  unfoldable pub stop : Ptr → Eff (Unit {0})
  unfolding code_of
  stop handle = code_of libuv env handle CodeCall.uv_signal_stop
