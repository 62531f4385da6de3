-- ===== src/Handle/Timer.antt =====
-- src/handles/timer.rs.
use libuv_rs.Common.{ℕ, none}
use libuv_rs.HandleType.{HandleType}
use libuv_rs.Memory.{Ptr, Layout, Callback, nil, CCallback, AddlHandleData}
use libuv_rs.Memory.Effect.{Eff, pure, ◌>>◌, Env, call, use_c_callback}
use libuv_rs.Handle.{
  UvHandle, InitCall, StartCall, CodeCall, with_addl, update_addl, new_handle, start_code, code_of,
}
use libuv_rs.Handle.Conversion.{Conversion, convert}

abbrev pub set_timer_cb : Callback → AddlHandleData → AddlHandleData
set_timer_cb f (AddlHandleData.timer_data _) = AddlHandleData.timer_data f
set_timer_cb f d = d

unfoldable pub run_timer_cb : Ptr → AddlHandleData → Eff (Unit {0})
unfolding call
run_timer_cb handle (AddlHandleData.timer_data f) = call f handle none
run_timer_cb handle _ = pure tt

-- The C callback.
unfoldable pub uv_timer_cb : Ptr → Eff (Unit {0})
unfolding with_addl run_timer_cb
uv_timer_cb handle = with_addl handle (run_timer_cb handle)

unfoldable pub try_from : UvHandle → Ptr → Eff Conversion
unfolding convert
try_from libuv handle = convert libuv HandleType.timer handle

module _ (libuv : UvHandle) (env : Env) where
  unfoldable pub new : Ptr → Eff Ptr
  unfolding new_handle
  new lp =
      new_handle libuv env lp Layout.uv_timer_t InitCall.uv_timer_init
        (AddlHandleData.timer_data nil)

  unfoldable pub start : Ptr → (timeout repeat : ℕ) → Callback → Eff (Unit {0})
  unfolding update_addl start_code
  start handle timeout repeat f = do
    let uv_cb = use_c_callback CCallback.uv_timer_cb f
    update_addl handle (set_timer_cb f)
    start_code libuv env handle (StartCall.uv_timer_start timeout repeat) uv_cb

  unfoldable pub stop : Ptr → Eff (Unit {0})
  unfolding code_of
  stop handle = code_of libuv env handle CodeCall.uv_timer_stop

  unfoldable pub again : Ptr → Eff (Unit {0})
  unfolding code_of
  again handle = code_of libuv env handle CodeCall.uv_timer_again
