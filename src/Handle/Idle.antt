-- ===== src/Handle/Idle.antt =====
-- src/handles/idle.rs.
use libuv_rs.Common.{none}
use libuv_rs.HandleType.{HandleType}
use libuv_rs.Memory.{Ptr, Layout, Callback, nil, CCallback, AddlHandleData}
use libuv_rs.Memory.Effect.{Eff, pure, ◌>>◌, Env, call, use_c_callback}
use libuv_rs.Handle.{
  UvHandle, InitCall, StartCall, CodeCall, with_addl, update_addl, new_handle, start_code, code_of,
}
use libuv_rs.Handle.Conversion.{Conversion, convert}

abbrev pub set_idle_cb : Callback → AddlHandleData → AddlHandleData
set_idle_cb f (AddlHandleData.idle_data _) = AddlHandleData.idle_data f
set_idle_cb f d = d

unfoldable pub run_idle_cb : Ptr → AddlHandleData → Eff (Unit {0})
unfolding call
run_idle_cb handle (AddlHandleData.idle_data f) = call f handle none
run_idle_cb handle _ = pure tt

-- The C callback.
unfoldable pub uv_idle_cb : Ptr → Eff (Unit {0})
unfolding with_addl run_idle_cb
uv_idle_cb handle = with_addl handle (run_idle_cb handle)

unfoldable pub try_from : UvHandle → Ptr → Eff Conversion
unfolding convert
try_from libuv handle = convert libuv HandleType.idle handle

module _ (libuv : UvHandle) (env : Env) where
  unfoldable pub new : Ptr → Eff Ptr
  unfolding new_handle
  new lp =
      new_handle libuv env lp Layout.uv_idle_t InitCall.uv_idle_init (AddlHandleData.idle_data nil)

  unfoldable pub start : Ptr → Callback → Eff (Unit {0})
  unfolding update_addl start_code
  start handle f = do
    let uv_cb = use_c_callback CCallback.uv_idle_cb f
    update_addl handle (set_idle_cb f)
    start_code libuv env handle StartCall.uv_idle_start uv_cb

  unfoldable pub stop : Ptr → Eff (Unit {0})
  unfolding code_of
  stop handle = code_of libuv env handle CodeCall.uv_idle_stop
