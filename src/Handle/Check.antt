-- ===== src/Handle/Check.antt =====
-- src/handles/check.rs.
use libuv_rs.Common.{none}
use libuv_rs.HandleType.{HandleType}
use libuv_rs.Memory.{Ptr, Layout, Callback, nil, CCallback, AddlHandleData}
use libuv_rs.Memory.Effect.{Eff, pure, ◌>>◌, Env, call, use_c_callback}
use libuv_rs.Handle.{
  UvHandle, InitCall, StartCall, CodeCall, with_addl, update_addl, new_handle, start_code, code_of,
}
use libuv_rs.Handle.Conversion.{Conversion, convert}

abbrev pub set_check_cb : Callback → AddlHandleData → AddlHandleData
set_check_cb f (AddlHandleData.check_data _) = AddlHandleData.check_data f
set_check_cb f d = d

unfoldable pub run_check_cb : Ptr → AddlHandleData → Eff (Unit {0})
unfolding call
run_check_cb handle (AddlHandleData.check_data f) = call f handle none
run_check_cb handle _ = pure tt

-- The C callback.
unfoldable pub uv_check_cb : Ptr → Eff (Unit {0})
unfolding with_addl run_check_cb
uv_check_cb handle = with_addl handle (run_check_cb handle)

unfoldable pub try_from : UvHandle → Ptr → Eff Conversion
unfolding convert
try_from libuv handle = convert libuv HandleType.check handle

module _ (libuv : UvHandle) (env : Env) where
  unfoldable pub new : Ptr → Eff Ptr
  unfolding new_handle
  new lp =
      new_handle libuv env lp Layout.uv_check_t InitCall.uv_check_init
        (AddlHandleData.check_data nil)

  unfoldable pub start : Ptr → Callback → Eff (Unit {0})
  unfolding update_addl start_code
  start handle f = do
    let uv_cb = use_c_callback CCallback.uv_check_cb f
    update_addl handle (set_check_cb f)
    start_code libuv env handle StartCall.uv_check_start uv_cb

  unfoldable pub stop : Ptr → Eff (Unit {0})
  unfolding code_of
  stop handle = code_of libuv env handle CodeCall.uv_check_stop
