-- ===== src/Handle/Prepare.antt =====
-- src/handles/prepare.rs.
use libuv_rs.Common.{none}
use libuv_rs.HandleType.{HandleType}
use libuv_rs.Memory.{Ptr, Layout, Callback, nil, CCallback, AddlHandleData}
use libuv_rs.Memory.Effect.{Eff, pure, ◌>>◌, Env, call, use_c_callback}
use libuv_rs.Handle.{
  UvHandle, InitCall, StartCall, CodeCall, with_addl, update_addl, new_handle, start_code, code_of,
}
use libuv_rs.Handle.Conversion.{Conversion, convert}

abbrev pub set_prepare_cb : Callback → AddlHandleData → AddlHandleData
set_prepare_cb f (AddlHandleData.prepare_data _) = AddlHandleData.prepare_data f
set_prepare_cb f d = d

unfoldable pub run_prepare_cb : Ptr → AddlHandleData → Eff (Unit {0})
unfolding call
run_prepare_cb handle (AddlHandleData.prepare_data f) = call f handle none
run_prepare_cb handle _ = pure tt

-- The C callback.
unfoldable pub uv_prepare_cb : Ptr → Eff (Unit {0})
unfolding with_addl run_prepare_cb
uv_prepare_cb handle = with_addl handle (run_prepare_cb handle)

unfoldable pub try_from : UvHandle → Ptr → Eff Conversion
unfolding convert
try_from libuv handle = convert libuv HandleType.prepare handle

module _ (libuv : UvHandle) (env : Env) where
  unfoldable pub new : Ptr → Eff Ptr
  unfolding new_handle
  new lp =
      new_handle libuv env lp Layout.uv_prepare_t InitCall.uv_prepare_init
        (AddlHandleData.prepare_data nil)

  unfoldable pub start : Ptr → Callback → Eff (Unit {0})
  unfolding update_addl start_code
  start handle f = do
    let uv_cb = use_c_callback CCallback.uv_prepare_cb f
    update_addl handle (set_prepare_cb f)
    start_code libuv env handle StartCall.uv_prepare_start uv_cb

  unfoldable pub stop : Ptr → Eff (Unit {0})
  unfolding code_of
  stop handle = code_of libuv env handle CodeCall.uv_prepare_stop
