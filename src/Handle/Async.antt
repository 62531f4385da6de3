-- ===== src/Handle/Async.antt =====
-- src/handles/async.rs: here the data is attached before libuv initialises the handle.
use libuv_rs.Common.{none, ◌==◌, if◌then◌else◌}
use libuv_rs.Common.Int.{ℤ, is_neg}
use libuv_rs.Error.{Error, from_inner as error_from_inner}
use libuv_rs.HandleType.{HandleType}
use libuv_rs.Memory.{Ptr, null, Layout, Callback, CCallback, AddlHandleData}
use libuv_rs.Memory.Effect.{
  uv, Eff, pure, throw, ◌>>=◌, ◌>>◌, Env, call, use_c_callback, std_alloc, std_dealloc,
}
use libuv_rs.Handle.{
  UvHandle, InitCall, CodeCall, initialize_data, free_data, init, with_addl, code_of,
}
use libuv_rs.Handle.Conversion.{Conversion, convert}

unfoldable pub run_async_cb : Ptr → AddlHandleData → Eff (Unit {0})
unfolding call
run_async_cb handle (AddlHandleData.async_data f) = call f handle none
run_async_cb handle _ = pure tt

-- The C callback.
unfoldable pub uv_async_cb : Ptr → Eff (Unit {0})
unfolding with_addl run_async_cb
uv_async_cb handle = with_addl handle (run_async_cb handle)

unfoldable pub try_from : UvHandle → Ptr → Eff Conversion
unfolding convert
try_from libuv handle = convert libuv HandleType.async handle

module _ (libuv : UvHandle) (env : Env) where
  abbrev pub after_async_init : Ptr → ℤ → Eff Ptr
  unfolding free_data std_dealloc
  after_async_init handle ret =
      if is_neg ret
      then free_data handle
        >> (std_dealloc handle Layout.uv_async_t >> throw (uv (error_from_inner env.errno ret)))
      else pure handle

  abbrev pub attach_and_init : Ptr → Callback → Ptr → Eff Ptr
  unfolding initialize_data init after_async_init
  attach_and_init lp async_cb handle = do
    let uv_cb = use_c_callback CCallback.uv_async_cb async_cb
    initialize_data env handle (AddlHandleData.async_data async_cb)
    ret ← init libuv lp handle (InitCall.uv_async_init uv_cb)
    after_async_init handle ret

  unfoldable pub new : Ptr → Callback → Eff Ptr
  unfolding std_alloc attach_and_init
  new lp async_cb = do
    handle ← std_alloc env Layout.uv_async_t
    if handle == null then throw (uv Error.enomem) else attach_and_init lp async_cb handle

  unfoldable pub send : Ptr → Eff (Unit {0})
  unfolding code_of
  send handle = code_of libuv env handle CodeCall.uv_async_send
