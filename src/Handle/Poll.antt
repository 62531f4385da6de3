-- ===== src/Handle/Poll.antt =====
-- src/handles/poll.rs. A set of flags is its bits, and `all_events` the bits that have a name.
use libuv_rs.Common.{ℕ, some}
use libuv_rs.Common.Int.{ℤ}
use Prim.Native.Nat.{bit_and}
use libuv_rs.HandleType.{HandleType}
use libuv_rs.Memory.{Ptr, Layout, Callback, nil, CCallback, AddlHandleData}
use libuv_rs.Memory.Effect.{Eff, pure, ◌>>◌, Env, call_with, use_c_callback, status_of, Args}
use libuv_rs.Handle.{
  UvHandle, InitCall, StartCall, CodeCall, with_addl, update_addl, new_handle, start_code, code_of,
}
use libuv_rs.Handle.Conversion.{Conversion, convert}

abbrev pub set_poll_cb : Callback → AddlHandleData → AddlHandleData
set_poll_cb f (AddlHandleData.poll_data _) = AddlHandleData.poll_data f
set_poll_cb f d = d

module _ (env : Env) (all_events : ℕ) where
  unfoldable pub run_poll_cb : (status : ℤ) (events : ℕ) → Ptr → AddlHandleData → Eff (Unit {0})
  unfolding call_with status_of
  run_poll_cb status events handle (AddlHandleData.poll_data f) =
      call_with f handle (some (status_of env status)) (Args.poll_args (bit_and events all_events))
  run_poll_cb _ _ handle _ = pure tt

  -- The C callback.
  unfoldable pub uv_poll_cb : Ptr → (status : ℤ) (events : ℕ) → Eff (Unit {0})
  unfolding with_addl run_poll_cb
  uv_poll_cb handle status events = with_addl handle (run_poll_cb status events handle)

unfoldable pub try_from : UvHandle → Ptr → Eff Conversion
unfolding convert
try_from libuv handle = convert libuv HandleType.poll handle

module _ (libuv : UvHandle) (env : Env) where
  unfoldable pub new : Ptr → (fd : ℤ) → Eff Ptr
  unfolding new_handle
  new lp fd =
      new_handle libuv env lp Layout.uv_poll_t (InitCall.uv_poll_init fd)
        (AddlHandleData.poll_data nil)

  unfoldable pub new_socket : Ptr → (socket : ℤ) → Eff Ptr
  unfolding new_handle
  new_socket lp socket =
      new_handle libuv env lp Layout.uv_poll_t (InitCall.uv_poll_init_socket socket)
        (AddlHandleData.poll_data nil)

  unfoldable pub start : Ptr → (events : ℕ) → Callback → Eff (Unit {0})
  unfolding update_addl start_code
  start handle events f = do
    let uv_cb = use_c_callback CCallback.uv_poll_cb f
    update_addl handle (set_poll_cb f)
    start_code libuv env handle (StartCall.uv_poll_start events) uv_cb

  unfoldable pub stop : Ptr → Eff (Unit {0})
  unfolding code_of
  stop handle = code_of libuv env handle CodeCall.uv_poll_stop
