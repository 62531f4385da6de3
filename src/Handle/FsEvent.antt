-- ===== src/Handle/FsEvent.antt =====
-- src/handles/fs_event.rs. A set of flags is its bits, and `all_events` the bits that have a name.
-- The file name is absent where the pointer is null.
use libuv_rs.Common.{ℕ, List, some, Option}
use libuv_rs.Common.Int.{ℤ}
use Prim.Native.Nat.{bit_and}
use libuv_rs.HandleType.{HandleType}
use libuv_rs.Memory.{Ptr, Layout, Callback, nil, CCallback, AddlHandleData}
use libuv_rs.Memory.Effect.{
  Eff, pure, ◌>>=◌, ◌>>◌, Env, call_with, use_c_callback, status_of, c_string_new, Args,
}
use libuv_rs.Handle.{
  UvHandle, InitCall, StartCall, CodeCall, with_addl, update_addl, new_handle, start_code, code_of,
}
use libuv_rs.Handle.Conversion.{Conversion, convert}

abbrev pub set_fs_event_cb : Callback → AddlHandleData → AddlHandleData
set_fs_event_cb f (AddlHandleData.fs_event_data _) = AddlHandleData.fs_event_data f
set_fs_event_cb f d = d

module _ (env : Env) (all_events : ℕ) where
  unfoldable pub run_fs_event_cb :
      (filename : Option (List ℕ)) (events : ℕ) (status : ℤ) → Ptr → AddlHandleData → Eff (Unit {0})
  unfolding call_with status_of
  run_fs_event_cb filename events status handle (AddlHandleData.fs_event_data f) =
      call_with f handle (some (status_of env status))
        (Args.fs_event_args filename (bit_and events all_events))
  run_fs_event_cb _ _ _ handle _ = pure tt

  -- The C callback.
  unfoldable pub uv_fs_event_cb :
      Ptr → (filename : Option (List ℕ)) (events : ℕ) (status : ℤ) → Eff (Unit {0})
  unfolding with_addl run_fs_event_cb
  uv_fs_event_cb handle filename events status =
      with_addl handle (run_fs_event_cb filename events status handle)

unfoldable pub try_from : UvHandle → Ptr → Eff Conversion
unfolding convert
try_from libuv handle = convert libuv HandleType.fs_event handle

module _ (libuv : UvHandle) (env : Env) where
  unfoldable pub new : Ptr → Eff Ptr
  unfolding new_handle
  new lp =
      new_handle libuv env lp Layout.uv_fs_event_t InitCall.uv_fs_event_init
        (AddlHandleData.fs_event_data nil)

  unfoldable pub start : Ptr → (path : List ℕ) (flags : ℕ) → Callback → Eff (Unit {0})
  unfolding update_addl start_code c_string_new
  start handle path flags f = do
    s ← c_string_new path
    let uv_cb = use_c_callback CCallback.uv_fs_event_cb f
    update_addl handle (set_fs_event_cb f)
    start_code libuv env handle (StartCall.uv_fs_event_start s flags) uv_cb

  unfoldable pub stop : Ptr → Eff (Unit {0})
  unfolding code_of
  stop handle = code_of libuv env handle CodeCall.uv_fs_event_stop
