-- ===== src/Handle/FsPoll.antt =====
-- src/handles/fs_poll.rs.
use libuv_rs.Common.{ℕ, List, some}
use libuv_rs.Common.Int.{ℤ}
use libuv_rs.FsStat.{UvStat, stat_of}
use libuv_rs.HandleType.{HandleType}
use libuv_rs.Memory.{Ptr, Layout, Callback, nil, CCallback, AddlHandleData}
use libuv_rs.Memory.Effect.{
  Eff, pure, ◌>>=◌, ◌>>◌, Env, call_with, use_c_callback, status_of, c_string_new, Args,
}
use libuv_rs.Handle.{
  UvHandle, InitCall, StartCall, CodeCall, with_addl, update_addl, new_handle, start_code, code_of,
}
use libuv_rs.Handle.Conversion.{Conversion, convert}

abbrev pub set_fs_poll_cb : Callback → AddlHandleData → AddlHandleData
set_fs_poll_cb f (AddlHandleData.fs_poll_data _) = AddlHandleData.fs_poll_data f
set_fs_poll_cb f d = d

module _ (env : Env) where
  unfoldable pub run_fs_poll_cb :
      (status : ℤ) (prev curr : UvStat) → Ptr → AddlHandleData → Eff (Unit {0})
  unfolding call_with status_of stat_of
  run_fs_poll_cb status prev curr handle (AddlHandleData.fs_poll_data f) =
      call_with f handle (some (status_of env status))
        (Args.fs_poll_args (stat_of prev) (stat_of curr))
  run_fs_poll_cb _ _ _ handle _ = pure tt

  -- The C callback.
  unfoldable pub uv_fs_poll_cb : Ptr → (status : ℤ) (prev curr : UvStat) → Eff (Unit {0})
  unfolding with_addl run_fs_poll_cb
  uv_fs_poll_cb handle status prev curr = with_addl handle (run_fs_poll_cb status prev curr handle)

unfoldable pub try_from : UvHandle → Ptr → Eff Conversion
unfolding convert
try_from libuv handle = convert libuv HandleType.fs_poll handle

module _ (libuv : UvHandle) (env : Env) where
  unfoldable pub new : Ptr → Eff Ptr
  unfolding new_handle
  new lp =
      new_handle libuv env lp Layout.uv_fs_poll_t InitCall.uv_fs_poll_init
        (AddlHandleData.fs_poll_data nil)

  unfoldable pub start : Ptr → (path : List ℕ) (interval : ℕ) → Callback → Eff (Unit {0})
  unfolding update_addl start_code c_string_new
  start handle path interval f = do
    s ← c_string_new path
    let uv_cb = use_c_callback CCallback.uv_fs_poll_cb f
    update_addl handle (set_fs_poll_cb f)
    start_code libuv env handle (StartCall.uv_fs_poll_start s interval) uv_cb

  unfoldable pub stop : Ptr → Eff (Unit {0})
  unfolding code_of
  stop handle = code_of libuv env handle CodeCall.uv_fs_poll_stop
