-- ===== src/Fs/Paths/Laws.antt =====
-- The operations of this group meet their specification.
use libuv_rs.Common.{◌≡◌, ℕ, List}
use libuv_rs.Common.Int.{ℤ}
use libuv_rs.Memory.{Ptr, Callback}
use libuv_rs.Memory.Effect.{Env, World, IsAllocator, ok, status_of, c_string_new}
use libuv_rs.Req.Fs.{
  Uv, uv_fs_unlink, uv_fs_mkdir, uv_fs_mkdtemp, uv_fs_mkstemp, uv_fs_rmdir, uv_fs_access,
  uv_fs_chmod, uv_fs_utime, uv_fs_open,
}
use libuv_rs.Fs.Spec.{submit_spec, sync_spec, with_text, by_text, by_text_then}
use libuv_rs.Fs.Laws.{submit_lem, sync_lem}
use libuv_rs.Fs.Finish.{
  file_result, destroy_req_return_boxed_result_lem, then_file_lem, then_path_lem,
}
use libuv_rs.Fs.Paths.{
  fs_unlink, fs_unlink_sync, fs_mkdir, fs_mkdir_sync, fs_mkdtemp, fs_mkdtemp_sync, fs_mkstemp,
  fs_mkstemp_sync, fs_rmdir, fs_rmdir_sync, fs_access, fs_access_sync, fs_chmod, fs_chmod_sync,
  fs_utime, fs_utime_sync, fs_open, fs_open_sync,
}

module _ (env : Env) (law : IsAllocator env) (libuv : Uv) (lp : Ptr) (w : World) where
  pub fs_unlink_lem :
      (path : List ℕ) (fs_cb : Callback)
      → fs_unlink env libuv lp path fs_cb w
        ≡ with_text path w (submit_spec env libuv lp (uv_fs_unlink path) w fs_cb)
  unfolding fs_unlink c_string_new
  fs_unlink_lem path fs_cb =
      by_text path w _ (submit_lem env law libuv lp w (uv_fs_unlink path) fs_cb)

  pub fs_mkdir_lem :
      (path : List ℕ) (mode : ℤ) (fs_cb : Callback)
      → fs_mkdir env libuv lp path mode fs_cb w
        ≡ with_text path w (submit_spec env libuv lp (uv_fs_mkdir path mode) w fs_cb)
  unfolding fs_mkdir c_string_new
  fs_mkdir_lem path mode fs_cb =
      by_text path w _ (submit_lem env law libuv lp w (uv_fs_mkdir path mode) fs_cb)

  pub fs_mkdtemp_lem :
      (tpl : List ℕ) (fs_cb : Callback)
      → fs_mkdtemp env libuv lp tpl fs_cb w
        ≡ with_text tpl w (submit_spec env libuv lp (uv_fs_mkdtemp tpl) w fs_cb)
  unfolding fs_mkdtemp c_string_new
  fs_mkdtemp_lem tpl fs_cb =
      by_text tpl w _ (submit_lem env law libuv lp w (uv_fs_mkdtemp tpl) fs_cb)

  pub fs_mkstemp_lem :
      (tpl : List ℕ) (fs_cb : Callback)
      → fs_mkstemp env libuv lp tpl fs_cb w
        ≡ with_text tpl w (submit_spec env libuv lp (uv_fs_mkstemp tpl) w fs_cb)
  unfolding fs_mkstemp c_string_new
  fs_mkstemp_lem tpl fs_cb =
      by_text tpl w _ (submit_lem env law libuv lp w (uv_fs_mkstemp tpl) fs_cb)

  pub fs_rmdir_lem :
      (path : List ℕ) (fs_cb : Callback)
      → fs_rmdir env libuv lp path fs_cb w
        ≡ with_text path w (submit_spec env libuv lp (uv_fs_rmdir path) w fs_cb)
  unfolding fs_rmdir c_string_new
  fs_rmdir_lem path fs_cb =
      by_text path w _ (submit_lem env law libuv lp w (uv_fs_rmdir path) fs_cb)

  pub fs_access_lem :
      (path : List ℕ) (mode : ℤ) (fs_cb : Callback)
      → fs_access env libuv lp path mode fs_cb w
        ≡ with_text path w (submit_spec env libuv lp (uv_fs_access path mode) w fs_cb)
  unfolding fs_access c_string_new
  fs_access_lem path mode fs_cb =
      by_text path w _ (submit_lem env law libuv lp w (uv_fs_access path mode) fs_cb)

  pub fs_chmod_lem :
      (path : List ℕ) (mode : ℤ) (fs_cb : Callback)
      → fs_chmod env libuv lp path mode fs_cb w
        ≡ with_text path w (submit_spec env libuv lp (uv_fs_chmod path mode) w fs_cb)
  unfolding fs_chmod c_string_new
  fs_chmod_lem path mode fs_cb =
      by_text path w _ (submit_lem env law libuv lp w (uv_fs_chmod path mode) fs_cb)

  pub fs_utime_lem :
      (path : List ℕ) (atime : ℕ) (mtime : ℕ) (fs_cb : Callback)
      → fs_utime env libuv lp path atime mtime fs_cb w
        ≡ with_text path w (submit_spec env libuv lp (uv_fs_utime path atime mtime) w fs_cb)
  unfolding fs_utime c_string_new
  fs_utime_lem path atime mtime fs_cb =
      by_text path w _ (submit_lem env law libuv lp w (uv_fs_utime path atime mtime) fs_cb)

  pub fs_open_lem :
      (path : List ℕ) (flags : ℤ) (mode : ℤ) (fs_cb : Callback)
      → fs_open env libuv lp path flags mode fs_cb w
        ≡ with_text path w (submit_spec env libuv lp (uv_fs_open path flags mode) w fs_cb)
  unfolding fs_open c_string_new
  fs_open_lem path flags mode fs_cb =
      by_text path w _ (submit_lem env law libuv lp w (uv_fs_open path flags mode) fs_cb)

  pub fs_unlink_sync_lem :
      (path : List ℕ)
      → fs_unlink_sync env libuv lp path w
        ≡ with_text path w
            (sync_spec env libuv lp (uv_fs_unlink path) w (λ g. status_of env g.result))
  unfolding fs_unlink_sync c_string_new
  fs_unlink_sync_lem path = by_text_then _ path w _ (
      sync_lem env law libuv lp w (uv_fs_unlink path) _ _
        (destroy_req_return_boxed_result_lem env libuv))

  pub fs_mkdir_sync_lem :
      (path : List ℕ) (mode : ℤ)
      → fs_mkdir_sync env libuv lp path mode w
        ≡ with_text path w
            (sync_spec env libuv lp (uv_fs_mkdir path mode) w (λ g. status_of env g.result))
  unfolding fs_mkdir_sync c_string_new
  fs_mkdir_sync_lem path mode = by_text_then _ path w _ (
      sync_lem env law libuv lp w (uv_fs_mkdir path mode) _ _
        (destroy_req_return_boxed_result_lem env libuv))

  pub fs_mkdtemp_sync_lem :
      (tpl : List ℕ)
      → fs_mkdtemp_sync env libuv lp tpl w
        ≡ with_text tpl w (sync_spec env libuv lp (uv_fs_mkdtemp tpl) w (λ g. ok g.path))
  unfolding fs_mkdtemp_sync c_string_new
  fs_mkdtemp_sync_lem tpl =
      by_text_then _ tpl w _
        (sync_lem env law libuv lp w (uv_fs_mkdtemp tpl) _ _ (then_path_lem env libuv))

  pub fs_mkstemp_sync_lem :
      (tpl : List ℕ)
      → fs_mkstemp_sync env libuv lp tpl w
        ≡ with_text tpl w
            (sync_spec env libuv lp (uv_fs_mkstemp tpl) w (λ g. status_of env g.result))
  unfolding fs_mkstemp_sync c_string_new
  fs_mkstemp_sync_lem tpl = by_text_then _ tpl w _ (
      sync_lem env law libuv lp w (uv_fs_mkstemp tpl) _ _
        (destroy_req_return_boxed_result_lem env libuv))

  pub fs_rmdir_sync_lem :
      (path : List ℕ)
      → fs_rmdir_sync env libuv lp path w
        ≡ with_text path w
            (sync_spec env libuv lp (uv_fs_rmdir path) w (λ g. status_of env g.result))
  unfolding fs_rmdir_sync c_string_new
  fs_rmdir_sync_lem path = by_text_then _ path w _ (
      sync_lem env law libuv lp w (uv_fs_rmdir path) _ _
        (destroy_req_return_boxed_result_lem env libuv))

  pub fs_access_sync_lem :
      (path : List ℕ) (mode : ℤ)
      → fs_access_sync env libuv lp path mode w
        ≡ with_text path w
            (sync_spec env libuv lp (uv_fs_access path mode) w (λ g. status_of env g.result))
  unfolding fs_access_sync c_string_new
  fs_access_sync_lem path mode = by_text_then _ path w _ (
      sync_lem env law libuv lp w (uv_fs_access path mode) _ _
        (destroy_req_return_boxed_result_lem env libuv))

  pub fs_chmod_sync_lem :
      (path : List ℕ) (mode : ℤ)
      → fs_chmod_sync env libuv lp path mode w
        ≡ with_text path w
            (sync_spec env libuv lp (uv_fs_chmod path mode) w (λ g. status_of env g.result))
  unfolding fs_chmod_sync c_string_new
  fs_chmod_sync_lem path mode = by_text_then _ path w _ (
      sync_lem env law libuv lp w (uv_fs_chmod path mode) _ _
        (destroy_req_return_boxed_result_lem env libuv))

  pub fs_utime_sync_lem :
      (path : List ℕ) (atime : ℕ) (mtime : ℕ)
      → fs_utime_sync env libuv lp path atime mtime w
        ≡ with_text path w
            (sync_spec env libuv lp (uv_fs_utime path atime mtime) w (λ g. status_of env g.result))
  unfolding fs_utime_sync c_string_new
  fs_utime_sync_lem path atime mtime = by_text_then _ path w _ (
      sync_lem env law libuv lp w (uv_fs_utime path atime mtime) _ _
        (destroy_req_return_boxed_result_lem env libuv))

  pub fs_open_sync_lem :
      (path : List ℕ) (flags : ℤ) (mode : ℤ)
      → fs_open_sync env libuv lp path flags mode w
        ≡ with_text path w (
            sync_spec env libuv lp
              (uv_fs_open path flags mode)
              w
              (λ g. file_result (status_of env g.result)))
  unfolding fs_open_sync c_string_new
  fs_open_sync_lem path flags mode =
      by_text_then _ path w _
        (sync_lem env law libuv lp w (uv_fs_open path flags mode) _ _ (then_file_lem env libuv))
