-- ===== src/Fs/Files/Laws.antt =====
-- The operations of this group meet their specification.
use libuv_rs.Common.{◌≡◌, ℕ}
use libuv_rs.Common.Int.{ℤ}
use libuv_rs.Memory.{Ptr, Callback}
use libuv_rs.Memory.Effect.{Env, World, IsAllocator, status_of}
use libuv_rs.Req.Fs.{
  Uv, uv_fs_close, uv_fs_fsync, uv_fs_fdatasync, uv_fs_ftruncate, uv_fs_sendfile, uv_fs_fchmod,
  uv_fs_futime, uv_fs_closedir,
}
use libuv_rs.Fs.Spec.{submit_spec, sync_spec}
use libuv_rs.Fs.Laws.{submit_lem, sync_lem}
use libuv_rs.Fs.Finish.{destroy_req_return_result_lem}
use libuv_rs.Fs.Files.{
  fs_close, fs_close_sync, fs_fsync, fs_fsync_sync, fs_fdatasync, fs_fdatasync_sync, fs_ftruncate,
  fs_ftruncate_sync, fs_sendfile, fs_sendfile_sync, fs_fchmod, fs_fchmod_sync, fs_futime,
  fs_futime_sync, fs_closedir, fs_closedir_sync,
}

module _ (env : Env) (law : IsAllocator env) (libuv : Uv) (lp : Ptr) (w : World) where
  pub fs_close_lem :
      (file : ℤ) (fs_cb : Callback)
      → fs_close env libuv lp file fs_cb w ≡ submit_spec env libuv lp (uv_fs_close file) w fs_cb
  unfolding fs_close
  fs_close_lem file fs_cb = submit_lem env law libuv lp w (uv_fs_close file) fs_cb

  pub fs_fsync_lem :
      (file : ℤ) (fs_cb : Callback)
      → fs_fsync env libuv lp file fs_cb w ≡ submit_spec env libuv lp (uv_fs_fsync file) w fs_cb
  unfolding fs_fsync
  fs_fsync_lem file fs_cb = submit_lem env law libuv lp w (uv_fs_fsync file) fs_cb

  pub fs_fdatasync_lem :
      (file : ℤ) (fs_cb : Callback)
      → fs_fdatasync env libuv lp file fs_cb w
        ≡ submit_spec env libuv lp (uv_fs_fdatasync file) w fs_cb
  unfolding fs_fdatasync
  fs_fdatasync_lem file fs_cb = submit_lem env law libuv lp w (uv_fs_fdatasync file) fs_cb

  pub fs_ftruncate_lem :
      (file : ℤ) (offset : ℤ) (fs_cb : Callback)
      → fs_ftruncate env libuv lp file offset fs_cb w
        ≡ submit_spec env libuv lp (uv_fs_ftruncate file offset) w fs_cb
  unfolding fs_ftruncate
  fs_ftruncate_lem file offset fs_cb =
      submit_lem env law libuv lp w (uv_fs_ftruncate file offset) fs_cb

  pub fs_sendfile_lem :
      (out_file : ℤ) (in_file : ℤ) (offset : ℤ) (len : ℕ) (fs_cb : Callback)
      → fs_sendfile env libuv lp out_file in_file offset len fs_cb w
        ≡ submit_spec env libuv lp (uv_fs_sendfile out_file in_file offset len) w fs_cb
  unfolding fs_sendfile
  fs_sendfile_lem out_file in_file offset len fs_cb =
      submit_lem env law libuv lp w (uv_fs_sendfile out_file in_file offset len) fs_cb

  pub fs_fchmod_lem :
      (file : ℤ) (mode : ℤ) (fs_cb : Callback)
      → fs_fchmod env libuv lp file mode fs_cb w
        ≡ submit_spec env libuv lp (uv_fs_fchmod file mode) w fs_cb
  unfolding fs_fchmod
  fs_fchmod_lem file mode fs_cb = submit_lem env law libuv lp w (uv_fs_fchmod file mode) fs_cb

  pub fs_futime_lem :
      (file : ℤ) (atime : ℕ) (mtime : ℕ) (fs_cb : Callback)
      → fs_futime env libuv lp file atime mtime fs_cb w
        ≡ submit_spec env libuv lp (uv_fs_futime file atime mtime) w fs_cb
  unfolding fs_futime
  fs_futime_lem file atime mtime fs_cb =
      submit_lem env law libuv lp w (uv_fs_futime file atime mtime) fs_cb

  pub fs_closedir_lem :
      (dir : Ptr) (fs_cb : Callback)
      → fs_closedir env libuv lp dir fs_cb w ≡ submit_spec env libuv lp (uv_fs_closedir dir) w fs_cb
  unfolding fs_closedir
  fs_closedir_lem dir fs_cb = submit_lem env law libuv lp w (uv_fs_closedir dir) fs_cb

  pub fs_close_sync_lem :
      (file : ℤ)
      → fs_close_sync env libuv lp file w
        ≡ sync_spec env libuv lp (uv_fs_close file) w (λ g. status_of env g.result)
  unfolding fs_close_sync
  fs_close_sync_lem file =
      sync_lem env law libuv lp w (uv_fs_close file) _ _ (destroy_req_return_result_lem env libuv)

  pub fs_fsync_sync_lem :
      (file : ℤ)
      → fs_fsync_sync env libuv lp file w
        ≡ sync_spec env libuv lp (uv_fs_fsync file) w (λ g. status_of env g.result)
  unfolding fs_fsync_sync
  fs_fsync_sync_lem file =
      sync_lem env law libuv lp w (uv_fs_fsync file) _ _ (destroy_req_return_result_lem env libuv)

  pub fs_fdatasync_sync_lem :
      (file : ℤ)
      → fs_fdatasync_sync env libuv lp file w
        ≡ sync_spec env libuv lp (uv_fs_fdatasync file) w (λ g. status_of env g.result)
  unfolding fs_fdatasync_sync
  fs_fdatasync_sync_lem file =
      sync_lem env law libuv lp w (uv_fs_fdatasync file) _ _
        (destroy_req_return_result_lem env libuv)

  pub fs_ftruncate_sync_lem :
      (file : ℤ) (offset : ℤ)
      → fs_ftruncate_sync env libuv lp file offset w
        ≡ sync_spec env libuv lp (uv_fs_ftruncate file offset) w (λ g. status_of env g.result)
  unfolding fs_ftruncate_sync
  fs_ftruncate_sync_lem file offset =
      sync_lem env law libuv lp w (uv_fs_ftruncate file offset) _ _
        (destroy_req_return_result_lem env libuv)

  pub fs_sendfile_sync_lem :
      (out_file : ℤ) (in_file : ℤ) (offset : ℤ) (len : ℕ)
      → fs_sendfile_sync env libuv lp out_file in_file offset len w
        ≡ sync_spec env libuv lp
            (uv_fs_sendfile out_file in_file offset len)
            w
            (λ g. status_of env g.result)
  unfolding fs_sendfile_sync
  fs_sendfile_sync_lem out_file in_file offset len =
      sync_lem env law libuv lp w (uv_fs_sendfile out_file in_file offset len) _ _
        (destroy_req_return_result_lem env libuv)

  pub fs_fchmod_sync_lem :
      (file : ℤ) (mode : ℤ)
      → fs_fchmod_sync env libuv lp file mode w
        ≡ sync_spec env libuv lp (uv_fs_fchmod file mode) w (λ g. status_of env g.result)
  unfolding fs_fchmod_sync
  fs_fchmod_sync_lem file mode =
      sync_lem env law libuv lp w (uv_fs_fchmod file mode) _ _
        (destroy_req_return_result_lem env libuv)

  pub fs_futime_sync_lem :
      (file : ℤ) (atime : ℕ) (mtime : ℕ)
      → fs_futime_sync env libuv lp file atime mtime w
        ≡ sync_spec env libuv lp (uv_fs_futime file atime mtime) w (λ g. status_of env g.result)
  unfolding fs_futime_sync
  fs_futime_sync_lem file atime mtime =
      sync_lem env law libuv lp w (uv_fs_futime file atime mtime) _ _
        (destroy_req_return_result_lem env libuv)

  pub fs_closedir_sync_lem :
      (dir : Ptr)
      → fs_closedir_sync env libuv lp dir w
        ≡ sync_spec env libuv lp (uv_fs_closedir dir) w (λ g. status_of env g.result)
  unfolding fs_closedir_sync
  fs_closedir_sync_lem dir =
      sync_lem env law libuv lp w (uv_fs_closedir dir) _ _ (destroy_req_return_result_lem env libuv)
