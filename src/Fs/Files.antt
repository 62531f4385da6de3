-- ===== src/Fs/Files.antt =====
-- src/fs/mod.rs: operations on an open file.
pub mod Laws
use libuv_rs.Common.{ℕ, List}
use libuv_rs.Common.Int.{ℤ}
use libuv_rs.FsStat.{Stat, StatFs}
use libuv_rs.Memory.{Ptr, Callback, nil, CCallback, uv_fs_cb}
use libuv_rs.Memory.Effect.{Eff, ◌>>=◌, Env, use_c_callback, c_string_new}
use libuv_rs.Req.Fs.{
  FsReq, Uv, Dir, new, uv_fs_close, uv_fs_fsync, uv_fs_fdatasync, uv_fs_ftruncate, uv_fs_sendfile,
  uv_fs_fchmod, uv_fs_futime, uv_fs_closedir,
}
use libuv_rs.Fs.{
  submit, destroy_req_return_result, destroy_req_return_boxed_result, then_file, then_path,
  then_stat, then_dir, then_statfs, then_real_path,
}

-- `lp` is the loop, `fs_cb` the callback.
module _ (env : Env) (libuv : Uv) (lp : Ptr) where
  unfoldable pub do_fs_close : (file : ℤ) → Callback → Eff FsReq
  do_fs_close file fs_cb = do
    let uv_cb = use_c_callback uv_fs_cb fs_cb
    req ← new env libuv fs_cb
    submit env libuv lp req (uv_fs_close file) uv_cb

  unfoldable pub fs_close : (file : ℤ) → Callback → Eff FsReq
  unfolding do_fs_close
  fs_close file fs_cb = do_fs_close file fs_cb

  unfoldable pub fs_close_sync : (file : ℤ) → Eff ℕ
  unfolding do_fs_close
  fs_close_sync file = do_fs_close file nil >>= destroy_req_return_result env libuv

  unfoldable pub do_fs_fsync : (file : ℤ) → Callback → Eff FsReq
  do_fs_fsync file fs_cb = do
    let uv_cb = use_c_callback uv_fs_cb fs_cb
    req ← new env libuv fs_cb
    submit env libuv lp req (uv_fs_fsync file) uv_cb

  unfoldable pub fs_fsync : (file : ℤ) → Callback → Eff FsReq
  unfolding do_fs_fsync
  fs_fsync file fs_cb = do_fs_fsync file fs_cb

  unfoldable pub fs_fsync_sync : (file : ℤ) → Eff ℕ
  unfolding do_fs_fsync
  fs_fsync_sync file = do_fs_fsync file nil >>= destroy_req_return_result env libuv

  unfoldable pub do_fs_fdatasync : (file : ℤ) → Callback → Eff FsReq
  do_fs_fdatasync file fs_cb = do
    let uv_cb = use_c_callback uv_fs_cb fs_cb
    req ← new env libuv fs_cb
    submit env libuv lp req (uv_fs_fdatasync file) uv_cb

  unfoldable pub fs_fdatasync : (file : ℤ) → Callback → Eff FsReq
  unfolding do_fs_fdatasync
  fs_fdatasync file fs_cb = do_fs_fdatasync file fs_cb

  unfoldable pub fs_fdatasync_sync : (file : ℤ) → Eff ℕ
  unfolding do_fs_fdatasync
  fs_fdatasync_sync file = do_fs_fdatasync file nil >>= destroy_req_return_result env libuv

  unfoldable pub do_fs_ftruncate : (file : ℤ) → (offset : ℤ) → Callback → Eff FsReq
  do_fs_ftruncate file offset fs_cb = do
    let uv_cb = use_c_callback uv_fs_cb fs_cb
    req ← new env libuv fs_cb
    submit env libuv lp req (uv_fs_ftruncate file offset) uv_cb

  unfoldable pub fs_ftruncate : (file : ℤ) → (offset : ℤ) → Callback → Eff FsReq
  unfolding do_fs_ftruncate
  fs_ftruncate file offset fs_cb = do_fs_ftruncate file offset fs_cb

  unfoldable pub fs_ftruncate_sync : (file : ℤ) → (offset : ℤ) → Eff ℕ
  unfolding do_fs_ftruncate
  fs_ftruncate_sync file offset =
      do_fs_ftruncate file offset nil >>= destroy_req_return_result env libuv

  unfoldable pub do_fs_sendfile :
      (out_file : ℤ) → (in_file : ℤ) → (offset : ℤ) → (len : ℕ) → Callback → Eff FsReq
  do_fs_sendfile out_file in_file offset len fs_cb = do
    let uv_cb = use_c_callback uv_fs_cb fs_cb
    req ← new env libuv fs_cb
    submit env libuv lp req (uv_fs_sendfile out_file in_file offset len) uv_cb

  unfoldable pub fs_sendfile :
      (out_file : ℤ) → (in_file : ℤ) → (offset : ℤ) → (len : ℕ) → Callback → Eff FsReq
  unfolding do_fs_sendfile
  fs_sendfile out_file in_file offset len fs_cb = do_fs_sendfile out_file in_file offset len fs_cb

  unfoldable pub fs_sendfile_sync :
      (out_file : ℤ) → (in_file : ℤ) → (offset : ℤ) → (len : ℕ) → Eff ℕ
  unfolding do_fs_sendfile
  fs_sendfile_sync out_file in_file offset len =
      do_fs_sendfile out_file in_file offset len nil >>= destroy_req_return_result env libuv

  unfoldable pub do_fs_fchmod : (file : ℤ) → (mode : ℤ) → Callback → Eff FsReq
  do_fs_fchmod file mode fs_cb = do
    let uv_cb = use_c_callback uv_fs_cb fs_cb
    req ← new env libuv fs_cb
    submit env libuv lp req (uv_fs_fchmod file mode) uv_cb

  unfoldable pub fs_fchmod : (file : ℤ) → (mode : ℤ) → Callback → Eff FsReq
  unfolding do_fs_fchmod
  fs_fchmod file mode fs_cb = do_fs_fchmod file mode fs_cb

  unfoldable pub fs_fchmod_sync : (file : ℤ) → (mode : ℤ) → Eff ℕ
  unfolding do_fs_fchmod
  fs_fchmod_sync file mode = do_fs_fchmod file mode nil >>= destroy_req_return_result env libuv

  unfoldable pub do_fs_futime : (file : ℤ) → (atime : ℕ) → (mtime : ℕ) → Callback → Eff FsReq
  do_fs_futime file atime mtime fs_cb = do
    let uv_cb = use_c_callback uv_fs_cb fs_cb
    req ← new env libuv fs_cb
    submit env libuv lp req (uv_fs_futime file atime mtime) uv_cb

  unfoldable pub fs_futime : (file : ℤ) → (atime : ℕ) → (mtime : ℕ) → Callback → Eff FsReq
  unfolding do_fs_futime
  fs_futime file atime mtime fs_cb = do_fs_futime file atime mtime fs_cb

  unfoldable pub fs_futime_sync : (file : ℤ) → (atime : ℕ) → (mtime : ℕ) → Eff ℕ
  unfolding do_fs_futime
  fs_futime_sync file atime mtime =
      do_fs_futime file atime mtime nil >>= destroy_req_return_result env libuv

  unfoldable pub do_fs_closedir : (dir : Ptr) → Callback → Eff FsReq
  do_fs_closedir dir fs_cb = do
    let uv_cb = use_c_callback uv_fs_cb fs_cb
    req ← new env libuv fs_cb
    submit env libuv lp req (uv_fs_closedir dir) uv_cb

  unfoldable pub fs_closedir : (dir : Ptr) → Callback → Eff FsReq
  unfolding do_fs_closedir
  fs_closedir dir fs_cb = do_fs_closedir dir fs_cb

  unfoldable pub fs_closedir_sync : (dir : Ptr) → Eff ℕ
  unfolding do_fs_closedir
  fs_closedir_sync dir = do_fs_closedir dir nil >>= destroy_req_return_result env libuv
