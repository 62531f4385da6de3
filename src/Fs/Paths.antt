-- ===== src/Fs/Paths.antt =====
-- src/fs/mod.rs: operations on one path.
pub mod Laws
use libuv_rs.Common.{ℕ, List}
use libuv_rs.Common.Int.{ℤ}
use libuv_rs.FsStat.{Stat, StatFs}
use libuv_rs.Memory.{Ptr, Callback, nil, CCallback, uv_fs_cb}
use libuv_rs.Memory.Effect.{Eff, ◌>>=◌, Env, use_c_callback, c_string_new}
use libuv_rs.Req.Fs.{
  FsReq, Uv, Dir, new, uv_fs_unlink, uv_fs_mkdir, uv_fs_mkdtemp, uv_fs_mkstemp, uv_fs_rmdir,
  uv_fs_access, uv_fs_chmod, uv_fs_utime, uv_fs_open,
}
use libuv_rs.Fs.{
  submit, destroy_req_return_result, destroy_req_return_boxed_result, then_file, then_path,
  then_stat, then_dir, then_statfs, then_real_path,
}

-- `lp` is the loop, `fs_cb` the callback.
module _ (env : Env) (libuv : Uv) (lp : Ptr) where
  unfoldable pub do_fs_unlink : (path : List ℕ) → Callback → Eff FsReq
  do_fs_unlink path fs_cb = do
    let uv_cb = use_c_callback uv_fs_cb fs_cb
    path ← c_string_new path
    req ← new env libuv fs_cb
    submit env libuv lp req (uv_fs_unlink path) uv_cb

  unfoldable pub fs_unlink : (path : List ℕ) → Callback → Eff FsReq
  unfolding do_fs_unlink
  fs_unlink path fs_cb = do_fs_unlink path fs_cb

  unfoldable pub fs_unlink_sync : (path : List ℕ) → Eff ℕ
  unfolding do_fs_unlink
  fs_unlink_sync path = do_fs_unlink path nil >>= destroy_req_return_boxed_result env libuv

  unfoldable pub do_fs_mkdir : (path : List ℕ) → (mode : ℤ) → Callback → Eff FsReq
  do_fs_mkdir path mode fs_cb = do
    let uv_cb = use_c_callback uv_fs_cb fs_cb
    path ← c_string_new path
    req ← new env libuv fs_cb
    submit env libuv lp req (uv_fs_mkdir path mode) uv_cb

  unfoldable pub fs_mkdir : (path : List ℕ) → (mode : ℤ) → Callback → Eff FsReq
  unfolding do_fs_mkdir
  fs_mkdir path mode fs_cb = do_fs_mkdir path mode fs_cb

  unfoldable pub fs_mkdir_sync : (path : List ℕ) → (mode : ℤ) → Eff ℕ
  unfolding do_fs_mkdir
  fs_mkdir_sync path mode = do_fs_mkdir path mode nil >>= destroy_req_return_boxed_result env libuv

  unfoldable pub do_fs_mkdtemp : (tpl : List ℕ) → Callback → Eff FsReq
  do_fs_mkdtemp tpl fs_cb = do
    let uv_cb = use_c_callback uv_fs_cb fs_cb
    tpl ← c_string_new tpl
    req ← new env libuv fs_cb
    submit env libuv lp req (uv_fs_mkdtemp tpl) uv_cb

  unfoldable pub fs_mkdtemp : (tpl : List ℕ) → Callback → Eff FsReq
  unfolding do_fs_mkdtemp
  fs_mkdtemp tpl fs_cb = do_fs_mkdtemp tpl fs_cb

  unfoldable pub fs_mkdtemp_sync : (tpl : List ℕ) → Eff (List ℕ)
  unfolding do_fs_mkdtemp
  fs_mkdtemp_sync tpl = do_fs_mkdtemp tpl nil >>= then_path env libuv

  unfoldable pub do_fs_mkstemp : (tpl : List ℕ) → Callback → Eff FsReq
  do_fs_mkstemp tpl fs_cb = do
    let uv_cb = use_c_callback uv_fs_cb fs_cb
    tpl ← c_string_new tpl
    req ← new env libuv fs_cb
    submit env libuv lp req (uv_fs_mkstemp tpl) uv_cb

  unfoldable pub fs_mkstemp : (tpl : List ℕ) → Callback → Eff FsReq
  unfolding do_fs_mkstemp
  fs_mkstemp tpl fs_cb = do_fs_mkstemp tpl fs_cb

  unfoldable pub fs_mkstemp_sync : (tpl : List ℕ) → Eff ℕ
  unfolding do_fs_mkstemp
  fs_mkstemp_sync tpl = do_fs_mkstemp tpl nil >>= destroy_req_return_boxed_result env libuv

  unfoldable pub do_fs_rmdir : (path : List ℕ) → Callback → Eff FsReq
  do_fs_rmdir path fs_cb = do
    let uv_cb = use_c_callback uv_fs_cb fs_cb
    path ← c_string_new path
    req ← new env libuv fs_cb
    submit env libuv lp req (uv_fs_rmdir path) uv_cb

  unfoldable pub fs_rmdir : (path : List ℕ) → Callback → Eff FsReq
  unfolding do_fs_rmdir
  fs_rmdir path fs_cb = do_fs_rmdir path fs_cb

  unfoldable pub fs_rmdir_sync : (path : List ℕ) → Eff ℕ
  unfolding do_fs_rmdir
  fs_rmdir_sync path = do_fs_rmdir path nil >>= destroy_req_return_boxed_result env libuv

  unfoldable pub do_fs_access : (path : List ℕ) → (mode : ℤ) → Callback → Eff FsReq
  do_fs_access path mode fs_cb = do
    let uv_cb = use_c_callback uv_fs_cb fs_cb
    path ← c_string_new path
    req ← new env libuv fs_cb
    submit env libuv lp req (uv_fs_access path mode) uv_cb

  unfoldable pub fs_access : (path : List ℕ) → (mode : ℤ) → Callback → Eff FsReq
  unfolding do_fs_access
  fs_access path mode fs_cb = do_fs_access path mode fs_cb

  unfoldable pub fs_access_sync : (path : List ℕ) → (mode : ℤ) → Eff ℕ
  unfolding do_fs_access
  fs_access_sync path mode =
      do_fs_access path mode nil >>= destroy_req_return_boxed_result env libuv

  unfoldable pub do_fs_chmod : (path : List ℕ) → (mode : ℤ) → Callback → Eff FsReq
  do_fs_chmod path mode fs_cb = do
    let uv_cb = use_c_callback uv_fs_cb fs_cb
    path ← c_string_new path
    req ← new env libuv fs_cb
    submit env libuv lp req (uv_fs_chmod path mode) uv_cb

  unfoldable pub fs_chmod : (path : List ℕ) → (mode : ℤ) → Callback → Eff FsReq
  unfolding do_fs_chmod
  fs_chmod path mode fs_cb = do_fs_chmod path mode fs_cb

  unfoldable pub fs_chmod_sync : (path : List ℕ) → (mode : ℤ) → Eff ℕ
  unfolding do_fs_chmod
  fs_chmod_sync path mode = do_fs_chmod path mode nil >>= destroy_req_return_boxed_result env libuv

  unfoldable pub do_fs_utime : (path : List ℕ) → (atime : ℕ) → (mtime : ℕ) → Callback → Eff FsReq
  do_fs_utime path atime mtime fs_cb = do
    let uv_cb = use_c_callback uv_fs_cb fs_cb
    path ← c_string_new path
    req ← new env libuv fs_cb
    submit env libuv lp req (uv_fs_utime path atime mtime) uv_cb

  unfoldable pub fs_utime : (path : List ℕ) → (atime : ℕ) → (mtime : ℕ) → Callback → Eff FsReq
  unfolding do_fs_utime
  fs_utime path atime mtime fs_cb = do_fs_utime path atime mtime fs_cb

  unfoldable pub fs_utime_sync : (path : List ℕ) → (atime : ℕ) → (mtime : ℕ) → Eff ℕ
  unfolding do_fs_utime
  fs_utime_sync path atime mtime =
      do_fs_utime path atime mtime nil >>= destroy_req_return_boxed_result env libuv

  unfoldable pub do_fs_open : (path : List ℕ) → (flags : ℤ) → (mode : ℤ) → Callback → Eff FsReq
  do_fs_open path flags mode fs_cb = do
    let uv_cb = use_c_callback uv_fs_cb fs_cb
    path ← c_string_new path
    req ← new env libuv fs_cb
    submit env libuv lp req (uv_fs_open path flags mode) uv_cb

  unfoldable pub fs_open : (path : List ℕ) → (flags : ℤ) → (mode : ℤ) → Callback → Eff FsReq
  unfolding do_fs_open
  fs_open path flags mode fs_cb = do_fs_open path flags mode fs_cb

  unfoldable pub fs_open_sync : (path : List ℕ) → (flags : ℤ) → (mode : ℤ) → Eff ℤ
  unfolding do_fs_open
  fs_open_sync path flags mode = do_fs_open path flags mode nil >>= then_file env libuv
