-- ===== src/Fs/Queries.antt =====
-- src/fs/mod.rs: what a file or a directory is.
pub mod Laws
use libuv_rs.Common.{ℕ, List}
use libuv_rs.Common.Int.{ℤ}
use libuv_rs.FsStat.{Stat, StatFs}
use libuv_rs.Memory.{Ptr, Callback, nil, CCallback, uv_fs_cb}
use libuv_rs.Memory.Effect.{Eff, ◌>>=◌, Env, use_c_callback, c_string_new}
use libuv_rs.Req.Fs.{
  FsReq, Uv, Dir, new, uv_fs_stat, uv_fs_fstat, uv_fs_lstat, uv_fs_statfs, uv_fs_readlink,
  uv_fs_realpath, uv_fs_opendir,
}
use libuv_rs.Fs.{
  submit, destroy_req_return_result, destroy_req_return_boxed_result, then_file, then_path,
  then_stat, then_dir, then_statfs, then_real_path,
}

-- `lp` is the loop, `fs_cb` the callback.
module _ (env : Env) (libuv : Uv) (lp : Ptr) where
  unfoldable pub do_fs_stat : (path : List ℕ) → Callback → Eff FsReq
  do_fs_stat path fs_cb = do
    let uv_cb = use_c_callback uv_fs_cb fs_cb
    path ← c_string_new path
    req ← new env libuv fs_cb
    submit env libuv lp req (uv_fs_stat path) uv_cb

  unfoldable pub fs_stat : (path : List ℕ) → Callback → Eff FsReq
  unfolding do_fs_stat
  fs_stat path fs_cb = do_fs_stat path fs_cb

  unfoldable pub fs_stat_sync : (path : List ℕ) → Eff Stat
  unfolding do_fs_stat
  fs_stat_sync path = do_fs_stat path nil >>= then_stat env libuv

  unfoldable pub do_fs_fstat : (file : ℤ) → Callback → Eff FsReq
  do_fs_fstat file fs_cb = do
    let uv_cb = use_c_callback uv_fs_cb fs_cb
    req ← new env libuv fs_cb
    submit env libuv lp req (uv_fs_fstat file) uv_cb

  unfoldable pub fs_fstat : (file : ℤ) → Callback → Eff FsReq
  unfolding do_fs_fstat
  fs_fstat file fs_cb = do_fs_fstat file fs_cb

  unfoldable pub fs_fstat_sync : (file : ℤ) → Eff Stat
  unfolding do_fs_fstat
  fs_fstat_sync file = do_fs_fstat file nil >>= then_stat env libuv

  unfoldable pub do_fs_lstat : (path : List ℕ) → Callback → Eff FsReq
  do_fs_lstat path fs_cb = do
    let uv_cb = use_c_callback uv_fs_cb fs_cb
    path ← c_string_new path
    req ← new env libuv fs_cb
    submit env libuv lp req (uv_fs_lstat path) uv_cb

  unfoldable pub fs_lstat : (path : List ℕ) → Callback → Eff FsReq
  unfolding do_fs_lstat
  fs_lstat path fs_cb = do_fs_lstat path fs_cb

  unfoldable pub fs_lstat_sync : (path : List ℕ) → Eff Stat
  unfolding do_fs_lstat
  fs_lstat_sync path = do_fs_lstat path nil >>= then_stat env libuv

  unfoldable pub do_fs_statfs : (path : List ℕ) → Callback → Eff FsReq
  do_fs_statfs path fs_cb = do
    let uv_cb = use_c_callback uv_fs_cb fs_cb
    path ← c_string_new path
    req ← new env libuv fs_cb
    submit env libuv lp req (uv_fs_statfs path) uv_cb

  unfoldable pub fs_statfs : (path : List ℕ) → Callback → Eff FsReq
  unfolding do_fs_statfs
  fs_statfs path fs_cb = do_fs_statfs path fs_cb

  unfoldable pub fs_statfs_sync : (path : List ℕ) → Eff StatFs
  unfolding do_fs_statfs
  fs_statfs_sync path = do_fs_statfs path nil >>= then_statfs env libuv

  unfoldable pub do_fs_readlink : (path : List ℕ) → Callback → Eff FsReq
  do_fs_readlink path fs_cb = do
    let uv_cb = use_c_callback uv_fs_cb fs_cb
    path ← c_string_new path
    req ← new env libuv fs_cb
    submit env libuv lp req (uv_fs_readlink path) uv_cb

  unfoldable pub fs_readlink : (path : List ℕ) → Callback → Eff FsReq
  unfolding do_fs_readlink
  fs_readlink path fs_cb = do_fs_readlink path fs_cb

  unfoldable pub fs_readlink_sync : (path : List ℕ) → Eff (List ℕ)
  unfolding do_fs_readlink
  fs_readlink_sync path = do_fs_readlink path nil >>= then_real_path env libuv

  unfoldable pub do_fs_realpath : (path : List ℕ) → Callback → Eff FsReq
  do_fs_realpath path fs_cb = do
    let uv_cb = use_c_callback uv_fs_cb fs_cb
    path ← c_string_new path
    req ← new env libuv fs_cb
    submit env libuv lp req (uv_fs_realpath path) uv_cb

  unfoldable pub fs_realpath : (path : List ℕ) → Callback → Eff FsReq
  unfolding do_fs_realpath
  fs_realpath path fs_cb = do_fs_realpath path fs_cb

  unfoldable pub fs_realpath_sync : (path : List ℕ) → Eff (List ℕ)
  unfolding do_fs_realpath
  fs_realpath_sync path = do_fs_realpath path nil >>= then_real_path env libuv

  unfoldable pub do_fs_opendir : (path : List ℕ) → Callback → Eff FsReq
  do_fs_opendir path fs_cb = do
    let uv_cb = use_c_callback uv_fs_cb fs_cb
    path ← c_string_new path
    req ← new env libuv fs_cb
    submit env libuv lp req (uv_fs_opendir path) uv_cb

  unfoldable pub fs_opendir : (path : List ℕ) → Callback → Eff FsReq
  unfolding do_fs_opendir
  fs_opendir path fs_cb = do_fs_opendir path fs_cb

  unfoldable pub fs_opendir_sync : (path : List ℕ) → Eff Dir
  unfolding do_fs_opendir
  fs_opendir_sync path = do_fs_opendir path nil >>= then_dir env libuv
