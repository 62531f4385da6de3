-- ===== src/Fs/Owners.antt =====
-- src/fs/mod.rs: the owner of a file.
pub mod Laws
use libuv_rs.Common.{ℕ, List}
use libuv_rs.Common.Int.{ℤ}
use libuv_rs.FsStat.{Stat, StatFs}
use libuv_rs.Memory.{Ptr, Callback, nil, CCallback, uv_fs_cb}
use libuv_rs.Memory.Effect.{Eff, ◌>>=◌, Env, use_c_callback, c_string_new}
use libuv_rs.Req.Fs.{FsReq, Uv, Dir, new, uv_fs_chown, uv_fs_fchown, uv_fs_lchown}
use libuv_rs.Fs.{
  submit, destroy_req_return_result, destroy_req_return_boxed_result, then_file, then_path,
  then_stat, then_dir, then_statfs, then_real_path,
}

-- `lp` is the loop, `fs_cb` the callback.
module _ (env : Env) (libuv : Uv) (lp : Ptr) where
  unfoldable pub do_fs_chown : (path : List ℕ) → (uid : ℕ) → (gid : ℕ) → Callback → Eff FsReq
  do_fs_chown path uid gid fs_cb = do
    let uv_cb = use_c_callback uv_fs_cb fs_cb
    path ← c_string_new path
    req ← new env libuv fs_cb
    submit env libuv lp req (uv_fs_chown path uid gid) uv_cb

  unfoldable pub fs_chown : (path : List ℕ) → (uid : ℕ) → (gid : ℕ) → Callback → Eff FsReq
  unfolding do_fs_chown
  fs_chown path uid gid fs_cb = do_fs_chown path uid gid fs_cb

  unfoldable pub fs_chown_sync : (path : List ℕ) → (uid : ℕ) → (gid : ℕ) → Eff ℕ
  unfolding do_fs_chown
  fs_chown_sync path uid gid =
      do_fs_chown path uid gid nil >>= destroy_req_return_boxed_result env libuv

  unfoldable pub do_fs_fchown : (file : ℤ) → (uid : ℕ) → (gid : ℕ) → Callback → Eff FsReq
  do_fs_fchown file uid gid fs_cb = do
    let uv_cb = use_c_callback uv_fs_cb fs_cb
    req ← new env libuv fs_cb
    submit env libuv lp req (uv_fs_fchown file uid gid) uv_cb

  unfoldable pub fs_fchown : (file : ℤ) → (uid : ℕ) → (gid : ℕ) → Callback → Eff FsReq
  unfolding do_fs_fchown
  fs_fchown file uid gid fs_cb = do_fs_fchown file uid gid fs_cb

  unfoldable pub fs_fchown_sync : (file : ℤ) → (uid : ℕ) → (gid : ℕ) → Eff ℕ
  unfolding do_fs_fchown
  fs_fchown_sync file uid gid =
      do_fs_fchown file uid gid nil >>= destroy_req_return_result env libuv

  unfoldable pub do_fs_lchown : (path : List ℕ) → (uid : ℕ) → (gid : ℕ) → Callback → Eff FsReq
  do_fs_lchown path uid gid fs_cb = do
    let uv_cb = use_c_callback uv_fs_cb fs_cb
    path ← c_string_new path
    req ← new env libuv fs_cb
    submit env libuv lp req (uv_fs_lchown path uid gid) uv_cb

  unfoldable pub fs_lchown : (path : List ℕ) → (uid : ℕ) → (gid : ℕ) → Callback → Eff FsReq
  unfolding do_fs_lchown
  fs_lchown path uid gid fs_cb = do_fs_lchown path uid gid fs_cb

  unfoldable pub fs_lchown_sync : (path : List ℕ) → (uid : ℕ) → (gid : ℕ) → Eff ℕ
  unfolding do_fs_lchown
  fs_lchown_sync path uid gid =
      do_fs_lchown path uid gid nil >>= destroy_req_return_boxed_result env libuv
