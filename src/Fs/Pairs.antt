-- ===== src/Fs/Pairs.antt =====
-- src/fs/mod.rs: operations on two paths.
pub mod Laws
use libuv_rs.Common.{ℕ, List}
use libuv_rs.Common.Int.{ℤ}
use libuv_rs.FsStat.{Stat, StatFs}
use libuv_rs.Memory.{Ptr, Callback, nil, CCallback, uv_fs_cb}
use libuv_rs.Memory.Effect.{Eff, ◌>>=◌, Env, use_c_callback, c_string_new}
use libuv_rs.Req.Fs.{FsReq, Uv, Dir, new, uv_fs_rename, uv_fs_copyfile, uv_fs_link, uv_fs_symlink}
use libuv_rs.Fs.{
  submit, destroy_req_return_result, destroy_req_return_boxed_result, then_file, then_path,
  then_stat, then_dir, then_statfs, then_real_path,
}

-- `lp` is the loop, `fs_cb` the callback.
module _ (env : Env) (libuv : Uv) (lp : Ptr) where
  unfoldable pub do_fs_rename : (path : List ℕ) → (new_path : List ℕ) → Callback → Eff FsReq
  do_fs_rename path new_path fs_cb = do
    let uv_cb = use_c_callback uv_fs_cb fs_cb
    path ← c_string_new path
    new_path ← c_string_new new_path
    req ← new env libuv fs_cb
    submit env libuv lp req (uv_fs_rename path new_path) uv_cb

  unfoldable pub fs_rename : (path : List ℕ) → (new_path : List ℕ) → Callback → Eff FsReq
  unfolding do_fs_rename
  fs_rename path new_path fs_cb = do_fs_rename path new_path fs_cb

  unfoldable pub fs_rename_sync : (path : List ℕ) → (new_path : List ℕ) → Eff ℕ
  unfolding do_fs_rename
  fs_rename_sync path new_path =
      do_fs_rename path new_path nil >>= destroy_req_return_boxed_result env libuv

  unfoldable pub do_fs_copyfile :
      (path : List ℕ) → (new_path : List ℕ) → (flags : ℤ) → Callback → Eff FsReq
  do_fs_copyfile path new_path flags fs_cb = do
    let uv_cb = use_c_callback uv_fs_cb fs_cb
    path ← c_string_new path
    new_path ← c_string_new new_path
    req ← new env libuv fs_cb
    submit env libuv lp req (uv_fs_copyfile path new_path flags) uv_cb

  unfoldable pub fs_copyfile :
      (path : List ℕ) → (new_path : List ℕ) → (flags : ℤ) → Callback → Eff FsReq
  unfolding do_fs_copyfile
  fs_copyfile path new_path flags fs_cb = do_fs_copyfile path new_path flags fs_cb

  unfoldable pub fs_copyfile_sync : (path : List ℕ) → (new_path : List ℕ) → (flags : ℤ) → Eff ℕ
  unfolding do_fs_copyfile
  fs_copyfile_sync path new_path flags =
      do_fs_copyfile path new_path flags nil >>= destroy_req_return_boxed_result env libuv

  unfoldable pub do_fs_link : (path : List ℕ) → (new_path : List ℕ) → Callback → Eff FsReq
  do_fs_link path new_path fs_cb = do
    let uv_cb = use_c_callback uv_fs_cb fs_cb
    path ← c_string_new path
    new_path ← c_string_new new_path
    req ← new env libuv fs_cb
    submit env libuv lp req (uv_fs_link path new_path) uv_cb

  unfoldable pub fs_link : (path : List ℕ) → (new_path : List ℕ) → Callback → Eff FsReq
  unfolding do_fs_link
  fs_link path new_path fs_cb = do_fs_link path new_path fs_cb

  unfoldable pub fs_link_sync : (path : List ℕ) → (new_path : List ℕ) → Eff ℕ
  unfolding do_fs_link
  fs_link_sync path new_path =
      do_fs_link path new_path nil >>= destroy_req_return_boxed_result env libuv

  unfoldable pub do_fs_symlink :
      (path : List ℕ) → (new_path : List ℕ) → (flags : ℤ) → Callback → Eff FsReq
  do_fs_symlink path new_path flags fs_cb = do
    let uv_cb = use_c_callback uv_fs_cb fs_cb
    path ← c_string_new path
    new_path ← c_string_new new_path
    req ← new env libuv fs_cb
    submit env libuv lp req (uv_fs_symlink path new_path flags) uv_cb

  unfoldable pub fs_symlink :
      (path : List ℕ) → (new_path : List ℕ) → (flags : ℤ) → Callback → Eff FsReq
  unfolding do_fs_symlink
  fs_symlink path new_path flags fs_cb = do_fs_symlink path new_path flags fs_cb

  unfoldable pub fs_symlink_sync : (path : List ℕ) → (new_path : List ℕ) → (flags : ℤ) → Eff ℕ
  unfolding do_fs_symlink
  fs_symlink_sync path new_path flags =
      do_fs_symlink path new_path flags nil >>= destroy_req_return_boxed_result env libuv
