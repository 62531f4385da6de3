-- ===== src/Fs/Bufs.antt =====
-- src/fs/mod.rs: reading and writing with several buffers.
pub mod Laws
use libuv_rs.Common.{ℕ, List}
use libuv_rs.Common.Int.{ℤ}
use libuv_rs.Memory.{Ptr, Callback, nil, UvBuf, uv_fs_cb}
use libuv_rs.Memory.Effect.{Eff, ◌>>=◌, Env, use_c_callback}
use libuv_rs.BufVec.{bufs_into_inner}
use libuv_rs.Req.Fs.{FsReq, Uv, new, uv_fs_read, uv_fs_write}
use libuv_rs.Fs.{submit, destroy_req_return_result}

-- `bufs` are the structures that the buffers of the caller point to.
module _ (env : Env) (libuv : Uv) (lp : Ptr) where
  unfoldable pub do_fs_read : ℤ → List UvBuf → ℤ → Callback → Eff FsReq
  do_fs_read file bufs offset fs_cb = do
    let uv_cb = use_c_callback uv_fs_cb fs_cb
    req ← new env libuv fs_cb
    (bufs_ptr, bufs_len, _) ← bufs_into_inner env bufs
    submit env libuv lp req (uv_fs_read file bufs_ptr bufs_len offset) uv_cb

  unfoldable pub fs_read : ℤ → List UvBuf → ℤ → Callback → Eff FsReq
  unfolding do_fs_read
  fs_read file bufs offset fs_cb = do_fs_read file bufs offset fs_cb

  unfoldable pub fs_read_sync : ℤ → List UvBuf → ℤ → Eff ℕ
  unfolding do_fs_read
  fs_read_sync file bufs offset =
      do_fs_read file bufs offset nil >>= destroy_req_return_result env libuv

  unfoldable pub do_fs_write : ℤ → List UvBuf → ℤ → Callback → Eff FsReq
  do_fs_write file bufs offset fs_cb = do
    let uv_cb = use_c_callback uv_fs_cb fs_cb
    req ← new env libuv fs_cb
    (bufs_ptr, bufs_len, _) ← bufs_into_inner env bufs
    submit env libuv lp req (uv_fs_write file bufs_ptr bufs_len offset) uv_cb

  unfoldable pub fs_write : ℤ → List UvBuf → ℤ → Callback → Eff FsReq
  unfolding do_fs_write
  fs_write file bufs offset fs_cb = do_fs_write file bufs offset fs_cb

  unfoldable pub fs_write_sync : ℤ → List UvBuf → ℤ → Eff ℕ
  unfolding do_fs_write
  fs_write_sync file bufs offset =
      do_fs_write file bufs offset nil >>= destroy_req_return_result env libuv
