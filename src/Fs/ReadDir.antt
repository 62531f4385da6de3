-- ===== src/Fs/ReadDir.antt =====
-- src/fs/mod.rs and src/fs/dir.rs: reading a directory stream in chunks.
pub mod Laws
use libuv_rs.Common.{ℕ, Option, none, some}
use libuv_rs.Memory.{Ptr, Callback, nil, uv_fs_cb}
use libuv_rs.Memory.Effect.{Eff, pure, ◌>>=◌, ◌>>◌, Env, use_c_callback}
use libuv_rs.Req.Fs.{FsReq, Uv, Dir, new, dir, result, uv_fs_readdir}
use libuv_rs.Fs.{submit, destroy_req_return_result}

-- `Dir::set_len`, which changes the caller's copy.
abbrev pub set_len : ℕ → Dir → Dir
set_len n d = record d { len = n }

module _ (env : Env) (libuv : Uv) (lp : Ptr) where
  unfoldable pub do_fs_readdir : Dir → Callback → Eff FsReq
  do_fs_readdir d fs_cb = do
    let uv_cb = use_c_callback uv_fs_cb fs_cb
    req ← new env libuv fs_cb
    submit env libuv lp req (uv_fs_readdir d.dir) uv_cb

  -- `if let Some(dir) = req.dir().as_mut() { dir.set_len(req.result()?) }`: the directory is a new
  -- copy, made from the request, and is dropped with the new length.
  unfoldable pub set_temporary_len : FsReq → Option Dir → Eff (Option Dir)
  set_temporary_len req none = pure none
  set_temporary_len req (some d) = do n ← result env libuv req; pure (some (set_len n d))

  -- `d` is a shared reference: what the caller has afterwards is returned beside the request.
  unfoldable pub fs_readdir : Dir → Callback → Eff (FsReq × Dir)
  unfolding do_fs_readdir
  fs_readdir d fs_cb = do
    req ← do_fs_readdir d fs_cb
    temporary ← dir env libuv req
    _ ← set_temporary_len req temporary
    pure (req, d)

  unfoldable pub fs_readdir_sync : Dir → Eff (ℕ × Dir)
  unfolding do_fs_readdir
  fs_readdir_sync d = do
    n ← do_fs_readdir d nil >>= destroy_req_return_result env libuv
    pure (n, d)
